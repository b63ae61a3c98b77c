-- ===== src/Staking/Issuance.antt =====
-- runtime/src/staking.rs: bonding and unbonding create no funds and destroy none.
use sonic_chain.Base.{
  ◌≡◌, ◌≢◌, refl, ap, sym, ◌∙◌, List, [], ◌∷◌, arith, ◌==◌, ltb, ◌<◌, Default, Result, ok, err,
  Bool-cases, inl, inr, String, default,
}
use sonic_chain.Primitives.{ThreadId, AccountId, Balance, balance_limit, add_balance}
use sonic_chain.Runtime.Storage.{StorageMap, key_for}
use sonic_chain.Runtime.Sequential
use sonic_chain.Runtime.Sequential.{RuntimeState}
use sonic_chain.Runtime.View.{stored, store, stored-store_other}
use sonic_chain.Balances.Account.{AccountBalance, account_balance_default, reserve, unreserve}
use sonic_chain.Balances.Transfer.{balance_in}
use sonic_chain.Balances.Issuance.{
  issuance, issuance-store, holding, occurrences, holding-le-issuance,
}
use sonic_chain.Staking.{Codecs, balances, ledger_of, bonded, tx_bond, tx_unbond}
use sonic_chain.Staking.Ledger.{ledger_default, account_default, ledger_eq}
use sonic_chain.Staking.Bond.{bonding, ledger_in, tx_bond_lem}
use sonic_chain.Staking.Unbond.{
  balances-ne-ledger_of, first_byte, ledger_before, with_less, unbonding, tx_unbond_lem,
}

pub reserve-holding :
    (a a' : AccountBalance) (amount : Balance)
    → holding a < balance_limit
    → reserve a amount ≡ ok a'
    → holding a' ≡ holding a
unfolding reserve add_balance
reserve-holding a a' amount bounded h = ground arith

pub unreserve-holding :
    (a a' : AccountBalance) (amount : Balance)
    → holding a < balance_limit
    → unreserve a amount ≡ ok a'
    → holding a' ≡ holding a
unfolding unreserve add_balance
unreserve-holding a a' amount bounded h = ground arith

pub balances-ne-bonded :
    (c : Codecs) (a b : AccountId) → key_for (bonded c) a ≢ key_for (balances c) b
unfolding key_for
balances-ne-bonded c a b e = let first : 115 ≡ 98 = ap first_byte e in omega (arith, first)

module _ (c : Codecs) where
  -- A store in a map that shares no key with the balances leaves the issuance alone.
  issuance-store_other :
      {V : Type 0} ⦃d : Default V⦄ (map : StorageMap V) (a : AccountId) (v : V) (m : RuntimeState)
      → ((x y : AccountId) → key_for map x ≢ key_for (balances c) y)
      → (accounts : List AccountId)
      → issuance c.balance (store map a v m) accounts ≡ issuance c.balance m accounts
  unfolding issuance
  issuance-store_other map a v m apart [] = refl
  issuance-store_other map a v m apart (x ∷ accounts) = rw (
    stored-store_other map (balances c) a x v m (apart a x),
    issuance-store_other map a v m apart accounts,
  )

  -- Nor does a balance that amounts to the same.
  issuance-store_same :
      (a : AccountId) (b : AccountBalance) (m : RuntimeState) (accounts : List AccountId)
      → holding b ≡ holding (balance_in c.balance m a)
      → issuance c.balance (store (balances c) a b m) accounts ≡ issuance c.balance m accounts
  issuance-store_same a b m accounts h =
      omega (arith, rw h at (issuance-store c.balance a b m accounts))

  module _ (id : ThreadId) (stash : AccountId) (amount : Balance) (m : RuntimeState)
      (accounts : List AccountId) (listed : 0 < occurrences stash accounts)
      (bounded : issuance c.balance m accounts < balance_limit) where
    holding-bounded : holding (balance_in c.balance m stash) < balance_limit
    holding-bounded = omega (arith, holding-le-issuance c.balance stash m accounts listed, bounded)

    bonding-issuance :
        (controller : AccountId) (r : Result String AccountBalance)
        → reserve (stored (balances c) m stash) amount ≡ r
        → issuance c.balance (bonding c id stash amount m controller r).1 accounts
          ≡ issuance c.balance m accounts
    bonding-issuance controller (err why) h = refl
    bonding-issuance controller (ok b) h =
        issuance-store_other (ledger_of c) stash _ _ (balances-ne-ledger_of c) accounts
        ∙ issuance-store_other (bonded c) controller _ _ (balances-ne-bonded c) accounts
        ∙ issuance-store_same stash b m accounts
            (reserve-holding (balance_in c.balance m stash) b amount holding-bounded h)

    -- If the stash is listed, and the listed accounts together have less than 2 ^ 128, then they have the
    -- same together, free and reserved, after a bond, whatever comes of it.
    pub tx_bond-issuance :
        (controller : AccountId)
        → issuance c.balance
            (Sequential.dispatch id (tx_bond c stash amount controller) m).1
            accounts
          ≡ issuance c.balance m accounts
    tx_bond-issuance controller = elim (Bool-cases (ledger_in c id stash amount m m == default)) [
      | inl e ↦
          rw (tx_bond_lem, e)
            (bonding-issuance controller (reserve (stored (balances c) m stash) amount) refl)
      | inr e ↦ rw (tx_bond_lem, e)
    ]

    with_less-issuance :
        issuance c.balance (with_less c id stash amount m) accounts ≡ issuance c.balance m accounts
    with_less-issuance =
        issuance-store_other (ledger_of c) stash _ m (balances-ne-ledger_of c) accounts

    with_less-balance :
        balance_in c.balance (with_less c id stash amount m) stash ≡ balance_in c.balance m stash
    with_less-balance =
        stored-store_other (ledger_of c) (balances c) stash stash _ m
          (balances-ne-ledger_of c stash stash)

    unbonding-issuance :
        (r : Result String AccountBalance)
        → unreserve (stored (balances c) m stash) amount ≡ r
        → issuance c.balance (unbonding c id stash amount m r).1 accounts
          ≡ issuance c.balance m accounts
    unbonding-issuance (err why) h = with_less-issuance
    unbonding-issuance (ok b) h =
        issuance-store_same stash b (with_less c id stash amount m) accounts (
          unreserve-holding (balance_in c.balance m stash) b amount holding-bounded h
          ∙ ap holding (sym with_less-balance))
        ∙ with_less-issuance

    -- If the stash is listed, and the listed accounts together have less than 2 ^ 128, then they have the
    -- same together, free and reserved, after an unbonding, whatever comes of it, a panic included.
    pub tx_unbond-issuance :
        issuance c.balance (Sequential.dispatch id (tx_unbond c stash amount) m).1 accounts
        ≡ issuance c.balance m accounts
    tx_unbond-issuance = elim (Bool-cases (ledger_before c id stash amount m == default)) [
      | inl e ↦ rw (tx_unbond_lem, e)
      | inr e ↦ elim (Bool-cases (ltb (ledger_before c id stash amount m).value amount)) [
        | inl s ↦ rw (tx_unbond_lem, e, s)
        | inr s ↦
            rw (tx_unbond_lem, e, s)
              (unbonding-issuance (unreserve (stored (balances c) m stash) amount) refl)
      ]
    ]
