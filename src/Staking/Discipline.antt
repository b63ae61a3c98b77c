-- ===== src/Staking/Discipline.antt =====
-- runtime/src/staking.rs: how the calls use their storage.
use sonic_chain.Base.{
  refl, Bool, true, false, List, [], ◌∷◌, Result, ok, err, String, inl, inr, ◌==◌, ltb, not,
  default,
}
use sonic_chain.Primitives.{Key, AccountId, Balance}
use sonic_chain.Runtime.{Prog, ◌>>=◌, ◌>>◌}
use sonic_chain.Runtime.Storage.{decoded, key_for}
use sonic_chain.Runtime.Discipline.{IsDisciplined}
use sonic_chain.Balances.Account.{AccountBalance, account_balance_default, reserve, unreserve}
use sonic_chain.Staking.{
  Codecs, or_logic_error, error_if, panic_if, balances, ledger_of, bonded, tx_bond, tx_bond_extra,
  tx_unbond, tx_set_controller, tx_validate, tx_nominate, tx_chill, unreserve_or_panic,
  replace_controller, clear_nominations,
}
use sonic_chain.Staking.Ledger.{
  StakingLedger, StakingRole, ledger_default, account_default, accounts_default, ledger_eq,
  is_nominator, chilled,
}
use sonic_chain.Base.{bytes_eq}
use sonic_chain.Runtime.Storage
use sonic_chain.Runtime.{expect}

-- Guards pass a discipline on to what follows them.
module _ (P : Prog Unit → Type 0) (fails : (e : String) → P (error_if true e))
    (aborts : P (panic_if true)) where
  pub error_if-keeps :
      (b : Bool) (why : String) (rest : Prog Unit) → P rest → P (error_if b why >> rest)
  error_if-keeps true why rest h = fails why
  error_if-keeps false why rest h = h

  pub panic_if-keeps : (b : Bool) (rest : Prog Unit) → P rest → P (panic_if b >> rest)
  panic_if-keeps true rest h = aborts
  panic_if-keeps false rest h = h

  pub or_logic_error-keeps :
      (r : Result String AccountBalance) (rest : AccountBalance → Prog Unit)
      → ((a : AccountBalance) → P (rest a))
      → P (or_logic_error r >>= rest)
  or_logic_error-keeps (ok a) rest h = h a
  or_logic_error-keeps (err why) rest h = fails why

module _ (c : Codecs) (known : List Key) where
  error_disciplined :
      (b : Bool) (why : String) (rest : Prog Unit)
      → IsDisciplined known rest
      → IsDisciplined known (error_if b why >> rest)
  error_disciplined = error_if-keeps (IsDisciplined known) (λ e. tt) tt

  panic_disciplined :
      (b : Bool) (rest : Prog Unit)
      → IsDisciplined known rest
      → IsDisciplined known (panic_if b >> rest)
  panic_disciplined = panic_if-keeps (IsDisciplined known) (λ e. tt) tt

  logic_disciplined :
      (r : Result String AccountBalance) (rest : AccountBalance → Prog Unit)
      → ((a : AccountBalance) → IsDisciplined known (rest a))
      → IsDisciplined known (or_logic_error r >>= rest)
  logic_disciplined = or_logic_error-keeps (IsDisciplined known) (λ e. tt) tt

  unreserve_or_panic-IsDisciplined :
      (stash : AccountId) (r : Result String AccountBalance)
      → IsDisciplined known (unreserve_or_panic c stash r)
  unreserve_or_panic-IsDisciplined stash (ok balance) = (inr (true, λ t. refl), tt)
  unreserve_or_panic-IsDisciplined stash (err why) = tt

  replace_controller-IsDisciplined :
      (stash ctrl : AccountId) (ledger : StakingLedger) (b : Bool)
      → IsDisciplined
          (key_for (ledger_of c) stash ∷ known)
          (replace_controller c stash ctrl ledger b)
  replace_controller-IsDisciplined stash ctrl ledger true = tt
  replace_controller-IsDisciplined stash ctrl ledger false =
      (inr (false, λ t. refl), (inr (true, λ t. refl), (inl (inr (inr (inl refl))), tt)))

  clear_nominations-IsDisciplined :
      (stash : AccountId) (b : Bool) (role : StakingRole) (ledger : StakingLedger)
      → IsDisciplined (key_for (ledger_of c) stash ∷ known) (
          clear_nominations c stash b
          >> (Storage.write (ledger_of c) stash (record ledger { role = role }) >>= expect))
  clear_nominations-IsDisciplined stash false role ledger = (inl (inl refl), tt)
  clear_nominations-IsDisciplined stash true role ledger =
      (inr (true, λ t. refl), (inl (inr (inl refl)), tt))

-- Each call: a refused access ends it, and what it expects to own it has used before.
module _ (c : Codecs) where
  pub tx_bond-IsDisciplined :
      (stash : AccountId) (amount : Balance) (controller : AccountId)
      → IsDisciplined [] (tx_bond c stash amount controller)
  unfolding tx_bond
  tx_bond-IsDisciplined stash amount controller = (
    (false, λ t. refl),
    λ v. error_disciplined c _ (not (decoded (ledger_of c) v == default)) _ _ (
      (true, λ t. refl),
      λ w.
          logic_disciplined c _ (reserve (decoded (balances c) w) amount) _
            λ a. (inl (inl refl), (inr (true, λ t. refl), (inl (inr (inr (inr (inl refl)))), tt))),
    ),
  )

  pub tx_bond_extra-IsDisciplined :
      (stash : AccountId) (amount : Balance) → IsDisciplined [] (tx_bond_extra c stash amount)
  unfolding tx_bond_extra
  tx_bond_extra-IsDisciplined stash amount = (
    (false, λ t. refl),
    λ v. error_disciplined c _ (decoded (ledger_of c) v == default) _ _ (
      (true, λ t. refl),
      λ w.
          logic_disciplined c _ (reserve (decoded (balances c) w) amount) _
            λ a. (inl (inl refl), (inl (inr (inr (inl refl))), tt)),
    ),
  )

  pub tx_unbond-IsDisciplined :
      (stash : AccountId) (amount : Balance) → IsDisciplined [] (tx_unbond c stash amount)
  unfolding tx_unbond
  tx_unbond-IsDisciplined stash amount = (
    (false, λ t. refl),
    λ v. error_disciplined c _ (decoded (ledger_of c) v == default) _ _ (
        error_disciplined c _ (ltb (decoded (ledger_of c) v).value amount) _ _ (
          inl (inl refl),
          (
            (true, λ t. refl),
            λ w.
                unreserve_or_panic-IsDisciplined c _ stash
                  (unreserve (decoded (balances c) w) amount),
          ),
        )),
  )

  pub tx_set_controller-IsDisciplined :
      (stash ctrl : AccountId) → IsDisciplined [] (tx_set_controller c stash ctrl)
  unfolding tx_set_controller
  tx_set_controller-IsDisciplined stash ctrl = (
    (false, λ t. refl),
    λ v. error_disciplined c _ (decoded (ledger_of c) v == default) _ _ (
        replace_controller-IsDisciplined c [] stash ctrl (decoded (ledger_of c) v)
          ((decoded (ledger_of c) v).controller == ctrl)),
  )

  pub tx_validate-IsDisciplined : (ctrl : AccountId) → IsDisciplined [] (tx_validate c ctrl)
  unfolding tx_validate
  tx_validate-IsDisciplined ctrl = (
    (false, λ t. refl),
    λ v. error_disciplined c _ (decoded (bonded c) v == default) _ _ (
      (true, λ t. refl),
      λ w. panic_disciplined c _ (decoded (ledger_of c) w == default) _ (inl (inl refl), tt),
    ),
  )

  pub tx_nominate-IsDisciplined :
      (ctrl : AccountId) (targets : List AccountId) → IsDisciplined [] (tx_nominate c ctrl targets)
  unfolding tx_nominate
  tx_nominate-IsDisciplined ctrl targets = (
    (false, λ t. refl),
    λ v. error_disciplined c _ (decoded (bonded c) v == default) _ _ (
      (true, λ t. refl),
      λ w.
          panic_disciplined c _ (decoded (ledger_of c) w == default) _
            (inr (true, λ t. refl), (inl (inr (inl refl)), tt)),
    ),
  )

  pub tx_chill-IsDisciplined : (ctrl : AccountId) → IsDisciplined [] (tx_chill c ctrl)
  unfolding tx_chill
  tx_chill-IsDisciplined ctrl = (
    (false, λ t. refl),
    λ v. error_disciplined c _ (decoded (bonded c) v == default) _ _ (
      (true, λ t. refl),
      λ w. panic_disciplined c _ (decoded (ledger_of c) w == default) _ (
          clear_nominations-IsDisciplined c _ (decoded (bonded c) v)
            (is_nominator (decoded (ledger_of c) w).role) chilled (decoded (ledger_of c) w)),
    ),
  )
