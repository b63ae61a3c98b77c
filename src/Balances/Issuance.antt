-- ===== src/Balances/Issuance.antt =====
-- runtime/src/balances.rs: the total issuance over a list of accounts, and transfers.
use sonic_chain.Base.{
  ◌≡◌, true, List, [], ◌∷◌, arith, leb, ℕ, ◌+◌, ◌-◌, ◌*◌, ◌≤◌, ◌<◌, Bool-cases, inl, inr, bytes_eq,
  bytes_beq, bytes_beq_iff, count_if,
}
use sonic_chain.Primitives.{ThreadId, AccountId, Balance, add_balance, balance_limit}
use sonic_chain.Runtime.Storage.{Codec}
use sonic_chain.Runtime.Sequential
use sonic_chain.Runtime.Sequential.{RuntimeState}
use sonic_chain.Runtime.View.{store, stored-store}
use sonic_chain.Balances.{balance_of, transfer}
use sonic_chain.Balances.Account.{AccountBalance, account_balance_default}
use sonic_chain.Balances.Transfer.{balance_in, transfer_lem, debited, transferred, credited}

-- How often an account is listed.
abbrev pub occurrences : AccountId → List AccountId → ℕ
occurrences a accounts = count_if (λ x. bytes_beq a x) accounts

-- Free and reserved funds, with no bound on their sum.
abbrev pub holding : AccountBalance → ℕ
holding b = b.free + b.reserved

module _ (codec : Codec AccountBalance) where
  -- All that the listed accounts have.
  unfoldable pub issuance : RuntimeState → List AccountId → ℕ
  issuance m [] = 0
  issuance m (a ∷ accounts) = holding (balance_in codec m a) + issuance m accounts

  -- A new balance for one account, counted as often as it is listed.
  pub issuance-store :
      (a : AccountId) (b : AccountBalance) (m : RuntimeState) (accounts : List AccountId)
      → issuance (store (balance_of codec) a b m) accounts
          + occurrences a accounts * holding (balance_in codec m a)
        ≡ issuance m accounts + occurrences a accounts * holding b
  unfolding issuance
  issuance-store a b m [] = omega arith
  issuance-store a b m (x ∷ accounts) = elim (Bool-cases (bytes_beq a x)) [
    | inl e ↦
        rw (stored-store, e, ← (bytes_beq_iff a x).0 e)
          (omega (arith, issuance-store a b m accounts))
    | inr e ↦ rw (stored-store, e) (omega (arith, issuance-store a b m accounts))
  ]

  -- A listed account has at most the issuance.
  pub holding-le-issuance :
      (a : AccountId) (m : RuntimeState) (accounts : List AccountId)
      → 0 < occurrences a accounts
      → holding (balance_in codec m a) ≤ issuance m accounts
  unfolding issuance
  holding-le-issuance a m [] h = absurd (omega arith)
  holding-le-issuance a m (x ∷ accounts) h = elim (Bool-cases (bytes_beq a x)) [
    | inl e ↦ rw ((bytes_beq_iff a x).0 e) (omega arith)
    | inr e ↦ omega (arith, holding-le-issuance a m accounts (rw e at h))
  ]

  -- The change of one account that is listed once.
  issuance_once :
      (a : AccountId) (b : AccountBalance) (m : RuntimeState) (accounts : List AccountId)
      → occurrences a accounts ≡ 1
      → issuance (store (balance_of codec) a b m) accounts + holding (balance_in codec m a)
        ≡ issuance m accounts + holding b
  issuance_once a b m accounts once =
      let e : 1 * holding (balance_in codec m a) ≡ holding (balance_in codec m a) = omega arith in
      omega (arith, rw once at (issuance-store a b m accounts))

  module _ (id : ThreadId) (origin dest : AccountId) (value : Balance) (m : RuntimeState)
      (accounts : List AccountId) (origin_listed : occurrences origin accounts ≡ 1)
      (dest_listed : occurrences dest accounts ≡ 1)
      (bounded : issuance m accounts < balance_limit) where
    issuance-transferred :
        value ≤ (balance_in codec m origin).free
        → issuance (transferred codec id origin dest value m) accounts ≡ issuance m accounts
    unfolding add_balance
    issuance-transferred h =
        let m1 : RuntimeState = debited codec id origin dest value m in
        let paid : issuance m1 accounts + value ≡ issuance m accounts = omega (
          arith,
          issuance_once origin
              (record (balance_in codec m origin) {
                free = (balance_in codec m origin).free - value;
              })
              m accounts origin_listed,
        ) in
        omega (
          arith,
          paid,
          issuance_once dest (credited codec id origin dest value m (balance_in codec m1 dest)) m1
              accounts dest_listed,
          holding-le-issuance dest m1 accounts (rw dest_listed (omega arith)),
        )

    -- If origin and receiver are each listed once, and the listed accounts together have less than
    -- 2 ^ 128, then they have the same together after a transfer, whatever comes of it.
    pub transfer-issuance :
        issuance (Sequential.dispatch id (transfer codec origin dest value) m).1 accounts
        ≡ issuance m accounts
    transfer-issuance = elim (Bool-cases (leb value (balance_in codec m origin).free)) [
      | inl e ↦
          rw (transfer_lem, e)
            (issuance-transferred (leb_le value (balance_in codec m origin).free e))
      | inr e ↦ rw (transfer_lem, e)
    ]
      where
        leb_le : (a b : ℕ) → leb a b ≡ true → a ≤ b
        leb_le a b h = ground arith

    -- If, in addition, the origin has the amount, then the addition at the receiver does not overflow
    -- 2 ^ 128, where a debug build would panic, and afterwards no listed account has 2 ^ 128 or more, its
    -- free and reserved funds taken together.
    pub transfer-bounds :
        value ≤ (balance_in codec m origin).free
        → ((balance_in codec (debited codec id origin dest value m) dest).free + value
            < balance_limit)
          × ((a : AccountId)
              → 0 < occurrences a accounts
              → holding (
                  balance_in codec
                    (Sequential.dispatch id (transfer codec origin dest value) m).1
                    a)
                < balance_limit)
    transfer-bounds h =
        let m1 : RuntimeState = debited codec id origin dest value m in
        let paid : issuance m1 accounts + value ≡ issuance m accounts = omega (
          arith,
          issuance_once origin
              (record (balance_in codec m origin) {
                free = (balance_in codec m origin).free - value;
              })
              m accounts origin_listed,
        ) in
        (
          omega (
            arith,
            paid,
            bounded,
            holding-le-issuance dest m1 accounts (rw dest_listed (omega arith)),
          ),
          λ a listed. omega (
            arith,
            bounded,
            transfer-issuance,
            holding-le-issuance a (Sequential.dispatch id (transfer codec origin dest value) m).1
                accounts listed,
          ),
        )
