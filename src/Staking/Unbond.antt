-- ===== src/Staking/Unbond.antt =====
-- runtime/src/staking.rs, `unbond` on a `SequentialRuntime`: every branch, and the state after it.
use sonic_chain.Base.{
  ◌≡◌, ◌≢◌, refl, ap, ◌∙◌, Bool, false, List, [], ◌∷◌, arith, ◌==◌, if◌then◌else◌, ℕ, ◌-◌, ltb,
  Result, ok, err, returned, panicked, Bool-cases, inl, inr, bytes_eq, default, String,
}
use sonic_chain.Primitives.{ThreadId, AccountId, Balance}
use sonic_chain.Runtime.{
  run, success, logic_failure, RuntimeDispatchResult, to_runtime_dispatch_result, Prog, ◌>>=◌, ◌>>◌,
  or_orphan, expect,
}
use sonic_chain.Runtime.Storage
use sonic_chain.Runtime.Storage.{key_for}
use sonic_chain.Runtime.Sequential
use sonic_chain.Runtime.Sequential.{RuntimeState, sequential_runtime}
use sonic_chain.Runtime.Frame.{state_value}
use sonic_chain.Runtime.View.{stored, store, stored-store_other}
use sonic_chain.Balances.Account.{AccountBalance, account_balance_default, unreserve}
use sonic_chain.Staking.{Codecs, balances, ledger_of, tx_unbond, error_if, unreserve_or_panic}
use sonic_chain.Staking.Ledger.{StakingLedger, ledger_default, ledger_eq}

abbrev pub first_byte : List ℕ → ℕ
first_byte [] = 0
first_byte (x ∷ xs) = x

-- Balances and ledgers have no key in common.
pub balances-ne-ledger_of :
    (c : Codecs) (a b : AccountId) → key_for (ledger_of c) a ≢ key_for (balances c) b
unfolding key_for
balances-ne-ledger_of c a b e = let first : 115 ≡ 98 = ap first_byte e in omega (arith, first)

module _ (c : Codecs) (id : ThreadId) (stash : AccountId) (amount : Balance)
    (m : RuntimeState) where
  abbrev pub ledger_before : StakingLedger
  ledger_before = stored (ledger_of c) m stash

  abbrev pub with_less : RuntimeState
  with_less =
      store (ledger_of c) stash (record ledger_before { value = ledger_before.value - amount }) m

  -- What is left of unbonding when the funds have been unreserved, or not.
  abbrev pub unbonding : Result String AccountBalance → RuntimeDispatchResult × RuntimeState
  unbonding (err why) = (panicked, with_less)
  unbonding (ok balance) = (returned success, store (balances c) stash balance with_less)

  abbrev finish : Prog Unit → RuntimeState → RuntimeDispatchResult × RuntimeState
  finish rest m' =
      let after = run (sequential_runtime id) rest m' in
      (to_runtime_dispatch_result after.0, after.1)

  unreserved :
      (r : Result String AccountBalance)
      → finish (unreserve_or_panic c stash r) with_less ≡ unbonding r
  unfolding run Sequential.write store to_runtime_dispatch_result
  unreserved (err why) = refl
  unreserved (ok balance) = refl

  abbrev take_funds : Prog Unit
  take_funds = do
    entered ←
        Storage.write (ledger_of c) stash
          (record ledger_before { value = ledger_before.value - amount })
    expect entered
    held ← Storage.read (balances c) stash
    balance ← or_orphan held
    unreserve_or_panic c stash (unreserve balance amount)

  funds_step :
      finish take_funds m ≡ unbonding (unreserve (stored (balances c) with_less stash) amount)
  unfolding run Sequential.read Sequential.write stored store state_value
  funds_step = unreserved (unreserve (stored (balances c) with_less stash) amount)

  after_checks : Bool → Bool → RuntimeDispatchResult × RuntimeState
  after_checks missing short =
      finish
        (error_if missing "Not bonded." >> (error_if short "Too much unbonding." >> take_funds)) m

  checks_step :
      Sequential.dispatch id (tx_unbond c stash amount) m
      ≡ after_checks (ledger_before == default) (ltb ledger_before.value amount)
  unfolding Sequential.dispatch tx_unbond after_checks run Sequential.read Sequential.write stored
      state_value
  checks_step = refl

  same_balance : stored (balances c) with_less stash ≡ stored (balances c) m stash
  same_balance =
      stored-store_other (ledger_of c) (balances c) stash stash _ m
        (balances-ne-ledger_of c stash stash)

  -- Unbonding is an error for an account with no ledger, or of more than the ledger's value, and then
  -- changes nothing; else the ledger's value goes down by the amount and the amount is unreserved, or
  -- there is a panic because less is reserved than the ledger says.
  pub tx_unbond_lem : Sequential.dispatch id (tx_unbond c stash amount) m ≡ (
      if ledger_before == default
      then (returned (logic_failure "Not bonded."), m)
      else if ltb ledger_before.value amount
      then (returned (logic_failure "Too much unbonding."), m)
      else unbonding (unreserve (stored (balances c) m stash) amount))
  unfolding after_checks to_runtime_dispatch_result run
  tx_unbond_lem = elim (Bool-cases (ledger_before == default)) [
    | inl e ↦ rw e (checks_step ∙ ap (λ b. after_checks b (ltb ledger_before.value amount)) e)
    | inr e ↦ elim (Bool-cases (ltb ledger_before.value amount)) [
      | inl s ↦
          rw (e, s)
            (checks_step
              ∙ ap (λ b. after_checks b (ltb ledger_before.value amount)) e
              ∙ ap (λ b. after_checks false b) s)
      | inr s ↦
          rw (e, s)
            (checks_step
              ∙ ap (λ b. after_checks b (ltb ledger_before.value amount)) e
              ∙ ap (λ b. after_checks false b) s
              ∙ funds_step
              ∙ ap (λ b. unbonding (unreserve b amount)) same_balance)
    ]
  ]
