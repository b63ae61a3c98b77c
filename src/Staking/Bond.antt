-- ===== src/Staking/Bond.antt =====
-- runtime/src/staking.rs, `bond` on a `SequentialRuntime`: every branch, and the state after it.
use sonic_chain.Base.{
  ◌≡◌, refl, ap, ◌∙◌, Bool, not, ◌==◌, if◌then◌else◌, Result, ok, err, returned, Bool-cases, inl,
  inr, bytes_eq, default, String,
}
use sonic_chain.Primitives.{ThreadId, AccountId, Balance}
use sonic_chain.Runtime.{
  run, success, logic_failure, RuntimeDispatchResult, to_runtime_dispatch_result, Prog, ◌>>=◌, ◌>>◌,
  or_orphan, expect,
}
use sonic_chain.Runtime.Storage
use sonic_chain.Runtime.Sequential
use sonic_chain.Runtime.Sequential.{RuntimeState, sequential_runtime}
use sonic_chain.Runtime.Frame.{state_value}
use sonic_chain.Runtime.View.{stored, store}
use sonic_chain.Balances.Account.{AccountBalance, account_balance_default, reserve}
use sonic_chain.Staking.{Codecs, balances, ledger_of, bonded, tx_bond, error_if, or_logic_error}
use sonic_chain.Staking.Ledger.{StakingLedger, chilled, ledger_default, account_default, ledger_eq}

module _ (c : Codecs) (id : ThreadId) (stash : AccountId) (amount : Balance)
    (m : RuntimeState) where
  abbrev pub ledger_in : RuntimeState → StakingLedger
  ledger_in m' = stored (ledger_of c) m' stash

  -- A call's rest, run from a state.
  abbrev finish : Prog Unit → RuntimeState → RuntimeDispatchResult × RuntimeState
  finish rest m' =
      let after = run (sequential_runtime id) rest m' in
      (to_runtime_dispatch_result after.0, after.1)

  module _ (controller : AccountId) where
    -- What is left of bonding when the funds have been reserved, or not.
    abbrev pub bonding : Result String AccountBalance → RuntimeDispatchResult × RuntimeState
    bonding (err why) = (returned (logic_failure why), m)
    bonding (ok reserved) = (
      returned success,
      store (ledger_of c) stash (record { value = amount; controller = controller; role = chilled })
          (store (bonded c) controller stash (store (balances c) stash reserved m)),
    )

    abbrev write_bond : AccountBalance → Prog Unit
    write_bond reserved = do
      stored ← Storage.write (balances c) stash reserved
      expect stored
      paired ← Storage.write (bonded c) controller stash
      or_orphan paired
      entered ←
          Storage.write (ledger_of c) stash
            (record { value = amount; controller = controller; role = chilled })
      expect entered

    after_reserve :
        (r : Result String AccountBalance) → finish (or_logic_error r >>= write_bond) m ≡ bonding r
    unfolding run Sequential.write store to_runtime_dispatch_result
    after_reserve (err why) = refl
    after_reserve (ok reserved) = refl

    abbrev reserve_funds : Prog Unit
    reserve_funds = do
      found ← Storage.read (balances c) stash
      stash_balance ← or_orphan found
      reserved ← or_logic_error (reserve stash_balance amount)
      write_bond reserved

    after_exists : Bool → RuntimeDispatchResult × RuntimeState
    after_exists already = finish (error_if already "Already bonded." >> reserve_funds) m

    bond_step :
        Sequential.dispatch id (tx_bond c stash amount controller) m
        ≡ after_exists (not (ledger_in m == default))
    unfolding Sequential.dispatch tx_bond after_exists run Sequential.read Sequential.write stored
        state_value
    bond_step = refl

    reserve_step : finish reserve_funds m ≡ bonding (reserve (stored (balances c) m stash) amount)
    unfolding run Sequential.read stored state_value
    reserve_step = after_reserve (reserve (stored (balances c) m stash) amount)

    -- Bonding is an error for a stash that has a ledger, or too little to reserve, and then changes
    -- nothing; else the amount is reserved, the controller is paired with the stash, and the ledger has
    -- the amount, the controller and no role.
    pub tx_bond_lem : Sequential.dispatch id (tx_bond c stash amount controller) m ≡ (
        if ledger_in m == default
        then bonding (reserve (stored (balances c) m stash) amount)
        else (returned (logic_failure "Already bonded."), m))
    unfolding after_exists to_runtime_dispatch_result run
    tx_bond_lem = elim (Bool-cases (ledger_in m == default)) [
      | inl e ↦ rw e (bond_step ∙ ap (λ b. after_exists (not b)) e ∙ reserve_step)
      | inr e ↦ rw e (bond_step ∙ ap (λ b. after_exists (not b)) e)
    ]
