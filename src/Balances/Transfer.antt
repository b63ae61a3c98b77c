-- ===== src/Balances/Transfer.antt =====
-- runtime/src/balances.rs, `transfer` on a `SequentialRuntime`: who has what afterwards.
use sonic_chain.Base.{
  ◌≡◌, ap, ◌==◌, if◌then◌else◌, leb, ◌-◌, Option, none, some, returned, Bool-cases, inl, inr,
  bytes_eq,
}
use sonic_chain.Primitives.{ThreadId, AccountId, Balance, add_balance}
use sonic_chain.Runtime.{
  run, success, logic_failure, RuntimeDispatchResult, to_runtime_dispatch_result,
}
use sonic_chain.Runtime.Storage.{Codec}
use sonic_chain.Runtime.Sequential
use sonic_chain.Runtime.Sequential.{RuntimeState, sequential_runtime}
use sonic_chain.Runtime.Frame.{state_value}
use sonic_chain.Runtime.View.{stored, store, stored-store}
use sonic_chain.Balances.{balance_of, transfer, checked_sub, pay}
use sonic_chain.Balances.Account.{AccountBalance, account_balance_default}

module _ (codec : Codec AccountBalance) where
  -- The balance of an account in the state.
  abbrev pub balance_in : RuntimeState → AccountId → AccountBalance
  balance_in m a = stored (balance_of codec) m a

  module _ (id : ThreadId) (origin dest : AccountId) (value : Balance) (m : RuntimeState) where
    abbrev pub debited : RuntimeState
    debited =
        store (balance_of codec) origin
          (record (balance_in m origin) { free = (balance_in m origin).free - value }) m

    abbrev pub credited : AccountBalance → AccountBalance
    credited old = record old { free = add_balance old.free value }

    abbrev pub transferred : RuntimeState
    transferred = store (balance_of codec) dest (credited (balance_in debited dest)) debited

    -- The rest of the transfer, once the origin's balance has been read.
    after_check : Option Balance → RuntimeDispatchResult × RuntimeState
    after_check left =
        let after =
          run (sequential_runtime id) (pay codec origin dest value (balance_in m origin) left) m in
        (to_runtime_dispatch_result after.0, after.1)

    -- Too little: a logical error, and the state is as it was.
    transfer_short :
        checked_sub (balance_in m origin).free value ≡ none
        → Sequential.dispatch id (transfer codec origin dest value) m
          ≡ (returned (logic_failure "Does not have enough funds."), m)
    unfolding Sequential.dispatch transfer after_check Sequential.read Sequential.write stored store
        state_value
    transfer_short h = ap after_check h

    transfer_enough :
        checked_sub (balance_in m origin).free value ≡ some ((balance_in m origin).free - value)
        → Sequential.dispatch id (transfer codec origin dest value) m
          ≡ (returned success, transferred)
    unfolding Sequential.dispatch transfer after_check Sequential.read Sequential.write stored store
        state_value
    transfer_enough h = ap after_check h

    -- A transfer on a sequential runtime is all or nothing: with too little it reports so and
    -- leaves the state alone; else it takes the amount from the origin, and gives it to the
    -- receiver after that.
    pub transfer_lem : Sequential.dispatch id (transfer codec origin dest value) m ≡ (
        if leb value (balance_in m origin).free
        then (returned success, transferred)
        else (returned (logic_failure "Does not have enough funds."), m))
    transfer_lem = elim (Bool-cases (leb value (balance_in m origin).free)) [
      | inl e ↦ rw e (transfer_enough (rw e))
      | inr e ↦ rw e (transfer_short (rw e))
    ]

    -- What an account holds after a transfer that went through.
    pub balance-transferred :
        (a : AccountId)
        → balance_in transferred a ≡ (
            if dest == a
            then credited (
                if origin == dest
                then record (balance_in m origin) { free = (balance_in m origin).free - value }
                else balance_in m dest)
            else if origin == a
            then record (balance_in m origin) { free = (balance_in m origin).free - value }
            else balance_in m a)
    balance-transferred a = simp stored-store
