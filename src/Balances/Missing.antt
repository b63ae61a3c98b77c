-- ===== src/Balances/Missing.antt =====
-- runtime/src/balances.rs over both runtimes: a transfer from an account that has no entry. The
-- concurrent read enters a default value under the reader's taint, the sequential one enters nothing.
use sonic_chain.Base.{
  ◌≡◌, ◌≢◌, ap, ◌∙◌, false, [], arith, leb, ℕ, suc, ◌<◌, none, bytes_eq, nat_eq, default,
}
use sonic_chain.Base.HashMap
use sonic_chain.Primitives.{ThreadId, AccountId, Balance, value_default}
use sonic_chain.State.{state_eq, new_taint}
use sonic_chain.State.Access.{read_of_missing}
use sonic_chain.State.Compare.{length-insert, state_eq_lengths}
use sonic_chain.Runtime.{run}
use sonic_chain.Runtime.Storage.{Codec, key_for, decoded}
use sonic_chain.Runtime.Frame.{state_value}
use sonic_chain.Runtime.View.{stored}
use sonic_chain.Runtime.Sequential
use sonic_chain.Runtime.Sequential.{RuntimeState}
use sonic_chain.Runtime.Concurrent
use sonic_chain.Runtime.Concurrent.{concurrent_runtime}
use sonic_chain.Balances.{balance_of, transfer, pay, checked_sub}
use sonic_chain.Balances.Account.{AccountBalance, account_balance_default}
use sonic_chain.Balances.Transfer.{balance_in, transfer_lem}

module _ (codec : Codec AccountBalance) (id : ThreadId) (origin dest : AccountId) (value : Balance)
    (m : RuntimeState) (positive : 0 < value)
    (missing : HashMap.get (key_for (balance_of codec) origin) m ≡ none) where
  missing-value : state_value m (key_for (balance_of codec) origin) ≡ []
  unfolding state_value
  missing-value = ground arith

  missing-balance : balance_in codec m origin ≡ default
  unfolding stored
  missing-balance = ap (decoded (balance_of codec)) missing-value ∙ codec.decode-nil

  too_little : leb value 0 ≡ false
  too_little = ground arith

  sequential_state : (Sequential.dispatch id (transfer codec origin dest value) m).1 ≡ m
  sequential_state = rw (transfer_lem, missing-balance, too_little)

  abbrev entered : RuntimeState
  entered = HashMap.insert (key_for (balance_of codec) origin) (new_taint id) m

  -- The rest of the concurrent transfer, once the balance has been read.
  after_read : AccountBalance → RuntimeState
  after_read old = Concurrent.commit_if_ok id (
      run (concurrent_runtime id) (pay codec origin dest value old (checked_sub old.free value))
        (record { state = entered; cache = [] }))

  read_missing_step :
      (Concurrent.dispatch id (transfer codec origin dest value) m).1
      ≡ after_read (decoded (balance_of codec) [])
  unfolding Concurrent.dispatch transfer HashMap.get after_read Concurrent.read
  read_missing_step = rw (read_of_missing (key_for (balance_of codec) origin) id m missing)

  refused_step : after_read default ≡ entered
  unfolding after_read Concurrent.commit_if_ok run
  refused_step = rw too_little

  concurrent_state : (Concurrent.dispatch id (transfer codec origin dest value) m).1 ≡ entered
  concurrent_state = read_missing_step ∙ ap after_read codec.decode-nil ∙ refused_step

  -- If the sender of a positive amount has no entry, the dump after the concurrent transfer is not
  -- equal, by `state_eq`, to the dump after the sequential one.
  pub transfer-states_differ :
      state_eq
        (Sequential.dispatch id (transfer codec origin dest value) m).1
        (Concurrent.dispatch id (transfer codec origin dest value) m).1
      ≡ false
  transfer-states_differ =
      rw (sequential_state, concurrent_state)
        (state_eq_lengths m _
          (longer (length-insert (key_for (balance_of codec) origin) (new_taint id) m missing)))
    where
      longer : {a b : ℕ} → b ≡ suc a → a ≢ b
      longer h p = omega (arith, h, p)
