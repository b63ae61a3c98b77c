-- ===== src/Tests/Calls.antt =====
-- The calls and the two runtimes at concrete inputs.
use sonic_chain.Base.{
  ◌+◌, ◌<◌, ◌≡◌, ◌≢◌, refl, false, none, some, [], ◌∷◌, arith, leb, if◌then◌else◌, ok, returned,
  failed, bytes_eq, nat_eq,
}
use sonic_chain.Base.HashMap
use sonic_chain.Primitives.{AccountId, balance_limit, add_balance}
use sonic_chain.State
use sonic_chain.State.{unsafe_read_taint, state_eq}
use sonic_chain.Runtime.{success, logic_failure, tainted_by}
use sonic_chain.Runtime.Storage.{key_for}
use sonic_chain.Runtime.Frame.{state_value}
use sonic_chain.Runtime.Sequential
use sonic_chain.Runtime.Sequential.{RuntimeState}
use sonic_chain.Runtime.Concurrent
use sonic_chain.Runtime.Discipline.{IsDisciplined, ChecksFirst}
use sonic_chain.Runtime.Dispatch.{
  Refines, dispatch-Refines, SameValues, dispatch-Atomic, dispatch-Confined,
  sequential-dispatch-ne-tainted,
}
use sonic_chain.Runtime.View.{stored}
use sonic_chain.Balances.{balance_of, transfer}
use sonic_chain.Balances.Account.{account_balance_default, reserve, unreserve, unreserve-reserve}
use sonic_chain.Balances.Transfer.{balance_in, debited, transferred, transfer_lem}
use sonic_chain.Balances.Issuance.{
  holding, issuance, transfer-issuance, transfer-bounds, occurrences,
}
use sonic_chain.Balances.Missing.{transfer-states_differ}
use sonic_chain.Call.{body}
use sonic_chain.Call.Discipline.{body-IsDisciplined, body-ChecksFirst}
use sonic_chain.Tests.Fixtures.{
  codecs, balance_codec, genesis, contended, alice, bob, carol, alice_pays, bob_bonds,
}

body-IsDisciplined_example : IsDisciplined [] (body codecs bob_bonds bob)
body-IsDisciplined_example = body-IsDisciplined codecs bob_bonds bob

body-ChecksFirst_example : ChecksFirst (body codecs bob_bonds bob)
body-ChecksFirst_example = body-ChecksFirst codecs bob_bonds bob

dispatch-Refines_example :
    Refines 1
      (body codecs alice_pays alice)
      contended
      (body-IsDisciplined codecs alice_pays alice)
      (Concurrent.dispatch 1 (body codecs alice_pays alice) contended)
      (Sequential.dispatch 1 (body codecs alice_pays alice) contended)
dispatch-Refines_example =
    dispatch-Refines 1 (body codecs alice_pays alice) contended
      (body-IsDisciplined codecs alice_pays alice) contended
      (body-ChecksFirst codecs alice_pays alice) (λ k. refl)

contended_refused :
    (Concurrent.dispatch 1 (body codecs alice_pays alice) contended).0 ≡ failed (tainted_by 2 false)
unfolding Concurrent.dispatch body key_for transfer Concurrent.read HashMap.get State.read
contended_refused = refl

contended_unsuccessful :
    (Concurrent.dispatch 1 (body codecs alice_pays alice) contended).0 ≢ returned success
contended_unsuccessful e = cc (contended_refused)

dispatch-Atomic_example :
    SameValues (Concurrent.dispatch 1 (body codecs alice_pays alice) contended).1 contended
dispatch-Atomic_example =
    dispatch-Atomic 1 (body codecs alice_pays alice) contended contended_unsuccessful

alice_owned : unsafe_read_taint (key_for (balance_of balance_codec) alice) contended ≡ some 2
unfolding unsafe_read_taint key_for HashMap.get
alice_owned = refl

dispatch-Confined_example :
    (state_value
        (Concurrent.dispatch 1 (body codecs alice_pays alice) contended).1
        (key_for (balance_of balance_codec) alice)
      ≡ state_value contended (key_for (balance_of balance_codec) alice))
    × (unsafe_read_taint
          (key_for (balance_of balance_codec) alice)
          (Concurrent.dispatch 1 (body codecs alice_pays alice) contended).1
        ≡ some 2)
dispatch-Confined_example =
    dispatch-Confined 1 (body codecs alice_pays alice) contended
      (body-IsDisciplined codecs alice_pays alice) (key_for (balance_of balance_codec) alice) 2
      alice_owned (λ e. omega (arith, e))

sequential-dispatch-ne-tainted_example :
    (Sequential.dispatch 0 (body codecs alice_pays alice) contended).0 ≢ failed (tainted_by 2 false)
sequential-dispatch-ne-tainted_example =
    sequential-dispatch-ne-tainted 0 (body codecs alice_pays alice) contended 2 false
      (body-IsDisciplined codecs alice_pays alice)

transfer_lem_example : Sequential.dispatch 0 (transfer balance_codec alice bob 30) genesis ≡ (
    if leb 30 (balance_in balance_codec genesis alice).free
    then (returned success, transferred balance_codec 0 alice bob 30 genesis)
    else (returned (logic_failure "Does not have enough funds."), genesis))
transfer_lem_example = transfer_lem balance_codec 0 alice bob 30 genesis

genesis-issuance : issuance balance_codec genesis (alice ∷ bob ∷ carol ∷ []) ≡ 150
unfolding issuance stored state_value key_for HashMap.get
genesis-issuance = refl

genesis_bounded : issuance balance_codec genesis (alice ∷ bob ∷ carol ∷ []) < balance_limit
genesis_bounded = omega (arith, genesis-issuance)

transfer-issuance_example :
    issuance balance_codec
      (Sequential.dispatch 0 (transfer balance_codec alice bob 30) genesis).1
      (alice ∷ bob ∷ carol ∷ [])
    ≡ issuance balance_codec genesis (alice ∷ bob ∷ carol ∷ [])
transfer-issuance_example =
    transfer-issuance balance_codec 0 alice bob 30 genesis (alice ∷ bob ∷ carol ∷ []) refl refl
      genesis_bounded

alice_has : (balance_in balance_codec genesis alice).free ≡ 100
unfolding stored key_for HashMap.get state_value
alice_has = refl

transfer-bounds_example :
    ((balance_in balance_codec (debited balance_codec 0 alice bob 30 genesis) bob).free + 30
      < balance_limit)
    × ((a : AccountId)
        → 0 < occurrences a (alice ∷ bob ∷ carol ∷ [])
        → holding (
            balance_in balance_codec
              (Sequential.dispatch 0 (transfer balance_codec alice bob 30) genesis).1
              a)
          < balance_limit)
transfer-bounds_example =
    transfer-bounds balance_codec 0 alice bob 30 genesis (alice ∷ bob ∷ carol ∷ []) refl refl
      genesis_bounded (omega (arith, alice_has))

bob_missing : HashMap.get (key_for (balance_of balance_codec) bob) genesis ≡ none
unfolding HashMap.get key_for
bob_missing = refl

transfer-states_differ_example :
    state_eq
      (Sequential.dispatch 1 (transfer balance_codec bob alice 5) genesis).1
      (Concurrent.dispatch 1 (transfer balance_codec bob alice 5) genesis).1
    ≡ false
transfer-states_differ_example =
    transfer-states_differ balance_codec 1 bob alice 5 genesis (omega arith) bob_missing

reserved_five :
    reserve (record { free = 8; reserved = 1 }) 5 ≡ ok (record { free = 3; reserved = 6 })
unfolding reserve add_balance
reserved_five = refl

unreserve-reserve_example :
    unreserve (record { free = 3; reserved = 6 }) 5 ≡ ok (record { free = 8; reserved = 1 })
unreserve-reserve_example =
    unreserve-reserve (record { free = 8; reserved = 1 }) (record { free = 3; reserved = 6 }) 5
      (omega arith) reserved_five
