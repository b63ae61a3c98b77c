-- ===== src/Tests/Stakers.antt =====
-- The staking calls at concrete inputs.
use sonic_chain.Base.{refl, arith, ◌<◌, ◌≡◌, [], ◌∷◌, if◌then◌else◌, ◌==◌, ltb, returned, default}
use sonic_chain.State.{new_data}
use sonic_chain.Runtime.{logic_failure}
use sonic_chain.Runtime.Storage.{key_for}
use sonic_chain.Runtime.Sequential
use sonic_chain.Runtime.Sequential.{RuntimeState}
use sonic_chain.Runtime.View.{stored}
use sonic_chain.Balances.Account.{account_balance_default, reserve, unreserve}
use sonic_chain.Staking.{balances, ledger_of, tx_bond, tx_unbond}
use sonic_chain.Staking.Ledger.{ledger_default, ledger_eq}
use sonic_chain.Staking.Bond.{bonding, ledger_in, tx_bond_lem}
use sonic_chain.Staking.Unbond.{ledger_before, unbonding, tx_unbond_lem}
use sonic_chain.Staking.Issuance.{tx_bond-issuance, tx_unbond-issuance}
use sonic_chain.Balances.Issuance.{issuance}
use sonic_chain.Base.HashMap
use sonic_chain.Runtime.Frame.{state_value}
use sonic_chain.Primitives.{balance_limit}
use sonic_chain.Tests.Fixtures.{codecs, balance_codec, genesis, alice, bob}

tx_bond_lem_example : Sequential.dispatch 0 (tx_bond codecs alice 40 bob) genesis ≡ (
    if ledger_in codecs 0 alice 40 genesis genesis == default
    then bonding codecs 0 alice 40 genesis bob (reserve (stored (balances codecs) genesis alice) 40)
    else (returned (logic_failure "Already bonded."), genesis))
tx_bond_lem_example = tx_bond_lem codecs 0 alice 40 genesis bob

-- Alice has 60 free and 40 bonded, with Bob as her controller.
abbrev staked : RuntimeState
staked =
    (key_for (balances codecs) alice, new_data (60 ∷ 40 ∷ []))
    ∷ (key_for (ledger_of codecs) alice, new_data (40 ∷ 2 ∷ bob))
    ∷ []

tx_unbond_lem_example : Sequential.dispatch 0 (tx_unbond codecs alice 15) staked ≡ (
    if ledger_before codecs 0 alice 15 staked == default
    then (returned (logic_failure "Not bonded."), staked)
    else if ltb (ledger_before codecs 0 alice 15 staked).value 15
    then (returned (logic_failure "Too much unbonding."), staked)
    else unbonding codecs 0 alice 15 staked (unreserve (stored (balances codecs) staked alice) 15))
tx_unbond_lem_example = tx_unbond_lem codecs 0 alice 15 staked

staked_holding : issuance balance_codec staked (alice ∷ []) ≡ 100
unfolding issuance stored state_value key_for HashMap.get
staked_holding = refl

genesis_holding : issuance balance_codec genesis (alice ∷ []) ≡ 100
unfolding issuance stored state_value key_for HashMap.get
genesis_holding = refl

staked_bounded : issuance balance_codec staked (alice ∷ []) < balance_limit
staked_bounded = omega (arith, staked_holding)

genesis_bounded : issuance balance_codec genesis (alice ∷ []) < balance_limit
genesis_bounded = omega (arith, genesis_holding)

tx_bond-issuance_example :
    issuance balance_codec
      (Sequential.dispatch 0 (tx_bond codecs alice 40 bob) genesis).1
      (alice ∷ [])
    ≡ issuance balance_codec genesis (alice ∷ [])
tx_bond-issuance_example =
    tx_bond-issuance codecs 0 alice 40 genesis (alice ∷ []) (omega arith) genesis_bounded bob

tx_unbond-issuance_example :
    issuance balance_codec (Sequential.dispatch 0 (tx_unbond codecs alice 15) staked).1 (alice ∷ [])
    ≡ issuance balance_codec staked (alice ∷ [])
tx_unbond-issuance_example =
    tx_unbond-issuance codecs 0 alice 15 staked (alice ∷ []) (omega arith) staked_bounded
