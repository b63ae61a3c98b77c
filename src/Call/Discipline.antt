-- ===== src/Call/Discipline.antt =====
-- Every call of the runtime uses its storage with discipline, so the two runtimes agree on it.
use sonic_chain.Base.{[]}
use sonic_chain.Primitives.{AccountId}
use sonic_chain.Runtime.Discipline.{IsDisciplined, ChecksFirst}
use sonic_chain.Balances.Discipline.{transfer-IsDisciplined, transfer-ChecksFirst}
use sonic_chain.Staking.{Codecs}
use sonic_chain.Staking.Discipline.{
  tx_bond-IsDisciplined, tx_bond_extra-IsDisciplined, tx_unbond-IsDisciplined,
  tx_set_controller-IsDisciplined, tx_validate-IsDisciplined, tx_nominate-IsDisciplined,
  tx_chill-IsDisciplined,
}
use sonic_chain.Staking.Checks.{
  tx_bond-ChecksFirst, tx_bond_extra-ChecksFirst, tx_unbond-ChecksFirst,
  tx_set_controller-ChecksFirst, tx_validate-ChecksFirst, tx_nominate-ChecksFirst,
  tx_chill-ChecksFirst,
}
use sonic_chain.Call.{
  OuterCall, balances_call, staking_call, transfer_call, bond, bond_extra, unbond, set_controller,
  validate_call, nominate, chill, body,
}

module _ (c : Codecs) where
  -- Every call ends as tainted on a refused access, unless the access is a write to a key that the
  -- call has used before, and it ends as tainted for no other reason.
  pub body-IsDisciplined :
      (call : OuterCall) (origin : AccountId) → IsDisciplined [] (body c call origin)
  unfolding body
  body-IsDisciplined (balances_call (transfer_call dest value)) origin =
      transfer-IsDisciplined c.balance origin dest value
  body-IsDisciplined (staking_call (bond amount ctrl)) origin =
      tx_bond-IsDisciplined c origin amount ctrl
  body-IsDisciplined (staking_call (bond_extra amount)) origin =
      tx_bond_extra-IsDisciplined c origin amount
  body-IsDisciplined (staking_call (unbond amount)) origin = tx_unbond-IsDisciplined c origin amount
  body-IsDisciplined (staking_call (set_controller ctrl)) origin =
      tx_set_controller-IsDisciplined c origin ctrl
  body-IsDisciplined (staking_call validate_call) origin = tx_validate-IsDisciplined c origin
  body-IsDisciplined (staking_call (nominate targets)) origin =
      tx_nominate-IsDisciplined c origin targets
  body-IsDisciplined (staking_call chill) origin = tx_chill-IsDisciplined c origin

  -- Every call finds its logical errors before its first write.
  pub body-ChecksFirst : (call : OuterCall) (origin : AccountId) → ChecksFirst (body c call origin)
  unfolding body
  body-ChecksFirst (balances_call (transfer_call dest value)) origin =
      transfer-ChecksFirst c.balance origin dest value
  body-ChecksFirst (staking_call (bond amount ctrl)) origin =
      tx_bond-ChecksFirst c origin amount ctrl
  body-ChecksFirst (staking_call (bond_extra amount)) origin =
      tx_bond_extra-ChecksFirst c origin amount
  body-ChecksFirst (staking_call (unbond amount)) origin = tx_unbond-ChecksFirst c origin amount
  body-ChecksFirst (staking_call (set_controller ctrl)) origin =
      tx_set_controller-ChecksFirst c origin ctrl
  body-ChecksFirst (staking_call validate_call) origin = tx_validate-ChecksFirst c origin
  body-ChecksFirst (staking_call (nominate targets)) origin =
      tx_nominate-ChecksFirst c origin targets
  body-ChecksFirst (staking_call chill) origin = tx_chill-ChecksFirst c origin
