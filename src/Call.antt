-- ===== src/Call.antt =====
-- runtime/src/macros.rs, `decl_outer_call` and `decl_tx`, as they expand in runtime/src/lib.rs,
-- balances.rs and staking.rs: the calls, what runs for each, and the keys that each names in advance.
pub mod Discipline
use sonic_chain.Base.{ℕ, List, [], ◌∷◌}
use sonic_chain.Primitives.{Key, AccountId, Balance}
use sonic_chain.Runtime.{Prog}
use sonic_chain.Runtime.Storage.{key_for}
use sonic_chain.Balances.{transfer, transfer_access}
use sonic_chain.Balances.Account.{account_balance_default}
use sonic_chain.Staking.Ledger.{ledger_default, account_default}
use sonic_chain.Staking.{
  Codecs, balances, ledger_of, bonded, tx_bond, tx_bond_extra, tx_unbond, tx_set_controller,
  tx_validate, tx_nominate, tx_chill,
}

pub data BalancesCall : Type 0 where
  transfer_call : AccountId → Balance → BalancesCall

pub data StakingCall : Type 0 where
  bond : Balance → AccountId → StakingCall
  bond_extra unbond : Balance → StakingCall
  set_controller : AccountId → StakingCall
  validate_call : StakingCall
  nominate : List AccountId → StakingCall
  chill : StakingCall

pub data OuterCall : Type 0 where
  balances_call : BalancesCall → OuterCall
  staking_call : StakingCall → OuterCall

module _ (c : Codecs) where
  dispatch_balances : BalancesCall → AccountId → Prog Unit
  dispatch_balances (transfer_call dest value) origin = transfer c.balance origin dest value

  dispatch_staking : StakingCall → AccountId → Prog Unit
  dispatch_staking (bond amount controller) origin = tx_bond c origin amount controller
  dispatch_staking (bond_extra amount) origin = tx_bond_extra c origin amount
  dispatch_staking (unbond amount) origin = tx_unbond c origin amount
  dispatch_staking (set_controller ctrl) origin = tx_set_controller c origin ctrl
  dispatch_staking validate_call origin = tx_validate c origin
  dispatch_staking (nominate targets) origin = tx_nominate c origin targets
  dispatch_staking chill origin = tx_chill c origin

  -- `<OuterCall as Dispatchable<R>>::dispatch`
  unfoldable pub body : OuterCall → AccountId → Prog Unit
  unfolding dispatch_balances dispatch_staking
  body (balances_call call) origin = dispatch_balances call origin
  body (staking_call call) origin = dispatch_staking call origin

  validate_balances : BalancesCall → AccountId → List Key
  validate_balances (transfer_call dest value) origin = transfer_access c.balance origin dest

  -- The `#[access]` attributes of the staking calls.
  validate_staking : StakingCall → AccountId → List Key
  validate_staking (bond amount controller) origin =
      key_for (balances c) origin
      ∷ key_for (ledger_of c) origin
      ∷ key_for (bonded c) controller
      ∷ []
  validate_staking (bond_extra amount) origin =
      key_for (balances c) origin ∷ key_for (ledger_of c) origin ∷ []
  validate_staking (unbond amount) origin =
      key_for (balances c) origin ∷ key_for (ledger_of c) origin ∷ []
  validate_staking (set_controller ctrl) origin =
      key_for (ledger_of c) origin ∷ key_for (bonded c) ctrl ∷ []
  validate_staking validate_call origin = key_for (bonded c) origin ∷ []
  validate_staking (nominate targets) origin = key_for (bonded c) origin ∷ []
  validate_staking chill origin = key_for (bonded c) origin ∷ []

  -- `<OuterCall as Dispatchable<R>>::validate`
  unfoldable pub validate : OuterCall → AccountId → List Key
  unfolding validate_balances validate_staking
  validate (balances_call call) origin = validate_balances call origin
  validate (staking_call call) origin = validate_staking call origin
