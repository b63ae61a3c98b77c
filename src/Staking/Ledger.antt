-- ===== src/Staking/Ledger.antt =====
-- runtime/src/staking.rs: roles and ledgers.
use sonic_chain.Base.{
  ◌≡◌, Bool, true, false, ◌&&◌, arith, ◌==ℕ◌, ==ℕ_iff, Eq, Default, ◌↔◌, List, [], bytes_beq,
  bytes_beq_iff,
}
use sonic_chain.Primitives.{AccountId, Balance, default_account}

pub data StakingRole : Type 0 where
  validator nominator chilled : StakingRole

abbrev pub is_nominator : StakingRole → Bool
is_nominator nominator = true
is_nominator _ = false

abbrev pub role_beq : StakingRole → StakingRole → Bool
role_beq validator validator = true
role_beq nominator nominator = true
role_beq chilled chilled = true
role_beq _ _ = false

pub role_beq_iff : (a b : StakingRole) → (role_beq a b ≡ true) ↔ (a ≡ b)
role_beq_iff a b = ground arith

pub record StakingLedger : Type 0 where
  pub value : Balance
  pub controller : AccountId
  pub role : StakingRole

instance abbrev pub account_default : Default AccountId
account_default = record { default = default_account }

instance abbrev pub accounts_default : Default (List AccountId)
accounts_default = record { default = [] }

instance abbrev pub ledger_default : Default StakingLedger
ledger_default = record {
  default = record { value = 0; controller = default_account; role = chilled };
}

abbrev pub ledger_beq : StakingLedger → StakingLedger → Bool
ledger_beq a b =
    (a.value ==ℕ b.value) && (bytes_beq a.controller b.controller && role_beq a.role b.role)

pub ledger_beq_iff : (a b : StakingLedger) → (ledger_beq a b ≡ true) ↔ (a ≡ b)
ledger_beq_iff a b = ground (
  arith,
  bytes_beq_iff a.controller b.controller,
  role_beq_iff a.role b.role,
  ==ℕ_iff a.value b.value,
)

instance abbrev pub ledger_eq : Eq StakingLedger
ledger_eq = record { beq = ledger_beq; beq_iff = ledger_beq_iff }
