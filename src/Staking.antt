-- ===== src/Staking.antt =====
-- runtime/src/staking.rs: stakers bond funds, appoint a controller, and validate, nominate or chill.
pub mod Ledger
pub mod Discipline
pub mod Checks
pub mod Bond
pub mod Unbond
pub mod Issuance
use sonic_chain.Base.{
  ℕ, ◌+◌, ◌-◌, ◌≡◌, refl, Bool, true, false, not, ◌&&◌, Option, none, some, arith, leb, ltb, ◌==◌,
  if◌then◌else◌, Eq, Default, default, Result, ok, err, String, List, [], ◌∷◌, bytes_eq,
}
use sonic_chain.Primitives.{Key, AccountId, Balance, add_balance, default_account}
use sonic_chain.Runtime.{
  Prog, done, fail, abort, ◌>>=◌, ◌>>◌, or_forward, or_orphan, expect, logic_error,
}
use sonic_chain.Runtime.Storage
use sonic_chain.Runtime.Storage.{Codec, StorageMap, key_for}
use sonic_chain.Balances.{balance_of}
use sonic_chain.Balances.Account.{AccountBalance, account_balance_default, reserve, unreserve}
use Ledger.{
  StakingRole, validator, nominator, chilled, StakingLedger, ledger_default, account_default,
  accounts_default, ledger_eq, is_nominator,
}

-- What the code uses of the codecs of its stored types.
pub record Codecs : Type 0 where
  pub balance : Codec AccountBalance
  pub staking_ledger : Codec StakingLedger
  pub account : Codec AccountId
  pub accounts : Codec (List AccountId)

-- `.map_err(|err| DispatchError::LogicError(err))?`
abbrev pub or_logic_error : {A : Type 0} → Result String A → Prog A
or_logic_error (ok a) = done a
or_logic_error (err why) = fail (logic_error why)

-- `if test { return Err(LogicError(why)) }`
abbrev pub error_if : Bool → String → Prog Unit
error_if true why = fail (logic_error why)
error_if false why = done tt

abbrev pub panic_if : Bool → Prog Unit
panic_if true = abort
panic_if false = done tt

module _ (c : Codecs) where
  abbrev pub balances : StorageMap AccountBalance
  balances = balance_of c.balance

  abbrev pub ledger_of : StorageMap StakingLedger
  ledger_of = record {
    module_name = "staking";
    storage_name = "ledger_of";
    codec = c.staking_ledger;
  }

  abbrev pub bonded : StorageMap AccountId
  bonded = record { module_name = "staking"; storage_name = "bonded"; codec = c.account }

  abbrev pub nominations : StorageMap (List AccountId)
  nominations = record { module_name = "staking"; storage_name = "nominations"; codec = c.accounts }

  unfoldable pub tx_bond : AccountId → Balance → AccountId → Prog Unit
  tx_bond stash amount controller = do
    known ← Storage.exists ledger_of stash
    already ← or_forward known
    error_if already "Already bonded."
    found ← Storage.read balances stash
    stash_balance ← or_orphan found
    reserved ← or_logic_error (reserve stash_balance amount)
    stored ← Storage.write balances stash reserved
    expect stored
    paired ← Storage.write bonded controller stash
    or_orphan paired
    entered ←
        Storage.write ledger_of stash
          (record { value = amount; controller = controller; role = chilled })
    expect entered

  unfoldable pub tx_bond_extra : AccountId → Balance → Prog Unit
  tx_bond_extra stash amount = do
    found ← Storage.read ledger_of stash
    ledger ← or_forward found
    error_if (ledger == default) "Not bonded."
    held ← Storage.read balances stash
    balance ← or_orphan held
    reserved ← or_logic_error (reserve balance amount)
    stored ← Storage.write balances stash reserved
    expect stored
    entered ←
        Storage.write ledger_of stash (record ledger { value = add_balance ledger.value amount })
    expect entered

  -- The closure that `tx_unbond` hands to `mutate` panics if too little is reserved.
  abbrev pub unreserve_or_panic : AccountId → Result String AccountBalance → Prog Unit
  unreserve_or_panic stash (err why) = abort
  unreserve_or_panic stash (ok balance) = do
    stored ← Storage.write balances stash balance
    or_orphan stored

  unfoldable pub tx_unbond : AccountId → Balance → Prog Unit
  tx_unbond stash amount = do
    found ← Storage.read ledger_of stash
    ledger ← or_forward found
    error_if (ledger == default) "Not bonded."
    error_if (ltb ledger.value amount) "Too much unbonding."
    entered ← Storage.write ledger_of stash (record ledger { value = ledger.value - amount })
    expect entered
    held ← Storage.read balances stash
    balance ← or_orphan held
    unreserve_or_panic stash (unreserve balance amount)

  abbrev replace_controller : AccountId → AccountId → StakingLedger → Bool → Prog Unit
  replace_controller stash ctrl ledger true = done tt
  replace_controller stash ctrl ledger false = do
    cleared ← Storage.clear bonded ledger.controller
    or_forward cleared
    paired ← Storage.write bonded ctrl stash
    or_orphan paired
    entered ← Storage.write ledger_of stash (record ledger { controller = ctrl })
    expect entered

  unfoldable pub tx_set_controller : AccountId → AccountId → Prog Unit
  tx_set_controller stash ctrl = do
    found ← Storage.read ledger_of stash
    ledger ← or_forward found
    error_if (ledger == default) "Not bonded."
    replace_controller stash ctrl ledger (ledger.controller == ctrl)

  unfoldable pub tx_validate : AccountId → Prog Unit
  tx_validate ctrl = do
    found ← Storage.read bonded ctrl
    stash ← or_forward found
    error_if (stash == default) "Not bonded."
    entry ← Storage.read ledger_of stash
    ledger ← or_orphan entry
    panic_if (ledger == default)
    entered ← Storage.write ledger_of stash (record ledger { role = validator })
    expect entered

  unfoldable pub tx_nominate : AccountId → List AccountId → Prog Unit
  tx_nominate ctrl targets = do
    found ← Storage.read bonded ctrl
    stash ← or_forward found
    error_if (stash == default) "Not bonded."
    entry ← Storage.read ledger_of stash
    ledger ← or_orphan entry
    panic_if (ledger == default)
    named ← Storage.write nominations stash targets
    or_orphan named
    entered ← Storage.write ledger_of stash (record ledger { role = nominator })
    expect entered

  abbrev clear_nominations : AccountId → Bool → Prog Unit
  clear_nominations stash false = done tt
  clear_nominations stash true = do cleared ← Storage.clear nominations stash; or_orphan cleared

  unfoldable pub tx_chill : AccountId → Prog Unit
  tx_chill ctrl = do
    found ← Storage.read bonded ctrl
    stash ← or_forward found
    error_if (stash == default) "Not bonded."
    entry ← Storage.read ledger_of stash
    ledger ← or_orphan entry
    panic_if (ledger == default)
    clear_nominations stash (is_nominator ledger.role)
    entered ← Storage.write ledger_of stash (record ledger { role = chilled })
    expect entered
