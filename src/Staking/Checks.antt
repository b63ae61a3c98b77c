-- ===== src/Staking/Checks.antt =====
-- runtime/src/staking.rs: the calls find every logical error before they write.
use sonic_chain.Base.{
  Bool, true, false, List, Result, ok, err, String, ◌==◌, ltb, not, default, bytes_eq,
}
use sonic_chain.Primitives.{AccountId, Balance}
use sonic_chain.Runtime.{Prog, ◌>>=◌, ◌>>◌, expect}
use sonic_chain.Runtime.Storage
use sonic_chain.Runtime.Storage.{decoded}
use sonic_chain.Runtime.Discipline.{ChecksFirst, IsCommitted}
use sonic_chain.Balances.Account.{AccountBalance, account_balance_default, reserve, unreserve}
use sonic_chain.Staking.{
  Codecs, or_logic_error, error_if, panic_if, balances, ledger_of, bonded, tx_bond, tx_bond_extra,
  tx_unbond, tx_set_controller, tx_validate, tx_nominate, tx_chill, unreserve_or_panic,
  replace_controller, clear_nominations,
}
use sonic_chain.Staking.Ledger.{
  StakingLedger, StakingRole, ledger_default, account_default, accounts_default, ledger_eq,
  is_nominator, chilled,
}
use sonic_chain.Staking.Discipline.{error_if-keeps, panic_if-keeps, or_logic_error-keeps}

error_checked :
    (b : Bool) (why : String) (rest : Prog Unit)
    → ChecksFirst rest
    → ChecksFirst (error_if b why >> rest)
error_checked = error_if-keeps ChecksFirst (λ e. tt) tt

panic_checked : (b : Bool) (rest : Prog Unit) → ChecksFirst rest → ChecksFirst (panic_if b >> rest)
panic_checked = panic_if-keeps ChecksFirst (λ e. tt) tt

logic_checked :
    (r : Result String AccountBalance) (rest : AccountBalance → Prog Unit)
    → ((a : AccountBalance) → ChecksFirst (rest a))
    → ChecksFirst (or_logic_error r >>= rest)
logic_checked = or_logic_error-keeps ChecksFirst (λ e. tt) tt

module _ (c : Codecs) where
  unreserve_or_panic-IsCommitted :
      (stash : AccountId) (r : Result String AccountBalance)
      → IsCommitted (unreserve_or_panic c stash r)
  unreserve_or_panic-IsCommitted stash (ok balance) = tt
  unreserve_or_panic-IsCommitted stash (err why) = tt

  replace_controller-ChecksFirst :
      (stash ctrl : AccountId) (ledger : StakingLedger) (b : Bool)
      → ChecksFirst (replace_controller c stash ctrl ledger b)
  replace_controller-ChecksFirst stash ctrl ledger true = tt
  replace_controller-ChecksFirst stash ctrl ledger false = tt

  clear_nominations-ChecksFirst :
      (stash : AccountId) (b : Bool) (role : StakingRole) (ledger : StakingLedger)
      → ChecksFirst (
          clear_nominations c stash b
          >> (Storage.write (ledger_of c) stash (record ledger { role = role }) >>= expect))
  clear_nominations-ChecksFirst stash false role ledger = tt
  clear_nominations-ChecksFirst stash true role ledger = tt

  pub tx_bond-ChecksFirst :
      (stash : AccountId) (amount : Balance) (controller : AccountId)
      → ChecksFirst (tx_bond c stash amount controller)
  unfolding tx_bond
  tx_bond-ChecksFirst stash amount controller v =
      error_checked (not (decoded (ledger_of c) v == default)) _ _
        λ w. logic_checked (reserve (decoded (balances c) w) amount) _ (λ a. tt)

  pub tx_bond_extra-ChecksFirst :
      (stash : AccountId) (amount : Balance) → ChecksFirst (tx_bond_extra c stash amount)
  unfolding tx_bond_extra
  tx_bond_extra-ChecksFirst stash amount v =
      error_checked (decoded (ledger_of c) v == default) _ _
        λ w. logic_checked (reserve (decoded (balances c) w) amount) _ (λ a. tt)

  pub tx_unbond-ChecksFirst :
      (stash : AccountId) (amount : Balance) → ChecksFirst (tx_unbond c stash amount)
  unfolding tx_unbond
  tx_unbond-ChecksFirst stash amount v = error_checked (decoded (ledger_of c) v == default) _ _ (
      error_checked (ltb (decoded (ledger_of c) v).value amount) _ _
        λ w. unreserve_or_panic-IsCommitted stash (unreserve (decoded (balances c) w) amount))

  pub tx_set_controller-ChecksFirst :
      (stash ctrl : AccountId) → ChecksFirst (tx_set_controller c stash ctrl)
  unfolding tx_set_controller
  tx_set_controller-ChecksFirst stash ctrl v =
      error_checked (decoded (ledger_of c) v == default) _ _ (
        replace_controller-ChecksFirst stash ctrl (decoded (ledger_of c) v)
          ((decoded (ledger_of c) v).controller == ctrl))

  pub tx_validate-ChecksFirst : (ctrl : AccountId) → ChecksFirst (tx_validate c ctrl)
  unfolding tx_validate
  tx_validate-ChecksFirst ctrl v =
      error_checked (decoded (bonded c) v == default) _ _
        λ w. panic_checked (decoded (ledger_of c) w == default) _ tt

  pub tx_nominate-ChecksFirst :
      (ctrl : AccountId) (targets : List AccountId) → ChecksFirst (tx_nominate c ctrl targets)
  unfolding tx_nominate
  tx_nominate-ChecksFirst ctrl targets v =
      error_checked (decoded (bonded c) v == default) _ _
        λ w. panic_checked (decoded (ledger_of c) w == default) _ tt

  pub tx_chill-ChecksFirst : (ctrl : AccountId) → ChecksFirst (tx_chill c ctrl)
  unfolding tx_chill
  tx_chill-ChecksFirst ctrl v = error_checked (decoded (bonded c) v == default) _ _ λ w.
      panic_checked (decoded (ledger_of c) w == default) _ (
        clear_nominations-ChecksFirst (decoded (bonded c) v)
          (is_nominator (decoded (ledger_of c) w).role) chilled (decoded (ledger_of c) w))
