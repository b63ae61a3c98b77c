-- ===== src/Balances.antt =====
-- runtime/src/balances.rs: account balances, and the transfer of funds. Sums of balances wrap at 2 ^ 128,
-- as in a release build; a debug build panics there.
pub mod Account
pub mod Discipline
pub mod Transfer
pub mod Issuance
pub mod Missing
use sonic_chain.Base.{
  ℕ, ◌+◌, ◌-◌, ◌≡◌, refl, Bool, true, false, ◌&&◌, Option, none, some, arith, leb, ◌==ℕ◌,
  if◌then◌else◌, Eq, Default, default, Result, ok, err, String, List, [], ◌∷◌,
}
use sonic_chain.Primitives.{Key, AccountId, Balance, add_balance}
use sonic_chain.Runtime.{Prog, done, fail, ◌>>=◌, ◌>>◌, or_forward, or_orphan, expect, logic_error}
use sonic_chain.Runtime.Storage
use sonic_chain.Runtime.Storage.{Codec, StorageMap, key_for}
use Account.{AccountBalance, account_balance_default, free_of}

-- `u128::checked_sub`: nothing if it would go below zero.
abbrev pub checked_sub : Balance → Balance → Option Balance
checked_sub a b = if leb b a then some (a - b) else none

module _ (codec : Codec AccountBalance) where
  -- `decl_storage_map!(BalanceOf, "balance_of", ...)`
  abbrev pub balance_of : StorageMap AccountBalance
  balance_of = record { module_name = "balances"; storage_name = "balance_of"; codec = codec }

  abbrev pay : AccountId → AccountId → Balance → AccountBalance → Option Balance → Prog Unit
  pay origin dest value old_balance none = fail (logic_error "Does not have enough funds.")
  pay origin dest value old_balance (some remaining) = do
    written ← Storage.write balance_of origin (record old_balance { free = remaining })
    expect written
    updated ←
        Storage.mutate balance_of dest (λ old. record old { free = add_balance old.free value })
    or_orphan updated

  -- `transfer`
  unfoldable pub transfer : AccountId → AccountId → Balance → Prog Unit
  transfer origin dest value = do
    found ← Storage.read balance_of origin
    old_balance ← or_forward found
    pay origin dest value old_balance (checked_sub old_balance.free value)

  -- The keys that `#[access]` names for a transfer.
  unfoldable pub transfer_access : AccountId → AccountId → List Key
  transfer_access origin dest = key_for balance_of origin ∷ key_for balance_of dest ∷ []
