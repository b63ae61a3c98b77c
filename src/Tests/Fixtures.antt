-- ===== src/Tests/Fixtures.antt =====
-- Concrete codecs, states and transactions.
use sonic_chain.Base.{
  ℕ, zero, suc, ◌≡◌, refl, ap, ◌∙◌, Option, none, some, List, [], ◌∷◌, ◌++◌, map,
}
use sonic_chain.Primitives.{AccountId}
use sonic_chain.State.{new_data, new}
use sonic_chain.Runtime.Storage.{Codec, key_for}
use sonic_chain.Runtime.Sequential.{RuntimeState}
use sonic_chain.Balances.Account.{AccountBalance, account_balance_default}
use sonic_chain.Staking.{Codecs, balances}
use sonic_chain.Staking.Ledger.{
  StakingLedger, StakingRole, validator, nominator, chilled, ledger_default, account_default,
  accounts_default,
}
use sonic_chain.Call.{OuterCall, balances_call, staking_call, transfer_call, bond}
use sonic_chain.Executor.Types.{Transaction}
use sonic_chain.Executor.Types

abbrev decode_balance : List ℕ → Option AccountBalance
decode_balance (free ∷ reserved ∷ []) = some (record { free = free; reserved = reserved })
decode_balance _ = none

abbrev pub balance_codec : Codec AccountBalance
balance_codec = record {
  encode = λ b. b.free ∷ b.reserved ∷ [];
  decode = decode_balance;
  decode-encode = λ v. refl;
  decode-nil = refl;
}

abbrev encode_role : StakingRole → ℕ
encode_role validator = 0
encode_role nominator = 1
encode_role chilled = 2

abbrev decode_role : ℕ → StakingRole
decode_role zero = validator
decode_role (suc zero) = nominator
decode_role _ = chilled

pub decode_role-encode_role : (r : StakingRole) → decode_role (encode_role r) ≡ r
decode_role-encode_role validator = refl
decode_role-encode_role nominator = refl
decode_role-encode_role chilled = refl

abbrev decode_ledger : List ℕ → Option StakingLedger
decode_ledger (value ∷ role ∷ controller) =
    some (record { value = value; controller = controller; role = decode_role role })
decode_ledger _ = none

abbrev ledger_codec : Codec StakingLedger
ledger_codec = record {
  encode = λ l. l.value ∷ encode_role l.role ∷ l.controller;
  decode = decode_ledger;
  decode-encode = λ l. rw decode_role-encode_role;
  decode-nil = refl;
}

abbrev decode_account : List ℕ → Option AccountId
decode_account [] = none
decode_account (n ∷ bytes) = some bytes

abbrev account_codec : Codec AccountId
account_codec = record {
  encode = λ a. 0 ∷ a;
  decode = decode_account;
  decode-encode = λ v. refl;
  decode-nil = refl;
}

abbrev encode_accounts : List AccountId → List ℕ
encode_accounts [] = []
encode_accounts (a ∷ accounts) = map suc a ++ (0 ∷ encode_accounts accounts)

abbrev push_byte : ℕ → List AccountId → List AccountId
push_byte n [] = (n ∷ []) ∷ []
push_byte n (a ∷ accounts) = (n ∷ a) ∷ accounts

abbrev read_accounts : List ℕ → List AccountId
read_accounts [] = []
read_accounts (zero ∷ bytes) = [] ∷ read_accounts bytes
read_accounts (suc n ∷ bytes) = push_byte n (read_accounts bytes)

pub read_accounts_append :
    (a : AccountId) (bytes : List ℕ)
    → read_accounts (map suc a ++ (0 ∷ bytes)) ≡ a ∷ read_accounts bytes
read_accounts_append [] bytes = refl
read_accounts_append (x ∷ a) bytes = rw (read_accounts_append a bytes)

pub read_accounts-encode_accounts :
    (accounts : List AccountId) → read_accounts (encode_accounts accounts) ≡ accounts
read_accounts-encode_accounts [] = refl
read_accounts-encode_accounts (a ∷ accounts) =
    read_accounts_append a (encode_accounts accounts)
    ∙ ap (λ x. a ∷ x) (read_accounts-encode_accounts accounts)

abbrev accounts_codec : Codec (List AccountId)
accounts_codec = record {
  encode = encode_accounts;
  decode = λ bytes. some (read_accounts bytes);
  decode-encode = λ v. ap some (read_accounts-encode_accounts v);
  decode-nil = refl;
}

abbrev pub codecs : Codecs
codecs = record {
  balance = balance_codec;
  staking_ledger = ledger_codec;
  account = account_codec;
  accounts = accounts_codec;
}

abbrev pub alice : AccountId
alice = 1 ∷ []

abbrev pub bob : AccountId
bob = 2 ∷ []

abbrev pub carol : AccountId
carol = 3 ∷ []

-- Alice has 100, Carol has 50, and nobody owns a key.
abbrev pub genesis : RuntimeState
genesis =
    (key_for (balances codecs) alice, new_data (100 ∷ 0 ∷ []))
    ∷ (key_for (balances codecs) carol, new_data (50 ∷ 0 ∷ []))
    ∷ []

-- The same, but Alice's key is owned by thread 2.
abbrev pub contended : RuntimeState
contended =
    (key_for (balances codecs) alice, new (100 ∷ 0 ∷ []) 2)
    ∷ (key_for (balances codecs) carol, new_data (50 ∷ 0 ∷ []))
    ∷ []

abbrev pub alice_pays : OuterCall
alice_pays = balances_call (transfer_call bob 30)

abbrev pub carol_pays : OuterCall
carol_pays = balances_call (transfer_call (4 ∷ []) 5)

abbrev pub bob_bonds : OuterCall
bob_bonds = staking_call (bond 10 carol)

abbrev pub tx_alice : Transaction
tx_alice = Types.new 1 alice_pays alice []

abbrev pub tx_carol : Transaction
tx_carol = Types.new 2 carol_pays carol []

abbrev pub tx_bob : Transaction
tx_bob = Types.new 3 bob_bonds bob []
