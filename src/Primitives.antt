-- ===== src/Primitives.antt =====
-- primitives/src/lib.rs and the `Public` of primitives/src/crypto.rs: the program's basic types.
pub mod Crypto
use sonic_chain.Base.{ℕ, ◌+◌, ◌%◌, ◌^◌, List, [], ◌∷◌, Default}

-- `StateKey` and `StateValue` are byte vectors.
abbrev pub Key : Type 0
Key = List ℕ

abbrev pub Value : Type 0
Value = List ℕ

instance abbrev pub value_default : Default Value
value_default = record { default = [] }

-- u64
abbrev pub ThreadId : Type 0
ThreadId = ℕ

-- A public key, by its 32 bytes.
abbrev pub AccountId : Type 0
AccountId = List ℕ

-- The public half of `crypto::DEFAULT`, its last 32 bytes.
abbrev pub default_account : AccountId
default_account =
    230 ∷ 54 ∷ 165 ∷ 51 ∷ 137 ∷ 245 ∷ 246 ∷ 79 ∷ 228 ∷ 163 ∷ 178 ∷ 217 ∷ 247 ∷ 22 ∷ 65 ∷ 138 ∷ 1
    ∷ 166 ∷ 141 ∷ 18 ∷ 205 ∷ 146 ∷ 98 ∷ 28 ∷ 91 ∷ 206 ∷ 190 ∷ 92 ∷ 192 ∷ 84 ∷ 42 ∷ 255 ∷ []

-- `Public::encode`: the bytes themselves.
abbrev pub encode_account : AccountId → List ℕ
encode_account a = a

-- u128
abbrev pub Balance : Type 0
Balance = ℕ

abbrev pub balance_limit : ℕ
balance_limit = 2 ^ 128

-- Addition of two `u128` in a release build.
unfoldable pub add_balance : Balance → Balance → Balance
add_balance a b = (a + b) % balance_limit
