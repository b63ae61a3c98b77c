-- ===== src/Primitives/Crypto.antt =====
-- primitives/src/crypto.rs: the codec of `Public`. Two things that it uses are not part of the source
-- and are arguments: what parity_scale_codec reads from (`Input`), and whether ed25519_dalek takes 32
-- bytes for a key (`from_bytes`).
use sonic_chain.Base.{
  ℕ, zero, suc, ◌≡◌, ap, sym, ◌∙◌, List, [], ◌∷◌, ◌++◌, Option, none, some, Outcome, returned,
  failed, panicked, length, Result, ok, err, ◌<◌,
}
use sonic_chain.Primitives.{AccountId, Value, default_account, encode_account}

-- `codec::Input`: the number of bytes that are left, if it is known, and the next `n` bytes with what is
-- left after them.
pub record Input (I : Type 0) : Type 0 where
  pub remaining_len : I → Result Unit (Option ℕ)
  pub read : ℕ → I → Option (List ℕ × I)

abbrev pub public_key_length : ℕ
public_key_length = 32

module _ {I : Type 0} (input : Input I) (from_bytes : List ℕ → Option AccountId) where
  abbrev checked_key : I → Option AccountId → Outcome Unit (AccountId × I)
  checked_key value none = failed tt
  checked_key value (some a) = returned (a, value)

  -- The `expect` on the read of the buffer.
  abbrev expected_bytes : Option (List ℕ × I) → Outcome Unit (AccountId × I)
  expected_bytes none = panicked
  expected_bytes (some (bytes, value)) = checked_key value (from_bytes bytes)

  -- The `expect` on the length, where an unknown length counts as zero.
  abbrev expected_len : I → Result Unit (Option ℕ) → Outcome Unit (AccountId × I)
  expected_len value (err e) = panicked
  expected_len value (ok none) = returned (default_account, value)
  expected_len value (ok (some zero)) = returned (default_account, value)
  expected_len value (ok (some (suc n))) = expected_bytes (input.read public_key_length value)

  -- `Public::decode`
  unfoldable pub decode : I → Outcome Unit (AccountId × I)
  decode value = expected_len value (input.remaining_len value)

-- What a slice of bytes is as an input.
pub record IsSlice (input : Input Value) : Type 0 where
  pub len : (value : Value) → input.remaining_len value ≡ ok (some (length value))
  pub enough :
      (bytes rest : List ℕ) → input.read (length bytes) (bytes ++ rest) ≡ some (bytes, rest)
  pub short : (n : ℕ) (value : Value) → length value < n → input.read n value ≡ none

module _ (input : Input Value) (slice : IsSlice input)
    (from_bytes : List ℕ → Option AccountId) where
  decode_key :
      (a : AccountId) (rest : Value)
      → length a ≡ public_key_length
      → from_bytes a ≡ some a
      → decode input from_bytes (encode_account a ++ rest) ≡ returned (a, rest)
  unfolding decode
  decode_key [] rest n h = cc
  decode_key (b ∷ a) rest n h =
      ap (expected_len input from_bytes (b ∷ (a ++ rest))) (slice.len (b ∷ (a ++ rest)))
      ∙ ap (λ k. expected_bytes input from_bytes (input.read k (b ∷ (a ++ rest)))) (sym n)
      ∙ ap (expected_bytes input from_bytes) (slice.enough (b ∷ a) rest)
      ∙ ap (checked_key input from_bytes rest) h

  decode_short :
      (b : ℕ) (value : Value)
      → length (b ∷ value) < public_key_length
      → decode input from_bytes (b ∷ value) ≡ panicked
  unfolding decode
  decode_short b value l =
      ap (expected_len input from_bytes (b ∷ value)) (slice.len (b ∷ value))
      ∙ ap (expected_bytes input from_bytes) (slice.short public_key_length (b ∷ value) l)

  decode_nil : decode input from_bytes [] ≡ returned (default_account, [])
  unfolding decode
  decode_nil = ap (expected_len input from_bytes []) (slice.len [])

  -- On a slice of bytes, `Public::decode` takes an account of 32 bytes that is a key back from its
  -- encoding, and leaves what follows. On no bytes it gives the default account, and on some bytes that
  -- are fewer than 32 it panics.
  pub decode-encode_account :
      (a : AccountId) (rest : Value) (b : ℕ) (value : Value)
      → length a ≡ public_key_length
      → from_bytes a ≡ some a
      → length (b ∷ value) < public_key_length
      → (decode input from_bytes (encode_account a ++ rest) ≡ returned (a, rest))
        × (decode input from_bytes [] ≡ returned (default_account, []))
        × (decode input from_bytes (b ∷ value) ≡ panicked)
  decode-encode_account a rest b value n h l =
      (decode_key a rest n h, decode_nil, decode_short b value l)
