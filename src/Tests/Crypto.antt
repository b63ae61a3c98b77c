-- ===== src/Tests/Crypto.antt =====
-- The codec of accounts at concrete inputs.
use sonic_chain.Base.{
  ℕ, zero, suc, ◌≡◌, refl, ap, arith, List, [], ◌∷◌, ◌++◌, Option, none, some, ok, returned,
  panicked, length, ◌<◌,
}
use sonic_chain.Primitives.{Value, encode_account, default_account}
use sonic_chain.Primitives.Crypto
use sonic_chain.Primitives.Crypto.{Input, IsSlice, decode-encode_account}

-- A slice of bytes, read from its front.
abbrev more_bytes : ℕ → Option (List ℕ × Value) → Option (List ℕ × Value)
more_bytes b none = none
more_bytes b (some (bytes, value)) = some (b ∷ bytes, value)

abbrev read_slice : ℕ → Value → Option (List ℕ × Value)
read_slice zero value = some ([], value)
read_slice (suc n) [] = none
read_slice (suc n) (b ∷ value) = more_bytes b (read_slice n value)

abbrev slice_input : Input Value
slice_input = record { remaining_len = λ value. ok (some (length value)); read = read_slice }

read_slice-append :
    (bytes rest : List ℕ) → read_slice (length bytes) (bytes ++ rest) ≡ some (bytes, rest)
read_slice-append [] rest = refl
read_slice-append (b ∷ bytes) rest = ap (more_bytes b) (read_slice-append bytes rest)

read_slice_of_fewer : (n : ℕ) (value : Value) → length value < n → read_slice n value ≡ none
read_slice_of_fewer zero value l = absurd (omega (arith, l))
read_slice_of_fewer (suc n) [] l = refl
read_slice_of_fewer (suc n) (b ∷ value) l =
    ap (more_bytes b) (read_slice_of_fewer n value (omega (arith, l)))

slice_input-IsSlice : IsSlice slice_input
slice_input-IsSlice = record {
  len = λ value. refl;
  enough = read_slice-append;
  short = read_slice_of_fewer;
}

-- The key of the default account with two bytes of something else, and two bytes alone.
decode-encode_account_example :
    (Crypto.decode slice_input some (encode_account default_account ++ (1 ∷ 2 ∷ []))
      ≡ returned (default_account, 1 ∷ 2 ∷ []))
    × (Crypto.decode slice_input some [] ≡ returned (default_account, []))
    × (Crypto.decode slice_input some (1 ∷ 2 ∷ []) ≡ panicked)
decode-encode_account_example =
    decode-encode_account slice_input slice_input-IsSlice some default_account (1 ∷ 2 ∷ []) 1
      (2 ∷ []) refl refl (omega arith)
