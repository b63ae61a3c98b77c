-- ===== src/Runtime/Storage.antt =====
-- runtime/src/macros.rs, `decl_storage_map`: a map in storage, by its name and the codec of its values.
-- `parity_scale_codec` is not part of the source: a `Codec` is what the code uses of it.
use Prim.Native.Char.{code}
use sonic_chain.Base.{
  ◌≡◌, Bool, not, ℕ, List, [], ◌∷◌, ◌++◌, Option, none, some, Result, ok, err, Eq, ◌==◌, Default,
  default, String,
}
use sonic_chain.Primitives.{Key, Value, ThreadId, AccountId, encode_account}
use sonic_chain.Runtime
use sonic_chain.Runtime.{Prog, done, ◌>>=◌}

abbrev pub unwrap_or_default : {V : Type 0} ⦃d : Default V⦄ → Option V → V
unwrap_or_default none = default
unwrap_or_default (some v) = v

-- Decoding takes back what was encoded, and what decodes from no bytes counts as the default.
pub record Codec (V : Type 0) ⦃d : Default V⦄ : Type 0 where
  pub encode : V → Value
  pub decode : Value → Option V
  pub decode-encode : (v : V) → decode (encode v) ≡ some v
  pub decode-nil : unwrap_or_default (decode []) ≡ default

pub record StorageMap (V : Type 0) ⦃d : Default V⦄ : Type 0 where
  pub module_name : String
  pub storage_name : String
  pub codec : Codec V

-- `as_bytes` of an ASCII text.
abbrev pub as_bytes : String → List ℕ
as_bytes String.[] = []
as_bytes (String.◌∷◌ c s) = code c ∷ as_bytes s

module _ {V : Type 0} ⦃d : Default V⦄ (map : StorageMap V) where
  -- "{MODULE}:{storage_name}", then the bytes of the account.
  unfoldable pub key_for : AccountId → Key
  key_for key =
      as_bytes map.module_name ++ (b':' ∷ (as_bytes map.storage_name ++ encode_account key))

  -- What the typed reader makes of the raw value.
  abbrev pub decoded : Value → V
  decoded bytes = unwrap_or_default (map.codec.decode bytes)

  abbrev decoded_result : Result ThreadId Value → Prog (Result ThreadId V)
  decoded_result (ok bytes) = done (ok (decoded bytes))
  decoded_result (err t) = done (err t)

  abbrev pub read : AccountId → Prog (Result ThreadId V)
  read key = Runtime.read (key_for key) decoded_result

  abbrev pub write : AccountId → V → Prog (Result ThreadId Unit)
  write key val = Runtime.write (key_for key) (map.codec.encode val) done

  abbrev mutate_result : AccountId → (V → V) → Result ThreadId V → Prog (Result ThreadId Unit)
  mutate_result key update (ok old) = write key (update old)
  mutate_result key update (err t) = done (err t)

  abbrev pub mutate : AccountId → (V → V) → Prog (Result ThreadId Unit)
  mutate key update = read key >>= mutate_result key update

  abbrev pub clear : AccountId → Prog (Result ThreadId Unit)
  clear key = write key default

  abbrev exists_result : ⦃e : Eq V⦄ → Result ThreadId V → Prog (Result ThreadId Bool)
  exists_result (ok val) = done (ok (not (val == default)))
  exists_result (err t) = done (err t)

  abbrev pub exists : ⦃e : Eq V⦄ → AccountId → Prog (Result ThreadId Bool)
  exists key = read key >>= exists_result
