-- ===== src/Runtime/StorageValue.antt =====
-- runtime/src/macros.rs, `decl_storage_value`: one value in storage, by its name and its codec.
use sonic_chain.Base.{
  ◌≡◌, ◌∷◌, ◌++◌, Result, ok, err, Default, default, String, returned, Outcome, ap, ◌∙◌, ==_refl,
  bytes_eq, nat_eq,
}
use sonic_chain.State.{unsafe_insert_genesis_value}
use sonic_chain.Primitives.{Key, Value, ThreadId}
use sonic_chain.Runtime
use sonic_chain.Runtime.{Prog, done, ◌>>=◌, run, DispatchError}
use sonic_chain.Runtime.Storage.{Codec, as_bytes, unwrap_or_default}
use sonic_chain.Runtime.Sequential
use sonic_chain.Runtime.Sequential.{RuntimeState, sequential_runtime}
use sonic_chain.Runtime.Frame.{state_value, state_value-insert}

pub record StorageValue (V : Type 0) ⦃d : Default V⦄ : Type 0 where
  pub module_name : String
  pub storage_name : String
  pub codec : Codec V

module _ {V : Type 0} ⦃d : Default V⦄ (value : StorageValue V) where
  -- "{MODULE}:{storage_name}"
  unfoldable pub key : Key
  key = as_bytes value.module_name ++ (b':' ∷ as_bytes value.storage_name)

  abbrev pub write : V → Prog (Result ThreadId Unit)
  write val = Runtime.write key (value.codec.encode val) done

  abbrev decoded_result : Result ThreadId Value → Prog (Result ThreadId V)
  decoded_result (ok bytes) = done (ok (unwrap_or_default (value.codec.decode bytes)))
  decoded_result (err t) = done (err t)

  abbrev pub read : Prog (Result ThreadId V)
  read = Runtime.read key decoded_result

  abbrev mutate_result : (V → V) → Result ThreadId V → Prog (Result ThreadId Unit)
  mutate_result update (ok old) = write (update old)
  mutate_result update (err t) = done (err t)

  abbrev pub mutate : (V → V) → Prog (Result ThreadId Unit)
  mutate update = read >>= mutate_result update

  abbrev pub clear : Prog (Result ThreadId Unit)
  clear = write default

  module _ (id : ThreadId) (m : RuntimeState) where
    unfoldable read_after : Prog (Result ThreadId Unit) → Outcome DispatchError (Result ThreadId V)
    unfolding run Sequential.read Sequential.write
    read_after code = (run (sequential_runtime id) (code >>= λ w. read) m).0

    -- The key has the bytes that were written.
    written : (bytes : Value) → state_value (unsafe_insert_genesis_value key bytes m) key ≡ bytes
    unfolding unsafe_insert_genesis_value
    written bytes = rw (state_value-insert, ==_refl key)

    -- On a sequential runtime, the value that was written is read back.
    read_after-write : (v : V) → read_after (write v) ≡ returned (ok v)
    unfolding read_after run Sequential.read Sequential.write state_value
    read_after-write v =
        ap (λ bytes. returned (ok (unwrap_or_default (value.codec.decode bytes))))
          (written (value.codec.encode v))
        ∙ ap (λ found. returned (ok (unwrap_or_default found))) (value.codec.decode-encode v)
