-- ===== src/Runtime/View.antt =====
-- runtime/src/macros.rs over runtime/src/lib.rs: storage maps on a `SequentialRuntime`, as maps from
-- accounts to values.
use sonic_chain.Base.{
  ◌≡◌, ◌≢◌, refl, ap, false, List, [], ◌∷◌, ◌++◌, ◌==◌, if◌then◌else◌, Default, ℕ, Result, ok,
  Bool-cases, inl, inr, bytes_eq, nat_eq, bytes_beq, bytes_beq_iff, sym, ◌∙◌, Outcome, returned,
  default,
}
use sonic_chain.Primitives.{ThreadId, AccountId}
use sonic_chain.State.{unsafe_insert_genesis_value}
use sonic_chain.Runtime.{Prog, run, ◌>>=◌, DispatchError}
use sonic_chain.Runtime.Storage
use sonic_chain.Runtime.Storage.{StorageMap, Codec, key_for, decoded, unwrap_or_default, as_bytes}
use sonic_chain.Runtime.Sequential
use sonic_chain.Runtime.Sequential.{RuntimeState, sequential_runtime}
use sonic_chain.Runtime.Frame.{state_value, state_value-insert}

append-injective : (p a b : List ℕ) → p ++ a ≡ p ++ b → a ≡ b
append-injective [] a b h = h
append-injective (x ∷ p) a b h = append-injective p a b (cc)

ok-eq :
    {V : Type 0} {x y : V}
    → ◌≡◌ {A = Outcome DispatchError (Result ThreadId V)} (returned (ok x)) (returned (ok y))
    → x ≡ y
ok-eq h = cc

module _ {V : Type 0} ⦃d : Default V⦄ (map : StorageMap V) where
  -- The value of an account: `run-read` below has it that `Storage.read` gives it.
  unfoldable pub stored : RuntimeState → AccountId → V
  stored m a = decoded map (state_value m (key_for map a))

  -- The state with another value for an account: `run-write` has it that `Storage.write` leaves it.
  unfoldable pub store : AccountId → V → RuntimeState → RuntimeState
  store a v m = unsafe_insert_genesis_value (key_for map a) (map.codec.encode v) m

  -- In a storage map, accounts with the same key are the same.
  pub key_for-injective : (a b : AccountId) → key_for map a ≡ key_for map b → a ≡ b
  unfolding key_for
  key_for-injective a b h =
      append-injective (as_bytes map.storage_name) a b
        (tail_eq (append-injective (as_bytes map.module_name) _ _ h))
    where
      tail_eq : {x : ℕ} {xs ys : List ℕ} → x ∷ xs ≡ x ∷ ys → xs ≡ ys
      tail_eq h = cc

  -- Of the values of the accounts, `store` changes that of its own account alone.
  pub stored-store :
      (a b : AccountId) (v : V) (m : RuntimeState)
      → stored (store a v m) b ≡ (if a == b then v else stored m b)
  unfolding stored store unsafe_insert_genesis_value
  stored-store a b v m = elim (Bool-cases (bytes_beq a b)) [
    | inl e ↦
        let same : key_for map a ≡ key_for map b = ap (key_for map) ((bytes_beq_iff a b).0 e) in
        rw (
          state_value-insert,
          (bytes_beq_iff (key_for map a) (key_for map b)).1 same,
          map.codec.decode-encode v,
          e,
        )
    | inr e ↦ rw (state_value-insert, other_key e, e)
  ]
    where
      other_key : bytes_beq a b ≡ false → bytes_beq (key_for map a) (key_for map b) ≡ false
      other_key e = elim (Bool-cases (bytes_beq (key_for map a) (key_for map b))) [
        | inl q ↦ cc (
            (bytes_beq_iff a b).1
              (key_for-injective a b ((bytes_beq_iff (key_for map a) (key_for map b)).0 q)))
        | inr q ↦ q
      ]

  module _ {A : Type 0} (id : ThreadId) (a : AccountId) (m : RuntimeState) where
    pub run-read :
        (next : Result ThreadId V → Prog A)
        → run (sequential_runtime id) (Storage.read map a >>= next) m
          ≡ run (sequential_runtime id) (next (ok (stored m a))) m
    unfolding run Sequential.read stored state_value
    run-read next = refl

    pub run-write :
        (v : V) (next : Result ThreadId Unit → Prog A)
        → run (sequential_runtime id) (Storage.write map a v >>= next) m
          ≡ run (sequential_runtime id) (next (ok tt)) (store a v m)
    unfolding run Sequential.write store
    run-write v next = refl

  module _ (id : ThreadId) (m : RuntimeState) where
    -- What a read of the account gives, and what it gives after some other code.
    abbrev pub read_value : AccountId → Outcome DispatchError (Result ThreadId V)
    read_value b = (run (sequential_runtime id) (Storage.read map b) m).0

    abbrev pub read_after :
        Prog (Result ThreadId Unit) → AccountId → Outcome DispatchError (Result ThreadId V)
    read_after code b = (run (sequential_runtime id) (code >>= λ w. Storage.read map b) m).0

    read_after-write :
        (a b : AccountId) (v : V)
        → read_after (Storage.write map a v) b ≡ returned (ok (stored (store a v m) b))
    unfolding run Sequential.read Sequential.write stored store state_value
    read_after-write a b v = refl

    read_after-mutate :
        (a b : AccountId) (f : V → V)
        → read_after (Storage.mutate map a f) b
          ≡ read_after (Storage.write map a (f (stored m a))) b
    unfolding run Sequential.read Sequential.write stored state_value
    read_after-mutate a b f = refl

    read_value_lem : (b : AccountId) → read_value b ≡ returned (ok (stored m b))
    unfolding run Sequential.read stored state_value
    read_value_lem b = refl

    -- Let `old` be what `read` of a storage map gives for an account, on a sequential runtime. After `write`
    -- for this account, `read` gives the value that was written, after `mutate` the update of `old`, and
    -- after `clear` the default. For any other account it gives what it gave before.
    pub read-write :
        (a b : AccountId) (v : V) (f : V → V) (old : V)
        → read_value a ≡ returned (ok old)
        → (read_after (Storage.write map a v) b
            ≡ (if a == b then returned (ok v) else read_value b))
          × (read_after (Storage.mutate map a f) b
              ≡ (if a == b then returned (ok (f old)) else read_value b))
          × (read_after (Storage.clear map a) b
              ≡ (if a == b then returned (ok default) else read_value b))
    read-write a b v f old e = (
      by_store v,
      read_after-mutate a b f
          ∙ ap (λ x. read_after (Storage.write map a (f x)) b) (ok-eq (sym (read_value_lem a) ∙ e))
          ∙ by_store (f old),
      by_store default,
    )
      where
        by_store :
            (x : V)
            → read_after (Storage.write map a x) b
              ≡ (if a == b then returned (ok x) else read_value b)
        by_store x =
            rw (read_after-write a b x, stored-store a b x m, read_value_lem b)
              (elim (Bool-cases (bytes_beq a b)) [ inl e ↦ rw e refl | inr e ↦ rw e refl ])

-- Storing in one map leaves another map alone, if they have no key in common.
pub stored-store_other :
    {V W : Type 0} ⦃d : Default V⦄ ⦃e : Default W⦄ (map : StorageMap V) (map' : StorageMap W)
    (a b : AccountId) (v : V) (m : RuntimeState)
    → key_for map a ≢ key_for map' b
    → stored map' (store map a v m) b ≡ stored map' m b
unfolding stored store unsafe_insert_genesis_value
stored-store_other map map' a b v m n = rw (state_value-insert, apart)
  where
    apart : bytes_beq (key_for map a) (key_for map' b) ≡ false
    apart = elim (Bool-cases (bytes_beq (key_for map a) (key_for map' b))) [
      | inl q ↦ absurd (n ((bytes_beq_iff (key_for map a) (key_for map' b)).0 q))
      | inr q ↦ q
    ]
