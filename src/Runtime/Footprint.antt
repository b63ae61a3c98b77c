-- ===== src/Runtime/Footprint.antt =====
-- runtime/src/lib.rs: the keys that a call accesses. What a call does depends on them alone, and a call
-- that goes through on a `ConcurrentRuntime` leaves all of them with its thread.

use sonic_chain.Base.{
  ◌≡◌, subst, refl, ◌∙◌, ok, bytes_eq, Bool-cases, inl, inr, bytes_beq, bytes_beq_iff,
}
use sonic_chain.Primitives.{Key, Value, ThreadId}
use sonic_chain.State.{unsafe_insert_genesis_value}
use sonic_chain.Runtime.{Prog, done, fail, abort, read, write, run}
use sonic_chain.Runtime.Sequential
use sonic_chain.Runtime.Sequential.{RuntimeState, sequential_runtime}
use sonic_chain.Runtime.Frame.{state_value, state_value-insert}

abbrev pub Agree : (Key → Type 0) → RuntimeState → RuntimeState → Type 0
Agree P m q = (k : Key) → P k → state_value m k ≡ state_value q k

-- Run from `m` on a sequential runtime, the call accesses keys in `P` only.
abbrev pub Within : {A : Type 0} → (Key → Type 0) → Prog A → RuntimeState → Type 0
Within P (done a) m = Unit
Within P (fail e) m = Unit
Within P abort m = Unit
Within P (read k next) m = P k × Within P (next (ok (state_value m k))) m
Within P (write k v next) m = P k × Within P (next (ok tt)) (unsafe_insert_genesis_value k v m)

module _ (P : Key → Type 0) where
  pub insert-Agree :
      (k : Key) (v : Value) (m q : RuntimeState)
      → Agree P m q
      → Agree P (unsafe_insert_genesis_value k v m) (unsafe_insert_genesis_value k v q)
  unfolding unsafe_insert_genesis_value
  insert-Agree k v m q h j p =
      rw (state_value-insert, state_value-insert)
        (elim (Bool-cases (bytes_beq k j)) [ inl e ↦ rw e | inr e ↦ rw e (h j p) ])

  pub insert-Outside :
      (k : Key) (v : Value) (m : RuntimeState) (j : Key)
      → P k
      → ¬ P j
      → state_value (unsafe_insert_genesis_value k v m) j ≡ state_value m j
  unfolding unsafe_insert_genesis_value
  insert-Outside k v m j p n = elim (Bool-cases (bytes_beq k j)) [
    | inl e ↦ absurd (n (subst P ((bytes_beq_iff k j).0 e) p))
    | inr e ↦ rw (state_value-insert, e)
  ]

  module _ (id : ThreadId) where
    -- From states that agree on the keys that it accesses, a call has the same outcome and leaves states
    -- that agree on them.
    pub run-Agree :
        {A : Type 0} (p : Prog A) (m q : RuntimeState)
        → Within P p m
        → Agree P m q
        → ((run (sequential_runtime id) p m).0 ≡ (run (sequential_runtime id) p q).0)
          × Agree P (run (sequential_runtime id) p m).1 (run (sequential_runtime id) p q).1
    unfolding run Sequential.read Sequential.write state_value
    run-Agree (done a) m q w h = (refl, h)
    run-Agree (fail e) m q w h = (refl, h)
    run-Agree abort m q w h = (refl, h)
    run-Agree (read k next) m q w h =
        rw (← h k w.0) (run-Agree (next (ok (state_value m k))) m q w.1 h)
    run-Agree (write k v next) m q w h =
        run-Agree (next (ok tt)) _ (unsafe_insert_genesis_value k v q) w.1 (insert-Agree k v m q h)

    -- The keys that it does not access keep their values.
    pub run-Outside :
        {A : Type 0} (p : Prog A) (m : RuntimeState) (k : Key)
        → Within P p m
        → ¬ P k
        → state_value (run (sequential_runtime id) p m).1 k ≡ state_value m k
    unfolding run Sequential.read Sequential.write state_value
    run-Outside (done a) m k w n = refl
    run-Outside (fail e) m k w n = refl
    run-Outside abort m k w n = refl
    run-Outside (read j next) m k w n = run-Outside (next (ok _)) m k w.1 n
    run-Outside (write j v next) m k w n =
        run-Outside (next (ok tt)) _ k w.1 n ∙ insert-Outside j v m k w.0 n

  pub Within-Agree :
      {A : Type 0} (p : Prog A) (m q : RuntimeState) → Within P p m → Agree P m q → Within P p q
  Within-Agree (done a) m q w h = tt
  Within-Agree (fail e) m q w h = tt
  Within-Agree abort m q w h = tt
  Within-Agree (read k next) m q w h =
      (w.0, rw (← h k w.0) (Within-Agree (next (ok (state_value m k))) m q w.1 h))
  Within-Agree (write k v next) m q w h =
      (w.0, Within-Agree (next (ok tt)) _ _ w.1 (insert-Agree k v m q h))

pub Within-mono :
    {A : Type 0} (P Q : Key → Type 0) (p : Prog A) (m : RuntimeState)
    → ((k : Key) → P k → Q k)
    → Within P p m
    → Within Q p m
Within-mono P Q (done a) m f w = tt
Within-mono P Q (fail e) m f w = tt
Within-mono P Q abort m f w = tt
Within-mono P Q (read k next) m f w = (f k w.0, Within-mono P Q (next (ok _)) m f w.1)
Within-mono P Q (write k v next) m f w = (f k w.0, Within-mono P Q (next (ok tt)) _ f w.1)
