-- ===== src/Runtime/Discipline.antt =====
-- runtime/src/lib.rs: how a call has to use its storage. A refused access ends the call as tainted
-- (`or_forward`, `or_orphan`), and an access that is expected to succeed is to a key used before.
use sonic_chain.Base.{◌≡◌, Bool, List, [], ◌∷◌, Result, ok, err, ◌⊎◌}
use sonic_chain.Primitives.{Key, Value, ThreadId}
use sonic_chain.Runtime.{Prog, done, fail, abort, read, write, tainted, logic_error}

abbrev pub Known : Key → List Key → Type 0
Known k [] = ⊥
Known k (j ∷ known) = (k ≡ j) ⊎ Known k known

-- The way on from a refused access.
abbrev pub Refused : {A B : Type 0} → (Result ThreadId B → Prog A) → Type 0
Refused next = (b : Bool) × ((t : ThreadId) → next (err t) ≡ fail (tainted t b))

abbrev pub IsDisciplined : {A : Type 0} → List Key → Prog A → Type 0
IsDisciplined known (done a) = Unit
IsDisciplined known (fail (logic_error why)) = Unit
IsDisciplined known (fail (tainted t b)) = ⊥
IsDisciplined known abort = Unit
IsDisciplined known (read k next) =
    Refused next × ((v : Value) → IsDisciplined (k ∷ known) (next (ok v)))
IsDisciplined known (write k v next) =
    (Known k known ⊎ Refused next) × IsDisciplined (k ∷ known) (next (ok tt))

-- No logical error.
abbrev pub IsCommitted : {A : Type 0} → Prog A → Type 0
IsCommitted (done a) = Unit
IsCommitted (fail (logic_error why)) = ⊥
IsCommitted (fail (tainted t b)) = Unit
IsCommitted abort = Unit
IsCommitted (read k next) = (v : Value) → IsCommitted (next (ok v))
IsCommitted (write k v next) = IsCommitted (next (ok tt))

-- Every logical error is found before the first write.
abbrev pub ChecksFirst : {A : Type 0} → Prog A → Type 0
ChecksFirst (done a) = Unit
ChecksFirst (fail e) = Unit
ChecksFirst abort = Unit
ChecksFirst (read k next) = (v : Value) → ChecksFirst (next (ok v))
ChecksFirst (write k v next) = IsCommitted (next (ok tt))
