-- ===== src/Runtime/Commit.antt =====
-- runtime/src/lib.rs: the shared state during a call, and after `commit_cache`.
use sonic_chain.Base.{
  ◌≡◌, refl, ◌∙◌, Option, none, some, arith, bytes_eq, nat_eq, returned, failed, ok, err,
  Option-cases, Bool-cases, ◌⊎◌, inl, inr, bytes_beq_iff, [], ◌∷◌, bytes_beq,
}
use sonic_chain.Base.HashMap
use sonic_chain.Base.HashMap.{HashMap, get-insert, IsMap, insert-IsMap}
use sonic_chain.Primitives.{Key, Value, ThreadId, value_default}
use sonic_chain.State
use sonic_chain.State.{StateValue, unsafe_read_taint, unsafe_insert}
use sonic_chain.Runtime.{Prog, done, fail, abort, read, write, run}
use sonic_chain.Runtime.Sequential.{RuntimeState}
use sonic_chain.Runtime.Concurrent
use sonic_chain.Runtime.Concurrent.{
  ConcurrentState, concurrent_runtime, commit_entries, commit_cache,
}
use sonic_chain.Runtime.Frame.{Frame, Frame-refl, Frame-trans, state_value, state_read-Frame}
use sonic_chain.Runtime.Refinement.{cached_value}

module _ (id : ThreadId) where
  -- A storage call of the thread either gives a value or a refusal; the cache is left alone.
  read-effect :
      (key : Key) (s : ConcurrentState)
      → ((m' : RuntimeState) × (v : Value) × Frame id s.state m'
          × (Concurrent.read id key s ≡ (returned v, record s { state = m' })))
        ⊎ ((m' : RuntimeState) × (o : ThreadId) × Frame id s.state m'
            × (Concurrent.read id key s ≡ (failed o, record s { state = m' })))
  unfolding Concurrent.read
  read-effect key s = elim (Option-cases (HashMap.get key s.cache)) [
    | inr (v, e) ↦ inl (s.state, v, Frame-refl id s.state, rw e)
    | inl e ↦ elim (state_read-Frame id key s.state) [
      | inl (m', r, f, o) ↦ inl (m', state_value s.state key, f, rw (e, r))
      | inr (o, r, u, n) ↦ inr (s.state, o, Frame-refl id s.state, rw (e, r))
    ]
  ]

  abbrev Kept : ConcurrentState → ConcurrentState → Type 0
  Kept s s' = Frame id s.state s'.state × IsMap s'.cache

  Kept-trans : (a b c : ConcurrentState) → Frame id a.state b.state → Kept b c → Kept a c
  Kept-trans a b c f (g, h) = (Frame-trans id a.state b.state c.state f g, h)

  -- Until its cache is committed, a call of the thread changes no value and claims only free keys.
  pub run-Kept :
      {A : Type 0} (p : Prog A) (s : ConcurrentState)
      → IsMap s.cache
      → Kept s (run (concurrent_runtime id) p s).1
  unfolding run Concurrent.write
  run-Kept (done a) s h = (Frame-refl id s.state, h)
  run-Kept (fail e) s h = (Frame-refl id s.state, h)
  run-Kept abort s h = (Frame-refl id s.state, h)
  run-Kept (read k next) s h = elim (read-effect k s) [
    | inl (m', v, f, r) ↦ rw r (
        Kept-trans s (record s { state = m' }) _ f
          (run-Kept (next (ok v)) (record s { state = m' }) h))
    | inr (m', o, f, r) ↦ rw r (
        Kept-trans s (record s { state = m' }) _ f
          (run-Kept (next (err o)) (record s { state = m' }) h))
  ]
  run-Kept (write k v next) s h = elim (read-effect k s) [
    | inl (m', w, f, r) ↦ rw r (
        Kept-trans s (record { state = m'; cache = HashMap.insert k v s.cache }) _ f
          (run-Kept (next (ok tt)) (record { state = m'; cache = HashMap.insert k v s.cache })
            (insert-IsMap k v s.cache h)))
    | inr (m', o, f, r) ↦ rw r (
        Kept-trans s (record s { state = m' }) _ f
          (run-Kept (next (err o)) (record s { state = m' }) h))
  ]

  abbrev committed :
      Option Value → Option (StateValue Value ThreadId) → Option (StateValue Value ThreadId)
  committed none e = e
  committed (some v) e = some (State.new v id)

  -- A committed entry is the cached one under the thread's taint; the others stay.
  pub get-commit_entries :
      (cache : HashMap Key Value) (m : RuntimeState) (k : Key)
      → IsMap cache
      → HashMap.get k (commit_entries id cache m)
        ≡ committed (HashMap.get k cache) (HashMap.get k m)
  unfolding commit_entries HashMap.get unsafe_insert
  get-commit_entries [] m k h = refl
  get-commit_entries ((j, v) ∷ cache) m k h =
      get-commit_entries cache (unsafe_insert j (State.new v id) m) k h.1
      ∙ elim (Bool-cases (bytes_beq j k)) [
        | inl e ↦ rw (get-insert, e) (rw (← (bytes_beq_iff j k).0 e, h.0))
        | inr e ↦ rw (get-insert, e)
      ]

  -- After the commit every reader finds what the thread had in view.
  pub value-commit_cache :
      (s : ConcurrentState) (k : Key)
      → IsMap s.cache
      → state_value (commit_cache id s) k ≡ cached_value s k
  unfolding commit_cache cached_value state_value
  value-commit_cache s k h = ground (arith, get-commit_entries s.cache s.state k h)

  -- A key that is not cached keeps its taint, and a cached one is the thread's.
  pub taint-commit_cache :
      (s : ConcurrentState) (k : Key)
      → IsMap s.cache
      → ((HashMap.get k s.cache ≡ none)
          × (unsafe_read_taint k (commit_cache id s) ≡ unsafe_read_taint k s.state))
        ⊎ ((v : Value) × (HashMap.get k s.cache ≡ some v)
            × (unsafe_read_taint k (commit_cache id s) ≡ some id))
  unfolding commit_cache unsafe_read_taint
  taint-commit_cache s k h = elim (Option-cases (HashMap.get k s.cache)) [
    | inl e ↦ inl (e, ground (arith, get-commit_entries s.cache s.state k h))
    | inr (v, e) ↦ inr (v, e, ground (arith, get-commit_entries s.cache s.state k h))
  ]
