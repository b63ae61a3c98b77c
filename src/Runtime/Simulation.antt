-- ===== src/Runtime/Simulation.antt =====
-- runtime/src/lib.rs: the two runtimes run the same call side by side.
use sonic_chain.Base.{
  ◌≡◌, ◌≢◌, refl, Bool, false, some, arith, bytes_eq, nat_eq, Outcome, returned, failed, ok, err,
  Bool-cases, ◌⊎◌, inl, inr, bytes_beq_iff, List, ◌∷◌, bytes_beq,
}
use sonic_chain.Base.HashMap
use sonic_chain.Base.HashMap.{HashMap, get-insert}
use sonic_chain.Primitives.{Key, Value, ThreadId, value_default}
use sonic_chain.State.{unsafe_read_taint, unsafe_insert_genesis_value}
use sonic_chain.Runtime.{Prog, done, fail, abort, read, write, run, DispatchError, tainted}
use sonic_chain.Runtime.Sequential
use sonic_chain.Runtime.Sequential.{RuntimeState, sequential_runtime}
use sonic_chain.Runtime.Concurrent
use sonic_chain.Runtime.Concurrent.{ConcurrentState, concurrent_runtime}
use sonic_chain.Runtime.Frame.{Frame, state_value, state_value-insert}
use sonic_chain.Runtime.Discipline.{IsDisciplined}
use sonic_chain.Runtime.Refinement.{
  cached_value, Owned, AllOwned, Linked, AllOwned-Frame, Owned-Frame, Known-Owned, read-Linked,
}

module _ (id : ThreadId) where
  -- Refused for another thread's taint, with nothing cached that is not owned; or the same outcome on
  -- both runtimes, in linked states.
  abbrev pub Matches :
      {A : Type 0}
      → Outcome DispatchError A × ConcurrentState
      → Outcome DispatchError A × RuntimeState
      → Type 0
  Matches c q =
      ((t : ThreadId) × (b : Bool) × (c.0 ≡ failed (tainted t b)) × (t ≢ id))
      ⊎ ((c.0 ≡ q.0) × Linked id c.1 q.1)

  pub same-Linked :
      (s : ConcurrentState) (m' m : RuntimeState)
      → Frame id s.state m'
      → Linked id s m
      → Linked id (record s { state = m' }) m
  unfolding cached_value
  same-Linked s m' m f l = record {
    views = λ k. rw f.values (l.views k);
    owned = λ k v e. Owned-Frame id k s.state m' f (l.owned k v e);
  }

  -- The thread caches what the sequential runtime stores.
  pub write-Linked :
      (key : Key) (v : Value) (s : ConcurrentState) (m : RuntimeState)
      → Owned id key s
      → Linked id s m
      → Linked id
          (record s { cache = HashMap.insert key v s.cache })
          (unsafe_insert_genesis_value key v m)
  unfolding cached_value unsafe_insert_genesis_value
  write-Linked key v s m own l = record {
    views = λ k. elim (Bool-cases (bytes_beq key k)) [
      | inl e ↦ rw (get-insert, state_value-insert, e)
      | inr e ↦ rw (get-insert, state_value-insert, e) (l.views k)
    ];
    owned = λ k w e. elim (Bool-cases (bytes_beq key k)) [
      | inl q ↦ rw (← (bytes_beq_iff key k).0 q) own
      | inr q ↦ l.owned k w (rest k w q e)
    ];
  }
    where
      rest :
          (k : Key) (w : Value)
          → bytes_beq key k ≡ false
          → HashMap.get k (HashMap.insert key v s.cache) ≡ some w
          → HashMap.get k s.cache ≡ some w
      rest k w q e = ground (arith, get-insert key k v s.cache)

  sequential_read :
      (k : Key) (m : RuntimeState) → Sequential.read k m ≡ (returned (state_value m k), m)
  unfolding Sequential.read state_value
  sequential_read k m = refl

  pub refused_run :
      {A : Type 0} (p : Prog A) (s : ConcurrentState) (e : DispatchError)
      → p ≡ fail e
      → (run (concurrent_runtime id) p s).0 ≡ failed e
  unfolding run
  refused_run p s e h = rw h

  -- The outcomes match at every point of a disciplined call.
  pub run-Matches :
      {A : Type 0} (known : List Key) (p : Prog A) (s : ConcurrentState) (m : RuntimeState)
      → IsDisciplined known p
      → AllOwned id known s
      → Linked id s m
      → Matches (run (concurrent_runtime id) p s) (run (sequential_runtime id) p m)
  unfolding run Concurrent.write Sequential.write
  run-Matches known (done a) s m d own l = inr (refl, l)
  run-Matches known (fail e) s m d own l = inr (refl, l)
  run-Matches known abort s m d own l = inr (refl, l)
  run-Matches known (read k next) s m d own l = elim (read-Linked id k s m l) [
    | inl (m', r, f, o) ↦
        rw (r, sequential_read k m)
          (run-Matches (k ∷ known) (next (ok (state_value m k))) (record s { state = m' }) m
            (d.1 (state_value m k)) (o, AllOwned-Frame id known s (record s { state = m' }) f own)
            (same-Linked s m' m f l))
    | inr (o, r, u, n) ↦ inl (o, d.0.0, rw r (refused_run (next (err o)) s _ (d.0.1 o)), n)
  ]
  run-Matches known (write k v next) s m d own l = elim (read-Linked id k s m l) [
    | inl (m', r, f, o) ↦
        let s' : ConcurrentState = record s { state = m' } in
        rw r (
          run-Matches (k ∷ known) (next (ok tt))
            (record { state = m'; cache = HashMap.insert k v s.cache })
            (unsafe_insert_genesis_value k v m) d.1
            (
              o,
              AllOwned-Frame id known s (record { state = m'; cache = HashMap.insert k v s.cache })
                  f own,
            )
            (write-Linked k v s' m o (same-Linked s m' m f l)))
    | inr (o, r, u, n) ↦ elim d.0 [
      | inl h ↦ absurd (n (same_owner u (Known-Owned id k known s h own)))
      | inr refused ↦ inl (o, refused.0, rw r (refused_run (next (err o)) s _ (refused.1 o)), n)
    ]
  ]
    where
      same_owner :
          {o : ThreadId}
          → unsafe_read_taint k s.state ≡ some o
          → unsafe_read_taint k s.state ≡ some id
          → o ≡ id
      same_owner u w = cc
