-- ===== src/Runtime/Owned.antt =====
-- runtime/src/lib.rs, `ConcurrentRuntime::dispatch`: who owns the keys that a call has accessed.
use sonic_chain.Base.{
  Bool-cases, ◌==ℕ◌, ==ℕ_iff, ◌≡◌, ◌≢◌, refl, ap, sym, ◌∙◌, Bool, some, Outcome, returned, failed,
  panicked, ok, err, subst, Result, ◌⊎◌, inl, inr, List, [], ◌∷◌, bytes_eq, nat_eq,
}
use sonic_chain.Base.HashMap
use sonic_chain.Base.HashMap.{HashMap, IsMap, insert-IsMap}
use sonic_chain.Primitives.{Key, Value, ThreadId}
use sonic_chain.State.{unsafe_read_taint, unsafe_insert_genesis_value}
use sonic_chain.Runtime.{
  Prog, done, fail, abort, read, write, run, DispatchError, tainted, RuntimeDispatchSuccess,
  to_runtime_dispatch_result,
}
use sonic_chain.Runtime.Sequential
use sonic_chain.Runtime.Sequential.{RuntimeState}
use sonic_chain.Runtime.Concurrent
use sonic_chain.Runtime.Concurrent.{ConcurrentState, concurrent_runtime, commit_cache, commit_if_ok}
use sonic_chain.Runtime.Frame.{state_value}
use sonic_chain.Runtime.Discipline.{IsDisciplined, ChecksFirst}
use sonic_chain.Runtime.Refinement.{
  AllOwned, Linked, AllOwned-Frame, Owned-Frame, Known-Owned, read-Linked,
}
use sonic_chain.Runtime.Simulation.{same-Linked, write-Linked, refused_run}
use sonic_chain.Runtime.Commit.{run-Kept, taint-commit_cache}
use sonic_chain.Runtime.Footprint.{Within, Within-mono, Within-Agree, Agree, run-Agree, run-Outside}
use sonic_chain.Runtime.Dispatch.{
  fresh, fresh-Linked, SameValues, dispatch-Refines, dispatch-Confined,
}

module _ (id : ThreadId) where
  -- The keys that the thread owns in a state.
  abbrev pub OwnedIn : RuntimeState → Key → Type 0
  OwnedIn m k = unsafe_read_taint k m ≡ some id

  -- Refused, or every key that the call accesses is the thread's own afterwards.
  abbrev Stays :
      {A : Type 0} → Prog A → RuntimeState → Outcome DispatchError A × ConcurrentState → Type 0
  Stays p m c =
      ((t : ThreadId) × (b : Bool) × (c.0 ≡ failed (tainted t b))) ⊎ Within (OwnedIn c.1.state) p m

  with_key :
      {A : Type 0} (k : Key) (p : Prog A) (s : ConcurrentState) (m : RuntimeState)
      → IsMap s.cache
      → OwnedIn s.state k
      → Stays p m (run (concurrent_runtime id) p s)
      → ((t : ThreadId) × (b : Bool) × ((run (concurrent_runtime id) p s).0 ≡ failed (tainted t b)))
        ⊎ (OwnedIn (run (concurrent_runtime id) p s).1.state k
            × Within (OwnedIn (run (concurrent_runtime id) p s).1.state) p m)
  with_key k p s m c o (inl refused) = inl refused
  with_key k p s m c o (inr w) = inr (Owned-Frame id k s.state _ (run-Kept id p s c).0 o, w)

  reads :
      {A : Type 0} (k : Key) (next : Result ThreadId Value → Prog A) (s : ConcurrentState)
      (v : Value) (s' : ConcurrentState)
      → Concurrent.read id k s ≡ (returned v, s')
      → run (concurrent_runtime id) (read k next) s ≡ run (concurrent_runtime id) (next (ok v)) s'
  unfolding run
  reads k next s v s' r = rw r

  writes :
      {A : Type 0} (k : Key) (v : Value) (next : Result ThreadId Unit → Prog A)
      (s : ConcurrentState) (w : Value) (s' : ConcurrentState)
      → Concurrent.read id k s ≡ (returned w, s')
      → run (concurrent_runtime id) (write k v next) s
        ≡ run
            (concurrent_runtime id)
            (next (ok tt))
            (record s' { cache = HashMap.insert k v s'.cache })
  unfolding run Concurrent.write
  writes k v next s w s' r = rw r

  run-Stays :
      {A : Type 0} (known : List Key) (p : Prog A) (s : ConcurrentState) (m : RuntimeState)
      → IsDisciplined known p
      → AllOwned id known s
      → Linked id s m
      → IsMap s.cache
      → Stays p m (run (concurrent_runtime id) p s)
  unfolding run Concurrent.write
  run-Stays known (done a) s m d own l c = inr tt
  run-Stays known (fail e) s m d own l c = inr tt
  run-Stays known abort s m d own l c = inr tt
  run-Stays known (read k next) s m d own l c = elim (read-Linked id k s m l) [
    | inl (m', r, f, o) ↦
        let s' : ConcurrentState = record s { state = m' } in
        subst (Stays (read k next) m) (sym (reads k next s (state_value m k) s' r)) (
          with_key k (next (ok (state_value m k))) s' m c o (
            run-Stays (k ∷ known) (next (ok (state_value m k))) s' m (d.1 (state_value m k))
              (o, AllOwned-Frame id known s s' f own) (same-Linked id s m' m f l) c))
    | inr (o, r, u, n) ↦ inl (o, d.0.0, rw r (refused_run id (next (err o)) s _ (d.0.1 o)))
  ]
  run-Stays known (write k v next) s m d own l c = elim (read-Linked id k s m l) [
    | inl (m', r, f, o) ↦
        let s' : ConcurrentState = record { state = m'; cache = HashMap.insert k v s.cache } in
        subst (Stays (write k v next) m)
          (sym (writes k v next s (state_value m k) (record s { state = m' }) r))
          (with_key k (next (ok tt)) s' (unsafe_insert_genesis_value k v m)
            (insert-IsMap k v s.cache c) o
            (run-Stays (k ∷ known) (next (ok tt)) s' (unsafe_insert_genesis_value k v m) d.1
              (o, AllOwned-Frame id known s s' f own)
              (write-Linked id k v (record s { state = m' }) m o (same-Linked id s m' m f l))
              (insert-IsMap k v s.cache c)))
    | inr (o, r, u, n) ↦ elim d.0 [
      | inl h ↦ absurd (n (same_owner u (Known-Owned id k known s h own)))
      | inr refused ↦ inl (o, refused.0, rw r (refused_run id (next (err o)) s _ (refused.1 o)))
    ]
  ]
    where
      same_owner :
          {o : ThreadId}
          → unsafe_read_taint k s.state ≡ some o
          → unsafe_read_taint k s.state ≡ some id
          → o ≡ id
      same_owner u w = cc

  module _ (p : Prog Unit) (m : RuntimeState) where
    abbrev final : Outcome DispatchError Unit × ConcurrentState
    final = run (concurrent_runtime id) p (fresh m)

    -- What the thread owns before the commit it owns after it.
    owned_at_commit :
        (f : Outcome DispatchError Unit × ConcurrentState)
        → IsMap f.1.cache
        → (k : Key) → OwnedIn f.1.state k
        → OwnedIn (commit_if_ok id f) k
    unfolding commit_if_ok
    owned_at_commit (failed e, s) c k o = o
    owned_at_commit (panicked, s) c k o = o
    owned_at_commit (returned a, s) c k o = elim (taint-commit_cache id s k c) [
      | inl (e, w) ↦ w ∙ o
      | inr (v, e, w) ↦ w
    ]

    -- A disciplined call that goes through on a concurrent runtime, or ends in a logical error, has left
    -- every key that it accessed with its thread.
    pub dispatch-Stays :
        (x : RuntimeDispatchSuccess)
        → IsDisciplined [] p
        → (Concurrent.dispatch id p m).0 ≡ returned x
        → Within (OwnedIn (Concurrent.dispatch id p m).1) p m
    unfolding Concurrent.dispatch
    dispatch-Stays x d e =
        go final (run-Kept id p (fresh m) tt).1
          (run-Stays [] p (fresh m) m d tt (fresh-Linked id m m (λ k. refl)) tt) e
      where
        go :
            (f : Outcome DispatchError Unit × ConcurrentState)
            → IsMap f.1.cache
            → Stays p m f
            → to_runtime_dispatch_result f.0 ≡ returned x
            → Within (OwnedIn (commit_if_ok id f)) p m
        go f c (inr w) e =
            Within-mono (OwnedIn f.1.state) (OwnedIn (commit_if_ok id f)) p m (owned_at_commit f c)
              w
        go (r, s) c (inl (t, b, q)) e = absurd (refused_result r q e)
          where
            refused_result :
                (r : Outcome DispatchError Unit)
                → r ≡ failed (tainted t b)
                → to_runtime_dispatch_result r ≢ returned x
            refused_result r q e = cc

    -- An owner stays the owner.
    pub dispatch-Claims :
        (k : Key) (o : ThreadId)
        → IsDisciplined [] p
        → unsafe_read_taint k m ≡ some o
        → unsafe_read_taint k (Concurrent.dispatch id p m).1 ≡ some o
    unfolding Concurrent.dispatch
    dispatch-Claims k o d u = elim (Bool-cases (o ==ℕ id)) [
      | inl e ↦
          let same : o ≡ id = (==ℕ_iff o id).0 e in
          owned_at_commit final (run-Kept id p (fresh m) tt).1 k
            (Owned-Frame id k m _ (run-Kept id p (fresh m) tt).0 (u ∙ ap some same))
          ∙ ap some (sym same)
      | inr e ↦ (dispatch-Confined id p m d k o u (λ q. cc ((==ℕ_iff o id).1 q))).1
    ]

    module _ (x : RuntimeDispatchSuccess) (disciplined : IsDisciplined [] p)
        (checks : ChecksFirst p) (executed : (Concurrent.dispatch id p m).0 ≡ returned x) where
      -- The sequential runtime does the same.
      pub executed-Sequential :
          ((Sequential.dispatch id p m).0 ≡ returned x)
          × SameValues (Concurrent.dispatch id p m).1 (Sequential.dispatch id p m).1
      executed-Sequential = elim (dispatch-Refines id p m disciplined m checks (λ k. refl)) [
        | inl (t, b, e, n, v) ↦ cc
        | inr (inl (e, f)) ↦ cc
        | inr (inr (e, v)) ↦ (sym e ∙ executed, v)
      ]

      -- An executed call runs the same from any state that agrees on some keys, among them those that its
      -- thread owns afterwards.
      pub executed-Agree :
          (P : Key → Type 0) (q : RuntimeState)
          → ((k : Key) → OwnedIn (Concurrent.dispatch id p m).1 k → P k)
          → Agree P m q
          → Within P p q
            × ((Sequential.dispatch id p q).0 ≡ returned x)
            × Agree P (Concurrent.dispatch id p m).1 (Sequential.dispatch id p q).1
      unfolding Sequential.dispatch
      executed-Agree P q sub h =
          let w : Within P p m =
            Within-mono (OwnedIn (Concurrent.dispatch id p m).1) P p m sub
              (dispatch-Stays x disciplined executed) in
          let (o, a) = run-Agree P id p m q w h in
          let (e, v) = executed-Sequential in
          (Within-Agree P p m q w h, ap to_runtime_dispatch_result (sym o) ∙ e, λ k r. v k ∙ a k r)

      -- It changes no key that its thread does not own afterwards.
      pub executed-Outside :
          (k : Key)
          → ¬ OwnedIn (Concurrent.dispatch id p m).1 k
          → state_value (Concurrent.dispatch id p m).1 k ≡ state_value m k
      unfolding Sequential.dispatch
      executed-Outside k n =
          executed-Sequential.1 k
          ∙ run-Outside (OwnedIn (Concurrent.dispatch id p m).1) id p m k
              (dispatch-Stays x disciplined executed) n
