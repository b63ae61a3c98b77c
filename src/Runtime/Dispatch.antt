-- ===== src/Runtime/Dispatch.antt =====
-- runtime/src/lib.rs, `dispatch` of both runtimes: atomicity, confinement to own keys, and refinement of
-- the sequential runtime by the concurrent one.
use sonic_chain.Base.{
  ◌≡◌, ◌≢◌, refl, ap, sym, ◌∙◌, Bool, Option, none, some, bytes_eq, nat_eq, Outcome, returned,
  failed, panicked, ok, ◌⊎◌, inl, inr, List, [], ◌∷◌, String,
}
use sonic_chain.Base.HashMap
use sonic_chain.Base.HashMap.{HashMap, get-insert, IsMap, insert-IsMap}
use sonic_chain.Primitives.{Key, ThreadId, value_default}
use sonic_chain.State.{unsafe_read_taint}
use sonic_chain.Runtime.{
  Prog, done, fail, abort, read, write, run, DispatchError, tainted, logic_error,
  RuntimeDispatchResult, tainted_by, to_runtime_dispatch_result, success,
}
use sonic_chain.Runtime.Sequential
use sonic_chain.Runtime.Sequential.{RuntimeState, sequential_runtime}
use sonic_chain.Runtime.Concurrent
use sonic_chain.Runtime.Concurrent.{ConcurrentState, concurrent_runtime, commit_cache, commit_if_ok}
use sonic_chain.Runtime.Frame.{Frame, state_value}
use sonic_chain.Runtime.Discipline.{IsDisciplined, ChecksFirst, IsCommitted}
use sonic_chain.Runtime.Refinement.{cached_value, Linked}
use sonic_chain.Runtime.Simulation.{Matches, run-Matches}
use sonic_chain.Runtime.Commit.{run-Kept, value-commit_cache, taint-commit_cache}

-- Two states in which every key reads the same.
abbrev pub SameValues : RuntimeState → RuntimeState → Type 0
SameValues m m' = (k : Key) → state_value m k ≡ state_value m' k

abbrev pub fresh : RuntimeState → ConcurrentState
fresh m = record { state = m; cache = [] }

run-sequential_id :
    {A : Type 0} (a b : ThreadId) (p : Prog A) (q : RuntimeState)
    → run (sequential_runtime a) p q ≡ run (sequential_runtime b) p q
unfolding run Sequential.read Sequential.write
run-sequential_id a b (done x) q = refl
run-sequential_id a b (fail e) q = refl
run-sequential_id a b abort q = refl
run-sequential_id a b (read k next) q = run-sequential_id a b (next (ok _)) q
run-sequential_id a b (write k v next) q = run-sequential_id a b (next (ok tt)) _

-- The id of a sequential runtime plays no part in a dispatch.
pub sequential-dispatch_id :
    (a b : ThreadId) (p : Prog Unit) (q : RuntimeState)
    → Sequential.dispatch a p q ≡ Sequential.dispatch b p q
unfolding Sequential.dispatch
sequential-dispatch_id a b p q = rw (run-sequential_id a b p q)

module _ (id : ThreadId) where
  pub fresh-Linked : (m q : RuntimeState) → SameValues m q → Linked id (fresh m) q
  unfolding cached_value HashMap.get
  fresh-Linked m q h = record { views = h; owned = λ k v e. cc }

  module _ (p : Prog Unit) (m : RuntimeState) where
    abbrev final : Outcome DispatchError Unit × ConcurrentState
    final = run (concurrent_runtime id) p (fresh m)

    -- A call on a concurrent runtime that does not come out as `Ok`, be it refused, in error or in
    -- a panic, has changed no value of the shared state.
    pub dispatch-Atomic :
        (Concurrent.dispatch id p m).0 ≢ returned success
        → SameValues (Concurrent.dispatch id p m).1 m
    unfolding Concurrent.dispatch commit_if_ok
    dispatch-Atomic n = go final (run-Kept id p (fresh m) tt).0 n
      where
        go :
            (f : Outcome DispatchError Unit × ConcurrentState)
            → Frame id m f.1.state
            → to_runtime_dispatch_result f.0 ≢ returned success
            → SameValues (commit_if_ok id f) m
        go (returned _, s) f n = absurd (n refl)
        go (failed e, s) f n = f.values
        go (panicked, s) f n = f.values

  -- After its writes have begun a sequential call meets no logical error.
  committed_no_logic_error :
      (p : Prog Unit) (q : RuntimeState) (why : String)
      → IsCommitted p
      → (run (sequential_runtime id) p q).0 ≢ failed (logic_error why)
  unfolding run Sequential.read Sequential.write
  committed_no_logic_error (done a) q why c e = cc
  committed_no_logic_error (fail (logic_error w)) q why c e = absurd c
  committed_no_logic_error (fail (tainted t b)) q why c e = cc
  committed_no_logic_error abort q why c e = cc
  committed_no_logic_error (read k next) q why c e =
      committed_no_logic_error (next (ok _)) q why (c _) e
  committed_no_logic_error (write k v next) q why c e =
      committed_no_logic_error (next (ok tt)) _ why c e

  -- A sequential call that checks first leaves the state as it was on a logical error.
  checked_logic_error :
      (p : Prog Unit) (q : RuntimeState) (why : String)
      → ChecksFirst p
      → (run (sequential_runtime id) p q).0 ≡ failed (logic_error why)
      → (run (sequential_runtime id) p q).1 ≡ q
  unfolding run Sequential.read Sequential.write
  checked_logic_error (done a) q why c e = refl
  checked_logic_error (fail x) q why c e = refl
  checked_logic_error abort q why c e = refl
  checked_logic_error (read k next) q why c e = checked_logic_error (next (ok _)) q why (c _) e
  checked_logic_error (write k v next) q why c e =
      absurd (committed_no_logic_error (next (ok tt)) _ why c e)

  never_tainted :
      (known : List Key) (p : Prog Unit) (q : RuntimeState) (t : ThreadId) (b : Bool)
      → IsDisciplined known p
      → (run (sequential_runtime id) p q).0 ≢ failed (tainted t b)
  unfolding run Sequential.read Sequential.write
  never_tainted known (done a) q t b d e = cc
  never_tainted known (fail (logic_error w)) q t b d e = cc
  never_tainted known (fail (tainted u c)) q t b d e = absurd d
  never_tainted known abort q t b d e = cc
  never_tainted known (read k next) q t b d e =
      never_tainted (k ∷ known) (next (ok _)) q t b (d.1 _) e
  never_tainted known (write k v next) q t b d e =
      never_tainted (k ∷ known) (next (ok tt)) _ t b d.1 e

  -- The sequential runtime refuses no disciplined call as tainted.
  pub sequential-dispatch-ne-tainted :
      (p : Prog Unit) (q : RuntimeState) (t : ThreadId) (b : Bool)
      → IsDisciplined [] p
      → (Sequential.dispatch id p q).0 ≢ failed (tainted_by t b)
  unfolding Sequential.dispatch
  sequential-dispatch-ne-tainted p q t b d =
      go (run (sequential_runtime id) p q).0 (never_tainted [] p q t b d)
    where
      go :
          (r : Outcome DispatchError Unit)
          → r ≢ failed (tainted t b)
          → to_runtime_dispatch_result r ≢ failed (tainted_by t b)
      go (returned _) n e = cc
      go (failed (logic_error w)) n e = cc
      go (failed (tainted u c)) n e = n (cc)
      go panicked n e = cc

  module _ (p : Prog Unit) (m : RuntimeState) (disciplined : IsDisciplined [] p) where
    -- A refusal names another thread and changes no value. In any other case the outcome is that of the
    -- sequential runtime, and, short of a panic, so is every value.
    abbrev pub Follows :
        RuntimeDispatchResult × RuntimeState → RuntimeDispatchResult × RuntimeState → Type 0
    Follows c q =
        ((t : ThreadId) × (b : Bool) × (c.0 ≡ failed (tainted_by t b))
          × (t ≢ id)
          × SameValues c.1 m)
        ⊎ ((c.0 ≡ q.0) × (c.0 ≢ panicked → SameValues c.1 q.1))

    pub dispatch-Follows :
        (q : RuntimeState)
        → ChecksFirst p
        → SameValues m q
        → Follows (Concurrent.dispatch id p m) (Sequential.dispatch id p q)
    unfolding Concurrent.dispatch commit_if_ok Sequential.dispatch
    dispatch-Follows q checks h =
        go (final p m) (run (sequential_runtime id) p q) (run-Kept id p (fresh m) tt)
          (checked_logic_error p q) (λ t b. never_tainted [] p q t b disciplined)
          (run-Matches id [] p (fresh m) q disciplined tt (fresh-Linked m q h))
      where
        go :
            (f : Outcome DispatchError Unit × ConcurrentState)
            (g : Outcome DispatchError Unit × RuntimeState)
            → Frame id m f.1.state × IsMap f.1.cache
            → ((why : String) → ChecksFirst p → g.0 ≡ failed (logic_error why) → g.1 ≡ q)
            → ((t : ThreadId) (b : Bool) → g.0 ≢ failed (tainted t b))
            → Matches id f g
            → Follows
                (to_runtime_dispatch_result f.0, commit_if_ok id f)
                (to_runtime_dispatch_result g.0, g.1)
        go f g kept unchanged untainted (inl (t, b, e, n)) = refused f e kept.0
          where
            refused :
                (f : Outcome DispatchError Unit × ConcurrentState)
                → f.0 ≡ failed (tainted t b)
                → Frame id m f.1.state
                → Follows
                    (to_runtime_dispatch_result f.0, commit_if_ok id f)
                    (to_runtime_dispatch_result g.0, g.1)
            refused (r, s) e fr = inl (
              t,
              b,
              ap to_runtime_dispatch_result e,
              n,
              λ k. ap (λ c. state_value c k) (ap (λ o. commit_if_ok id (o, s)) e) ∙ fr.values k,
            )
        go (r, s) (r', s') kept unchanged untainted (inr (e, l)) =
            inr (ap to_runtime_dispatch_result e, λ n k. same r e n k)
          where
            same :
                (r : Outcome DispatchError Unit)
                → r ≡ r'
                → to_runtime_dispatch_result r ≢ panicked
                → (k : Key) → state_value (commit_if_ok id (r, s)) k ≡ state_value s' k
            same (returned a) e n k = value-commit_cache id s k kept.1 ∙ l.views k
            same panicked e n k = absurd (n refl)
            same (failed (logic_error why)) e n k =
                kept.0.values k
                ∙ h k
                ∙ ap (λ c. state_value c k) (sym (unchanged why checks (sym e)))
            same (failed (tainted t b)) e n k = absurd (untainted t b (sym e))

    -- A refusal, a panic on both runtimes, or the same outcome with the same values.
    abbrev pub Refines :
        RuntimeDispatchResult × RuntimeState → RuntimeDispatchResult × RuntimeState → Type 0
    Refines c q =
        ((t : ThreadId) × (b : Bool) × (c.0 ≡ failed (tainted_by t b))
          × (t ≢ id)
          × SameValues c.1 m)
        ⊎ (((c.0 ≡ panicked) × (q.0 ≡ panicked)) ⊎ ((c.0 ≡ q.0) × SameValues c.1 q.1))

    -- For a disciplined call that checks before it writes, from states with the same values: the
    -- concurrent runtime refuses the call, naming another thread and changing no value; or both
    -- runtimes panic; or they have the same outcome and leave the same values.
    pub dispatch-Refines :
        (q : RuntimeState)
        → ChecksFirst p
        → SameValues m q
        → Refines (Concurrent.dispatch id p m) (Sequential.dispatch id p q)
    dispatch-Refines q checks h =
        by_outcome (Concurrent.dispatch id p m) (Sequential.dispatch id p q)
          (dispatch-Follows q checks h)
      where
        by_outcome : (c r : RuntimeDispatchResult × RuntimeState) → Follows c r → Refines c r
        by_outcome c r (inl refused) = inl refused
        by_outcome (panicked, s) r (inr (e, v)) = inr (inl (refl, sym e))
        by_outcome (returned x, s) r (inr (e, v)) = inr (inr (e, v (λ z. cc)))
        by_outcome (failed x, s) r (inr (e, v)) = inr (inr (e, v (λ z. cc)))

    -- Whatever disciplined call a thread dispatches, a key that another thread owns keeps its value
    -- and its owner.
    pub dispatch-Confined :
        (k : Key) (o : ThreadId)
        → unsafe_read_taint k m ≡ some o
        → o ≢ id
        → (state_value (Concurrent.dispatch id p m).1 k ≡ state_value m k)
          × (unsafe_read_taint k (Concurrent.dispatch id p m).1 ≡ some o)
    unfolding Concurrent.dispatch commit_if_ok cached_value
    dispatch-Confined k o u n =
        go (final p m) (run-Kept id p (fresh m) tt)
          (run-Matches id [] p (fresh m) m disciplined tt (fresh-Linked m m (λ j. refl)))
      where
        still : (s : ConcurrentState) → Frame id m s.state → unsafe_read_taint k s.state ≡ some o
        still s f = elim (f.taints k) [ inl e ↦ e ∙ u | inr (e, w) ↦ cc ]

        committed :
            (s : ConcurrentState) (r : RuntimeState)
            → Frame id m s.state
            → IsMap s.cache
            → Linked id s r
            → (state_value (commit_cache id s) k ≡ state_value m k)
              × (unsafe_read_taint k (commit_cache id s) ≡ some o)
        committed s r f c l = elim (taint-commit_cache id s k c) [
          | inl (e, w) ↦ (value-commit_cache id s k c ∙ uncached s e ∙ f.values k, w ∙ still s f)
          | inr (v, e, w) ↦ absurd (n (both (still s f) (l.owned k v e)))
        ]
          where
            uncached :
                (s : ConcurrentState)
                → HashMap.get k s.cache ≡ none
                → cached_value s k ≡ state_value s.state k
            uncached s e = rw e

            both : {t : Option ThreadId} → t ≡ some o → t ≡ some id → o ≡ id
            both p q = cc

        go :
            (f : Outcome DispatchError Unit × ConcurrentState)
            → Frame id m f.1.state × IsMap f.1.cache
            → Matches id f (run (sequential_runtime id) p m)
            → (state_value (commit_if_ok id f) k ≡ state_value m k)
              × (unsafe_read_taint k (commit_if_ok id f) ≡ some o)
        go (returned a, s) kept (inl (t, b, e, w)) = cc
        go (returned a, s) kept (inr (e, l)) = committed s _ kept.0 kept.1 l
        go (failed x, s) kept w = (kept.0.values k, still s kept.0)
        go (panicked, s) kept w = (kept.0.values k, still s kept.0)
