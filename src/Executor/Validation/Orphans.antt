-- ===== src/Executor/Validation/Orphans.antt =====
-- executor/src/concurrent/master.rs, `execute_orphan_pool`, at the end of authoring and at the end of
-- validation.
use sonic_chain.Base.{
  ◌≡◌, refl, ap, sym, ◌∙◌, Option, none, some, List, [], ◌∷◌, ok, returned, failed, panicked, subst,
  some-eq-some, bytes_eq, nat_eq,
}
use sonic_chain.Primitives.{ThreadId, Key}
use sonic_chain.Runtime.{
  Prog, done, fail, abort, read, write, RuntimeDispatchSuccess, RuntimeDispatchResult,
  to_runtime_dispatch_result,
}
use sonic_chain.Runtime.Frame.{state_value}
use sonic_chain.Runtime.Sequential
use sonic_chain.Runtime.Sequential.{RuntimeState}
use sonic_chain.Runtime.Dispatch.{SameValues}
use sonic_chain.Runtime.Footprint.{Within, run-Agree}
use sonic_chain.Staking.{Codecs}
use sonic_chain.Executor.Types.{Transaction}
use sonic_chain.Executor.Sequential.{prepend}
use sonic_chain.Executor.Master.{execute_orphan_pool, next_orphan}
use sonic_chain.Executor.Authoring.{Schedule, Event, author_events, call_of}
use sonic_chain.Executor.Validation.{System, Steps, start, Finished}
use sonic_chain.Executor.Validation.Reproduces.{queues_of, validation-Reproduces}

abbrev Anywhere : Key → Type 0
Anywhere k = Unit

Within-Anywhere : {A : Type 0} (p : Prog A) (m : RuntimeState) → Within Anywhere p m
Within-Anywhere (done a) m = tt
Within-Anywhere (fail e) m = tt
Within-Anywhere abort m = tt
Within-Anywhere (read k next) m = (tt, Within-Anywhere (next (ok (state_value m k))) m)
Within-Anywhere (write k v next) m = (tt, Within-Anywhere (next (ok tt)) _)

-- A sequential call does the same from states with the same values.
pub dispatch_same :
    (id : ThreadId) (p : Prog Unit) (m q : RuntimeState)
    → SameValues m q
    → ((Sequential.dispatch id p m).0 ≡ (Sequential.dispatch id p q).0)
      × SameValues (Sequential.dispatch id p m).1 (Sequential.dispatch id p q).1
unfolding Sequential.dispatch
dispatch_same id p m q h =
    let (o, a) = run-Agree Anywhere id p m q (Within-Anywhere p m) (λ k u. h k) in
    (ap to_runtime_dispatch_result o, λ k. a k tt)

module _ (c : Codecs) (id : ThreadId) where
  -- Where a pool of orphans runs through, it gives the same outcomes and values from `q`.
  abbrev pub RunsSame :
      List Transaction → RuntimeState → List RuntimeDispatchSuccess → RuntimeState → Type 0
  RunsSame orphans q outcomes m' =
      (q' : RuntimeState) × (execute_orphan_pool c id orphans q ≡ some (outcomes, q'))
      × SameValues q' m'

  pub execute_orphan_pool-Same :
      (orphans : List Transaction) (m m' q : RuntimeState) (outcomes : List RuntimeDispatchSuccess)
      → SameValues m q
      → execute_orphan_pool c id orphans m ≡ some (outcomes, m')
      → RunsSame orphans q outcomes m'
  unfolding execute_orphan_pool
  execute_orphan_pool-Same [] m m' q outcomes h e =
      subst (λ r. RunsSame [] q r.0 r.1) (some-eq-some e) (q, refl, λ k. sym (h k))
  execute_orphan_pool-Same (tx ∷ orphans) m m' q outcomes h e =
      let (o, v) = dispatch_same id (call_of c tx) m q h in
      by_result (Sequential.dispatch id (call_of c tx) m) (Sequential.dispatch id (call_of c tx) q)
        refl o v (λ n n' outs. execute_orphan_pool-Same orphans n m' n' outs) e
    where
      by_rest :
          (outcome : RuntimeDispatchSuccess) (n n' : RuntimeState)
          (found : Option (List RuntimeDispatchSuccess × RuntimeState))
          → Sequential.dispatch id (call_of c tx) q ≡ (returned outcome, n')
          → ((outs : List RuntimeDispatchSuccess)
              → found ≡ some (outs, m')
              → RunsSame orphans n' outs m')
          → prepend outcome found ≡ some (outcomes, m')
          → RunsSame (tx ∷ orphans) q outcomes m'
      by_rest outcome n n' none d ih e = cc
      by_rest outcome n n' (some (outs, k)) d ih e =
          let pair : (outcome ∷ outs, k) ≡ (outcomes, m') = some-eq-some e in
          let (q', r, s) = ih outs (ap (λ x. some (outs, x)) (ap (λ x. x.1) pair)) in
          (q', rw (d, r) (ap (λ x. some (x.0, q')) pair), s)

      by_result :
          (r r' : RuntimeDispatchResult × RuntimeState)
          → Sequential.dispatch id (call_of c tx) q ≡ r'
          → r.0 ≡ r'.0
          → SameValues r.1 r'.1
          → ((n n' : RuntimeState) (outs : List RuntimeDispatchSuccess)
              → SameValues n n'
              → execute_orphan_pool c id orphans n ≡ some (outs, m')
              → RunsSame orphans n' outs m')
          → next_orphan c id (execute_orphan_pool c id orphans) r ≡ some (outcomes, m')
          → RunsSame (tx ∷ orphans) q outcomes m'
      by_result (failed x, n) r' d o v ih e = cc
      by_result (panicked, n) r' d o v ih e = cc
      by_result (returned outcome, n) (o', n') d o v ih e =
          by_rest outcome n n' (execute_orphan_pool c id orphans n) (d ∙ ap (λ x. (x, n')) (sym o))
            (λ outs f. ih n n' outs v f) e

  -- A block is authored from `m` by the workers, in any order of executions, to `g`, and the master's
  -- orphans take it on to `g'`. It is validated from a state with the same values as `m`, by the workers
  -- with their accesses in any order until all have finished, and then by the master's orphans in their
  -- order. The orphans run through with the same outcomes, and the values in the end are those of `g'`.
  pub block-Reproduces :
      (schedule : Schedule) (m q g g' : RuntimeState) (events : List Event)
      (orphans : List Transaction) (outcomes : List RuntimeDispatchSuccess) (s : System c)
      → author_events c schedule m ≡ some (events, g)
      → execute_orphan_pool c id orphans g ≡ some (outcomes, g')
      → SameValues m q
      → Steps c (start c (queues_of c events) q) s
      → ((w : ThreadId) → Finished (s.processes w))
      → RunsSame orphans s.state outcomes g'
  block-Reproduces schedule m q g g' events orphans outcomes s authored executed same reached
        finished =
      let (o, v) = validation-Reproduces c schedule m q g events s authored same reached finished in
      execute_orphan_pool-Same orphans g g' s.state outcomes (λ k. sym (v k)) executed
