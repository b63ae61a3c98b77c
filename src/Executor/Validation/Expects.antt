-- ===== src/Executor/Validation/Expects.antt =====
-- executor/src/concurrent/worker.rs, `run_validate`: what is still to come of one validating worker.
use sonic_chain.Base.{
  ◌≡◌, refl, ap, sym, ◌∙◌, none, some, List, [], ◌∷◌, ◌++◌, map, ok, returned, ◌⊎◌, inl, inr,
  bytes_eq, nat_eq,
}
use mathlib.Core.List.{append_assoc, append-nil}
use sonic_chain.Primitives.{Key}
use sonic_chain.State.{unsafe_insert_genesis_value}
use sonic_chain.Runtime.{
  Prog, done, fail, abort, read, write, run, tainted, logic_error, success, logic_failure,
  RuntimeDispatchSuccess, RuntimeDispatchResult, to_runtime_dispatch_result,
}
use sonic_chain.Runtime.Frame.{state_value}
use sonic_chain.Runtime.Sequential
use sonic_chain.Runtime.Sequential.{RuntimeState, sequential_runtime}
use sonic_chain.Runtime.Footprint.{Within, Agree, Within-Agree, run-Agree, insert-Outside}
use sonic_chain.Staking.{Codecs}
use sonic_chain.Executor.Types.{Transaction}
use sonic_chain.Executor.Authoring.{Event, call_of, Replays, after}
use sonic_chain.Executor.Validation.{Process, Finished, advance}

abbrev pub transactions_of : List Event → List Transaction
transactions_of events = map (λ e. e.tx) events

abbrev pub outcomes_of : List Event → List RuntimeDispatchSuccess
outcomes_of events = map (λ e. e.outcome) events

module _ (c : Codecs) (P : Key → Type 0) where
  -- Events replay from any state that agrees on the keys, and to states that agree on them.
  pub Replays-Agree :
      (events : List Event) (m q : RuntimeState)
      → Agree P m q
      → Replays c P events m
      → Replays c P events q × Agree P (after c events m) (after c events q)
  unfolding Sequential.dispatch
  Replays-Agree [] m q a r = (tt, a)
  Replays-Agree (e ∷ events) m q a (w, o, r) =
      let (same, b) = run-Agree P e.worker (call_of c e.tx) m q w a in
      let (rest, d) =
        Replays-Agree events _ (run (sequential_runtime e.worker) (call_of c e.tx) q).1 b r in
      (
        (
          Within-Agree P (call_of c e.tx) m q w a,
          ap to_runtime_dispatch_result (sym same) ∙ o,
          rest,
        ),
        d,
      )

  -- What is left to a worker from state `m` are events that replay on its keys, with the outcomes `outs`
  -- in all, and end in the values of `g`.
  pub data Expects (p : Process) (m g : RuntimeState) (outs : List RuntimeDispatchSuccess)
      : Type 0 where
    idle :
        (events : List Event)
        → p.current ≡ none
        → p.queue ≡ transactions_of events
        → p.outcomes ++ outcomes_of events ≡ outs
        → Replays c P events m
        → Agree P g (after c events m)
        → Expects p m g outs
    busy :
        (call : Prog Unit) (e : Event) (events : List Event)
        → p.current ≡ some call
        → p.queue ≡ transactions_of events
        → p.outcomes ++ (e.outcome ∷ outcomes_of events) ≡ outs
        → Within P call m
        → to_runtime_dispatch_result (run (sequential_runtime e.worker) call m).0
          ≡ returned e.outcome
        → Replays c P events (run (sequential_runtime e.worker) call m).1
        → Agree P g (after c events (run (sequential_runtime e.worker) call m).1)
        → Expects p m g outs

  -- What others do to other keys does not matter.
  pub Expects-Agree :
      (p : Process) (m q g : RuntimeState) (outs : List RuntimeDispatchSuccess)
      → Agree P m q
      → Expects p m g outs
      → Expects p q g outs
  Expects-Agree p m q g outs a (idle events i u o r t) =
      let (r', b) = Replays-Agree events m q a r in idle events i u o r' (λ k x. t k x ∙ b k x)
  Expects-Agree p m q g outs a (busy call e events i u o w x r t) =
      let (same, b) = run-Agree P e.worker call m q w a in
      let (r', d) = Replays-Agree events _ (run (sequential_runtime e.worker) call q).1 b r in
      busy call e events i u o (Within-Agree P call m q w a)
        (ap to_runtime_dispatch_result (sym same) ∙ x) r' (λ k y. t k y ∙ d k y)

  -- At the end the outcomes and the values are as expected.
  pub Expects-Finished :
      (p : Process) (m g : RuntimeState) (outs : List RuntimeDispatchSuccess)
      → Finished p
      → Expects p m g outs
      → (p.outcomes ≡ outs) × Agree P g m
  Expects-Finished p m g outs (i, u) (busy call e events j v o w x r t) = cc
  Expects-Finished p m g outs (i, u) (idle [] j v o r t) = (rw append-nil at o, t)
  Expects-Finished p m g outs (i, u) (idle (e ∷ events) j v o r t) = cc

  -- The worker can go on, to a point from where the same is expected, and it changes its own keys only.
  abbrev pub GoesOn : Process → RuntimeState → RuntimeState → List RuntimeDispatchSuccess → Type 0
  GoesOn p m g outs =
      (p' : Process) × (m' : RuntimeState) × (advance c p m ≡ some (p', m'))
      × Expects p' m' g outs
      × ((k : Key) → ¬ P k → state_value m' k ≡ state_value m k)

  ended :
      (before : List RuntimeDispatchSuccess) (out out' : RuntimeDispatchSuccess)
      (rest : List RuntimeDispatchSuccess)
      → ◌≡◌ {A = RuntimeDispatchResult} (returned out) (returned out')
      → (before ++ (out ∷ [])) ++ rest ≡ before ++ (out' ∷ rest)
  ended before out out' rest h = rw (append_assoc, the_same h)
    where
      the_same : ◌≡◌ {A = RuntimeDispatchResult} (returned out) (returned out') → out ≡ out'
      the_same h = cc

  -- A worker of whom something is expected has finished, or it goes on; it does not panic.
  pub Expects-GoesOn :
      (p : Process) (m g : RuntimeState) (outs : List RuntimeDispatchSuccess)
      → Expects p m g outs
      → Finished p ⊎ GoesOn p m g outs
  unfolding advance run Sequential.read Sequential.write Sequential.dispatch state_value
  Expects-GoesOn p m g outs (idle [] i u o r t) = inl (i, u)
  Expects-GoesOn p m g outs (idle (e ∷ events) i u o (w, x, r) t) =
      inr (_, m, rw (i, u), busy (call_of c e.tx) e events refl refl o w x r t, λ k n. refl)
  Expects-GoesOn p m g outs (busy (done a) e events i u o w x r t) = inr (
    _,
    m,
    rw i,
    idle events refl u (ended p.outcomes success e.outcome (outcomes_of events) x ∙ o) r t,
    λ k n. refl,
  )
  Expects-GoesOn p m g outs (busy (fail (logic_error why)) e events i u o w x r t) = inr (
    _,
    m,
    rw i,
    idle events refl u (ended p.outcomes (logic_failure why) e.outcome (outcomes_of events) x ∙ o) r
        t,
    λ k n. refl,
  )
  Expects-GoesOn p m g outs (busy (fail (tainted b d)) e events i u o w x r t) = cc
  Expects-GoesOn p m g outs (busy abort e events i u o w x r t) = cc
  Expects-GoesOn p m g outs (busy (read k next) e events i u o w x r t) =
      inr (_, m, rw i, busy (next (ok (state_value m k))) e events refl u o w.1 x r t, λ k n. refl)
  Expects-GoesOn p m g outs (busy (write k v next) e events i u o w x r t) = inr (
    _,
    unsafe_insert_genesis_value k v m,
    rw i,
    busy (next (ok tt)) e events refl u o w.1 x r t,
    λ j n. insert-Outside P k v m j w.0 n,
  )
