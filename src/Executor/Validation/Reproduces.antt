-- ===== src/Executor/Validation/Reproduces.antt =====
-- executor/src/concurrent: a block that several workers validate at once, each the transactions that it
-- executed in authoring, in the order in which it executed them.
use sonic_chain.Base.{
  ◌≡◌, refl, sym, ◌∙◌, none, some, List, ◌⊎◌, inl, inr, subst, false, Option-cases, Bool-cases,
  ◌==ℕ◌, ==ℕ_iff, bytes_eq, nat_eq, some-eq-some,
}
use sonic_chain.Primitives.{ThreadId, Key}
use sonic_chain.State.{unsafe_read_taint}
use sonic_chain.Runtime.Frame.{state_value}
use sonic_chain.Runtime.Sequential.{RuntimeState}
use sonic_chain.Runtime.Dispatch.{SameValues}
use sonic_chain.Runtime.Footprint.{Agree}
use sonic_chain.Runtime.Owned.{OwnedIn}
use sonic_chain.Staking.{Codecs}
use sonic_chain.Executor.Types.{Transaction}
use sonic_chain.Executor.Authoring.{
  Schedule, Event, own, author_events, IsReplayable, author_events-IsReplayable,
}
use sonic_chain.Executor.Validation.{
  Process, Finished, advance, System, Step, advances, Steps, here, further, start,
}
use sonic_chain.Executor.Validation.Expects.{
  transactions_of, outcomes_of, Expects, idle, Expects-Agree, Expects-Finished, Expects-GoesOn,
}

module _ (c : Codecs) where
  -- What each worker executed in authoring, in its order.
  abbrev pub queues_of : List Event → ThreadId → List Transaction
  queues_of events w = transactions_of (own w events)

  module _ (events : List Event) (g : RuntimeState) where
    -- From here the workers reproduce the authored values `g` on their keys; the keys of nobody are as in `m`.
    abbrev IsOnCourse : RuntimeState → System c → Type 0
    IsOnCourse m s =
        ((w : ThreadId)
          → Expects c (OwnedIn w g) (s.processes w) s.state g (outcomes_of (own w events)))
        × ((k : Key) → unsafe_read_taint k g ≡ none → state_value s.state k ≡ state_value m k)

    -- A key has one owner at most.
    not_both : (k : Key) (v w : ThreadId) → (v ==ℕ w) ≡ false → OwnedIn w g k → ¬ OwnedIn v g k
    not_both k v w e p q = cc ((==ℕ_iff v w).1 (some-eq-some (sym q ∙ p)))

    not_none : (k : Key) (v : ThreadId) → unsafe_read_taint k g ≡ none → ¬ OwnedIn v g k
    not_none k v p q = cc

    abbrev OnCourse : ThreadId → Process → RuntimeState → Type 0
    OnCourse w p m = Expects c (OwnedIn w g) p m g (outcomes_of (own w events))

    Finished-stays : (p : Process) (m : RuntimeState) → Finished p → advance c p m ≡ none
    unfolding advance
    Finished-stays p m f = rw (f.0, f.1)

    -- A step of a worker that is on course.
    worker_step :
        (v : ThreadId) (p p' : Process) (m m' : RuntimeState)
        → OnCourse v p m
        → advance c p m ≡ some (p', m')
        → OnCourse v p' m' × ((k : Key) → ¬ OwnedIn v g k → state_value m' k ≡ state_value m k)
    worker_step v p p' m m' x e =
        elim (Expects-GoesOn c (OwnedIn v g) p m g (outcomes_of (own v events)) x) [
          | inl f ↦ absurd (stuck (Finished-stays p m f))
          | inr (p'', m'', a, x', out) ↦
              subst
                (λ r.
                  OnCourse v r.0 r.1
                  × ((k : Key) → ¬ OwnedIn v g k → state_value r.1 k ≡ state_value m k))
                (some-eq-some (sym a ∙ e)) (x', out)
        ]
      where
        stuck : advance c p m ≡ none → ⊥
        stuck h = cc

    Step-IsOnCourse :
        (m : RuntimeState) (s t : System c) → Step c s t → IsOnCourse m s → IsOnCourse m t
    Step-IsOnCourse m s t (advances v p' m' e) (x, y) =
        let (x', out) = worker_step v (s.processes v) p' s.state m' (x v) e in
        (
          λ w. elim (Bool-cases (v ==ℕ w)) [
            | inl q ↦ rw q (subst (λ u. OnCourse u p' m') ((==ℕ_iff v w).0 q) x')
            | inr q ↦ rw q (
                Expects-Agree c (OwnedIn w g) (s.processes w) s.state m' g
                  (outcomes_of (own w events)) (λ k o. sym (out k (not_both k v w q o))) (x w))
          ],
          λ k o. out k (not_none k v o) ∙ y k o,
        )

    Steps-IsOnCourse :
        (m : RuntimeState) (s t : System c) → Steps c s t → IsOnCourse m s → IsOnCourse m t
    Steps-IsOnCourse m s t here x = x
    Steps-IsOnCourse m s t (further {t = u} steps step) x =
        Step-IsOnCourse m u t step (Steps-IsOnCourse m s u steps x)

  module _ (schedule : Schedule) (m q g : RuntimeState) (events : List Event) (s : System c)
      (authored : author_events c schedule m ≡ some (events, g)) (same : SameValues m q)
      (reached : Steps c (start c (queues_of events) q) s) where
    on_course : IsOnCourse events g q s
    on_course =
        let r : IsReplayable c m events g =
          author_events-IsReplayable c schedule m g events authored in
        Steps-IsOnCourse events g q (start c (queues_of events) q) s reached (
          λ w.
              let (replays, ends) = r.replays w q (λ k o. same k) in
              idle (own w events) refl refl refl replays ends,
          λ k o. refl,
        )

    -- A block was authored from `m` in any order of executions, and ended in `g`. Validate it from a state
    -- with the same values as `m`, each worker what it executed in authoring, in the same order, with the
    -- accesses of the workers in any order. When all workers have finished, every outcome and every value
    -- is as in authoring.
    pub validation-Reproduces :
        ((w : ThreadId) → Finished (s.processes w))
        → ((w : ThreadId) → (s.processes w).outcomes ≡ outcomes_of (own w events))
          × SameValues s.state g
    validation-Reproduces finished = (
      λ w. (ends w).0,
      λ k. elim (Option-cases (unsafe_read_taint k g)) [
        | inl u ↦ on_course.1 k u ∙ sym (same k) ∙ sym (r.unowned k u)
        | inr (w, u) ↦ sym ((ends w).1 k u)
      ],
    )
      where
        r : IsReplayable c m events g
        r = author_events-IsReplayable c schedule m g events authored

        ends :
            (w : ThreadId)
            → ((s.processes w).outcomes ≡ outcomes_of (own w events))
              × Agree (OwnedIn w g) g s.state
        ends w =
            Expects-Finished c (OwnedIn w g) (s.processes w) s.state g (outcomes_of (own w events))
              (finished w) (on_course.0 w)

    -- In such a validation no worker ever panics or waits: at every point it has finished, or it can make
    -- its next access.
    pub validation-Progresses :
        (w : ThreadId)
        → Finished (s.processes w)
          ⊎ ((p : Process) × (m' : RuntimeState) × (advance c (s.processes w) s.state
                ≡ some (p, m')))
    validation-Progresses w =
        elim (Expects-GoesOn c (OwnedIn w g) (s.processes w) s.state g (outcomes_of (own w events))
          (on_course.0 w)) [ inl f ↦ inl f | inr (p, m', e, x, out) ↦ inr (p, m', e) ]
