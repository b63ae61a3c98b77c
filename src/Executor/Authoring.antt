-- ===== src/Executor/Authoring.antt =====
-- executor/src/concurrent: what the workers execute in the authoring of a block, and that each worker's
-- share of it depends on that worker's keys alone.
use sonic_chain.Base.{
  ◌≡◌, refl, ap, sym, ◌∙◌, Option, none, some, List, [], ◌∷◌, returned, failed, panicked, inl, inr,
  Bool, false, subst, some-eq-some, bytes_eq, nat_eq, ◌==ℕ◌, ==ℕ_iff, if◌then◌else◌, Bool-cases,
}
use sonic_chain.Primitives.{ThreadId, Key}
use sonic_chain.State.{unsafe_read_taint}
use sonic_chain.Runtime.{Prog, RuntimeDispatchSuccess, RuntimeDispatchResult, tainted_by, success}
use sonic_chain.Runtime.Frame.{state_value}
use sonic_chain.Runtime.Sequential
use sonic_chain.Runtime.Sequential.{RuntimeState}
use sonic_chain.Runtime.Concurrent
use sonic_chain.Runtime.Dispatch.{SameValues, dispatch-Atomic}
use sonic_chain.Runtime.Footprint.{Within, Agree}
use sonic_chain.Runtime.Owned.{OwnedIn, dispatch-Claims, executed-Agree, executed-Outside}
use sonic_chain.Staking.{Codecs}
use sonic_chain.Call.{body}
use sonic_chain.Call.Discipline.{body-IsDisciplined, body-ChecksFirst}
use sonic_chain.Executor.Types.{Transaction}
use sonic_chain.Executor.Worker.{execute_transaction}

-- A schedule: who executes which transaction, in the order in which the executions take place. An
-- execution is one step, as if no other worker accessed the state while it lasts.
abbrev pub Schedule : Type 0
Schedule = List (ThreadId × Transaction)

-- An execution that was not refused.
pub record Event : Type 0 where
  pub worker : ThreadId
  pub tx : Transaction
  pub outcome : RuntimeDispatchSuccess

-- The events of one worker, in order.
abbrev pub own : ThreadId → List Event → List Event
own w [] = []
own w (e ∷ events) = if e.worker ==ℕ w then e ∷ own w events else own w events

module _ (c : Codecs) where
  abbrev pub call_of : Transaction → Prog Unit
  call_of tx = body c tx.function tx.origin

  abbrev log_event : Event → Option (List Event × RuntimeState) → Option (List Event × RuntimeState)
  log_event e none = none
  log_event e (some (events, m)) = some (e ∷ events, m)

  abbrev log_step :
      ThreadId
      → Transaction
      → (RuntimeState → Option (List Event × RuntimeState))
      → RuntimeDispatchResult × RuntimeState
      → Option (List Event × RuntimeState)
  log_step w tx next (returned outcome, m) =
      log_event (record { worker = w; tx = tx; outcome = outcome }) (next m)
  log_step w tx next (failed _, m) = next m
  log_step w tx next (panicked, m) = none

  -- The events of a schedule, and the state after it; `none` is a panic.
  unfoldable pub author_events : Schedule → RuntimeState → Option (List Event × RuntimeState)
  unfolding execute_transaction
  author_events [] m = some ([], m)
  author_events ((w, tx) ∷ schedule) m =
      log_step w tx (author_events schedule) (execute_transaction c w [] tx m)

  -- On a sequential runtime the events have the outcomes that they had, and access keys in `P` only.
  abbrev pub Replays : (Key → Type 0) → List Event → RuntimeState → Type 0
  Replays P [] q = Unit
  Replays P (e ∷ events) q =
      Within P (call_of e.tx) q
      × ((Sequential.dispatch e.worker (call_of e.tx) q).0 ≡ returned e.outcome)
      × Replays P events (Sequential.dispatch e.worker (call_of e.tx) q).1

  abbrev pub after : List Event → RuntimeState → RuntimeState
  after [] q = q
  after (e ∷ events) q = after events (Sequential.dispatch e.worker (call_of e.tx) q).1

  -- What authoring from `m` to `m'` is to each worker: its events replay on its keys, from any state that
  -- agrees on them, and to the values that they have in the end. Keys of nobody have kept their values.
  pub record IsReplayable (m : RuntimeState) (events : List Event) (m' : RuntimeState)
      : Type 0 where
    pub claims :
        (k : Key) (o : ThreadId) → unsafe_read_taint k m ≡ some o → unsafe_read_taint k m' ≡ some o
    pub unowned : (k : Key) → unsafe_read_taint k m' ≡ none → state_value m' k ≡ state_value m k
    pub replays :
        (w : ThreadId) (q : RuntimeState)
        → Agree (OwnedIn w m') m q
        → Replays (OwnedIn w m') (own w events) q × Agree (OwnedIn w m') m' (after (own w events) q)

  module _ (v : ThreadId) (tx : Transaction) (m : RuntimeState) where
    abbrev m1 : RuntimeState
    m1 = (Concurrent.dispatch v (call_of tx) m).1

    claimed :
        (k : Key) (o : ThreadId) → unsafe_read_taint k m ≡ some o → unsafe_read_taint k m1 ≡ some o
    claimed k o u =
        dispatch-Claims v (call_of tx) m k o (body-IsDisciplined c tx.function tx.origin) u

    -- A refusal changes no value.
    refused_step :
        (events : List Event) (m' : RuntimeState)
        → SameValues m1 m
        → IsReplayable m1 events m'
        → IsReplayable m events m'
    refused_step events m' same r = record {
      claims = λ k o u. r.claims k o (claimed k o u);
      unowned = λ k u. r.unowned k u ∙ same k;
      replays = λ w q a. r.replays w q (λ k o. same k ∙ a k o);
    }

    module _ (outcome : RuntimeDispatchSuccess)
        (executed : (Concurrent.dispatch v (call_of tx) m).0 ≡ returned outcome)
        (events : List Event) (m' : RuntimeState) (r : IsReplayable m1 events m') where
      -- What belongs to nobody or to another worker in the end has not been changed.
      untouched : (k : Key) → ¬ OwnedIn v m' k → state_value m1 k ≡ state_value m k
      untouched k n =
          executed-Outside v (call_of tx) m outcome (body-IsDisciplined c tx.function tx.origin)
            (body-ChecksFirst c tx.function tx.origin) executed k (λ o. n (r.claims k v o))

      executed-Replays :
          (w : ThreadId) (q : RuntimeState)
          → Agree (OwnedIn w m') m q
          → Replays
              (OwnedIn w m')
              (own w (record { worker = v; tx = tx; outcome = outcome } ∷ events))
              q
            × Agree
                (OwnedIn w m')
                m'
                (after (own w (record { worker = v; tx = tx; outcome = outcome } ∷ events)) q)
      executed-Replays w q a = elim (Bool-cases (v ==ℕ w)) [
        | inl e ↦
            let same : v ≡ w = (==ℕ_iff v w).0 e in
            let (inside, o, b) =
              executed-Agree v (call_of tx) m outcome (body-IsDisciplined c tx.function tx.origin)
                (body-ChecksFirst c tx.function tx.origin) executed (OwnedIn w m') q
                (λ k u. r.claims k v u ∙ ap some same) a in
            let (rest, b') = r.replays w (Sequential.dispatch v (call_of tx) q).1 b in
            rw e ((inside, o, rest), b')
        | inr e ↦ rw e (r.replays w q (λ k u. untouched k (λ o. other e (sym o ∙ u)) ∙ a k u))
      ]
        where
          other : (v ==ℕ w) ≡ false → ◌≡◌ {A = Option ThreadId} (some v) (some w) → ⊥
          other e p = cc ((==ℕ_iff v w).1 (cc))

      executed_step : IsReplayable m (record { worker = v; tx = tx; outcome = outcome } ∷ events) m'
      executed_step = record {
        claims = λ k o u. r.claims k o (claimed k o u);
        unowned = λ k u. r.unowned k u ∙ untouched k (λ o. absurd (free (sym u ∙ o)));
        replays = executed-Replays;
      }
        where
          free : ◌≡◌ {A = Option ThreadId} none (some v) → ⊥
          free p = cc

  -- However the executions of several workers are ordered: if none panics, what each worker has executed
  -- replays on a sequential runtime, with the same outcomes, from any state that agrees with the first one
  -- on the keys that the worker owns in the end; it accesses no other key, and leaves the same values in
  -- them. A key that nobody owns in the end has kept its value.
  pub author_events-IsReplayable :
      (schedule : Schedule) (m m' : RuntimeState) (events : List Event)
      → author_events schedule m ≡ some (events, m')
      → IsReplayable m events m'
  unfolding author_events execute_transaction
  author_events-IsReplayable [] m m' events h =
      subst (λ r. IsReplayable m r.0 r.1) (some-eq-some h)
        (record { claims = λ k o u. u; unowned = λ k u. refl; replays = λ w q a. (tt, a) })
  author_events-IsReplayable ((v, tx) ∷ schedule) m m' events h =
      by_result (Concurrent.dispatch v (call_of tx) m) refl
        (λ n k rest. author_events-IsReplayable schedule n k rest) h
    where
      by_rest :
          (outcome : RuntimeDispatchSuccess) (n : RuntimeState)
          (found : Option (List Event × RuntimeState))
          → Concurrent.dispatch v (call_of tx) m ≡ (returned outcome, n)
          → ((k : RuntimeState) (rest : List Event)
              → found ≡ some (rest, k)
              → IsReplayable n rest k)
          → log_event (record { worker = v; tx = tx; outcome = outcome }) found ≡ some (events, m')
          → IsReplayable m events m'
      by_rest outcome n none d ih h = cc
      by_rest outcome n (some (rest, k)) d ih h =
          subst (λ r. IsReplayable m r.0 r.1) (some-eq-some h)
            (executed_step v tx m outcome (ap (λ r. r.0) d) rest k
              (subst (λ x. IsReplayable x rest k) (sym (ap (λ r. r.1) d)) (ih k rest refl)))

      unsuccessful :
          {t : ThreadId} {b : Bool}
          → ◌≡◌ {A = RuntimeDispatchResult} (failed (tainted_by t b)) (returned success)
          → ⊥
      unsuccessful e = cc

      by_result :
          (r : RuntimeDispatchResult × RuntimeState)
          → Concurrent.dispatch v (call_of tx) m ≡ r
          → ((n k : RuntimeState) (rest : List Event)
              → author_events schedule n ≡ some (rest, k)
              → IsReplayable n rest k)
          → log_step v tx (author_events schedule) r ≡ some (events, m')
          → IsReplayable m events m'
      by_result (panicked, n) d ih h = cc
      by_result (failed (tainted_by t b), n) d ih h =
          refused_step v tx m events m'
            (dispatch-Atomic v (call_of tx) m (λ e. unsuccessful (sym (ap (λ r. r.0) d) ∙ e)))
            (subst (λ x. IsReplayable x events m') (sym (ap (λ r. r.1) d)) (ih n m' events h))
      by_result (returned outcome, n) d ih h =
          by_rest outcome n (author_events schedule n) d (ih n) h
