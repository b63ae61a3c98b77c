-- ===== src/Tests/Replay.antt =====
-- A block that two workers author and validate at once, at concrete inputs.
use sonic_chain.Base.{
  ◌≡◌, refl, ap, sym, ◌∙◌, Bool, true, false, ◌&&◌, ◌||◌, Option, none, some, List, [], ◌∷◌, ◌⊎◌,
  inl, inr, Bool-cases, ◌==ℕ◌, ==ℕ_iff, bytes_eq, nat_eq, subst,
}
use sonic_chain.Base.HashMap
use sonic_chain.Primitives.{ThreadId, add_balance}
use sonic_chain.State
use sonic_chain.State.{unsafe_insert, unsafe_insert_genesis_value}
use sonic_chain.Runtime.{RuntimeDispatchSuccess}
use sonic_chain.Runtime.Concurrent
use sonic_chain.Runtime.Sequential
use sonic_chain.Runtime.Sequential.{RuntimeState}
use sonic_chain.Runtime.Dispatch.{SameValues}
use sonic_chain.Runtime.Frame.{state_value}
use sonic_chain.Runtime.Storage.{key_for}
use sonic_chain.Balances.{transfer}
use sonic_chain.Balances.Account.{reserve}
use sonic_chain.Staking.{tx_bond}
use sonic_chain.Call.{body}
use sonic_chain.Executor.Master.{execute_orphan_pool}
use sonic_chain.Executor.Authoring.{
  Schedule, Event, own, author_events, IsReplayable, author_events-IsReplayable,
}
use sonic_chain.Executor.Validation.{
  Process, Finished, advance, System, with_process, advances, Steps, here, further, start,
}
use sonic_chain.Executor.Validation.Expects.{transactions_of, outcomes_of}
use sonic_chain.Executor.Validation.Reproduces.{
  queues_of, validation-Reproduces, validation-Progresses,
}
use sonic_chain.Executor.Validation.Orphans.{RunsSame, block-Reproduces}
use sonic_chain.Tests.Fixtures.{codecs, genesis, tx_alice, tx_carol, tx_bob}

-- Worker 1 executes Alice's transfer, which makes Bob's bond an orphan at worker 2, then Carol's.
abbrev schedule : Schedule
schedule = (1, tx_alice) ∷ (2, tx_bob) ∷ (2, tx_carol) ∷ []

abbrev is_some : {A : Type 0} → Option A → Bool
is_some none = false
is_some (some a) = true

abbrev value_or : {A : Type 0} → A → Option A → A
value_or a none = a
value_or a (some b) = b

some_value :
    {A : Type 0} (a : A) (found : Option A) → is_some found ≡ true → found ≡ some (value_or a found)
some_value a none e = cc
some_value a (some b) e = refl

abbrev authored : List Event × RuntimeState
authored = value_or ([], []) (author_events codecs schedule genesis)

schedule_runs : is_some (author_events codecs schedule genesis) ≡ true
unfolding author_events key_for Concurrent.dispatch body transfer Concurrent.read HashMap.get
    State.read Concurrent.write HashMap.insert tx_bond unsafe_insert
schedule_runs = refl

authored_by_schedule : author_events codecs schedule genesis ≡ some (authored.0, authored.1)
authored_by_schedule = some_value ([], []) (author_events codecs schedule genesis) schedule_runs

author_events-IsReplayable_example : IsReplayable codecs genesis authored.0 authored.1
author_events-IsReplayable_example =
    author_events-IsReplayable codecs schedule genesis authored.1 authored.0 authored_by_schedule

-- The workers advance in this order, one without anything to do not at all.
abbrev drive_next :
    ThreadId
    → (System codecs → System codecs)
    → System codecs
    → Option (Process × RuntimeState)
    → System codecs
drive_next w next s none = next s
drive_next w next s (some (p, m)) =
    next (record { processes = with_process codecs w p s.processes; state = m })

abbrev drive : List ThreadId → System codecs → System codecs
drive [] s = s
drive (w ∷ ws) s = drive_next w (drive ws) s (advance codecs (s.processes w) s.state)

drive-Steps :
    (ws : List ThreadId) (s t : System codecs) → Steps codecs s t → Steps codecs s (drive ws t)
drive-Steps [] s t steps = steps
drive-Steps (w ∷ ws) s t steps =
    go (advance codecs (t.processes w) t.state) refl (λ u. drive-Steps ws s u)
  where
    go :
        (found : Option (Process × RuntimeState))
        → advance codecs (t.processes w) t.state ≡ found
        → ((u : System codecs) → Steps codecs s u → Steps codecs s (drive ws u))
        → Steps codecs s (drive_next w (drive ws) t found)
    go none e next = next t steps
    go (some (p, m)) e next = next _ (further steps (advances w p m e))

abbrev is_one_of : ThreadId → List ThreadId → Bool
is_one_of v [] = false
is_one_of v (w ∷ ws) = (w ==ℕ v) || is_one_of v ws

drive_others :
    (ws : List ThreadId) (s : System codecs) (v : ThreadId)
    → is_one_of v ws ≡ false
    → (drive ws s).processes v ≡ s.processes v
drive_others [] s v e = refl
drive_others (w ∷ ws) s v e = elim (Bool-cases (w ==ℕ v)) [
  | inl q ↦ cc
  | inr q ↦ go (advance codecs (s.processes w) s.state) q (λ t. drive_others ws t v (rw q at e))
]
  where
    go :
        (found : Option (Process × RuntimeState))
        → (w ==ℕ v) ≡ false
        → ((t : System codecs) → (drive ws t).processes v ≡ t.processes v)
        → (drive_next w (drive ws) s found).processes v ≡ s.processes v
    go none q next = next s
    go (some (p, m)) q next = next _ ∙ rw q

-- Both workers start before one of them has made an access; then they take turns.
abbrev turns : List ThreadId
turns = 1 ∷ 2 ∷ 1 ∷ 2 ∷ 2 ∷ 1 ∷ 1 ∷ 2 ∷ 1 ∷ 2 ∷ 1 ∷ 2 ∷ 1 ∷ 2 ∷ 1 ∷ 2 ∷ []

abbrev begun : System codecs
begun = start codecs (queues_of codecs authored.0) genesis

abbrev validated : System codecs
validated = drive turns begun

validated-Steps : Steps codecs begun validated
validated-Steps = drive-Steps turns begun begun here

abbrev workers_within : List ThreadId → List Event → Bool
workers_within ws [] = true
workers_within ws (e ∷ events) = is_one_of e.worker ws && workers_within ws events

own_others :
    (ws : List ThreadId) (events : List Event) (v : ThreadId)
    → workers_within ws events ≡ true
    → is_one_of v ws ≡ false
    → own v events ≡ []
own_others ws [] v h n = refl
own_others ws (e ∷ events) v h n = elim (Bool-cases (e.worker ==ℕ v)) [
  | inl q ↦ absurd (
      clash (is_one_of e.worker ws) (workers_within ws events) h
        (subst (λ u. is_one_of u ws ≡ false) (sym ((==ℕ_iff e.worker v).0 q)) n))
  | inr q ↦
      rw q
        (own_others ws events v (and_right (is_one_of e.worker ws) (workers_within ws events) h) n)
]
  where
    clash : (a b : Bool) → (a && b) ≡ true → a ≡ false → ⊥
    clash false b h n = cc
    clash true b h n = cc

    and_right : (a b : Bool) → (a && b) ≡ true → b ≡ true
    and_right false b h = cc
    and_right true b h = h

authored_workers : workers_within (1 ∷ 2 ∷ []) authored.0 ≡ true
unfolding author_events key_for Concurrent.dispatch body transfer Concurrent.read HashMap.get
    State.read Concurrent.write HashMap.insert tx_bond unsafe_insert
authored_workers = refl

one-Finished : Finished (validated.processes 1)
unfolding advance author_events key_for Concurrent.dispatch body transfer Concurrent.read
    HashMap.get State.read Concurrent.write HashMap.insert tx_bond unsafe_insert
    unsafe_insert_genesis_value state_value
one-Finished = (refl, refl)

two-Finished : Finished (validated.processes 2)
unfolding advance author_events key_for Concurrent.dispatch body transfer Concurrent.read
    HashMap.get State.read Concurrent.write HashMap.insert tx_bond unsafe_insert
    unsafe_insert_genesis_value state_value
two-Finished = (refl, refl)

-- The others have never had anything to do.
others-Finished :
    (v : ThreadId)
    → is_one_of v (1 ∷ 2 ∷ []) ≡ false
    → is_one_of v turns ≡ false
    → Finished (validated.processes v)
others-Finished v n idle =
    let e : validated.processes v ≡ begun.processes v = drive_others turns begun v idle in
    let empty : own v authored.0 ≡ [] = own_others (1 ∷ 2 ∷ []) authored.0 v authored_workers n in
    (ap (λ p. p.current) e, ap (λ p. p.queue) e ∙ ap transactions_of empty)

validated-Finished : (v : ThreadId) → Finished (validated.processes v)
validated-Finished v = elim (Bool-cases (1 ==ℕ v)) [
  | inl q ↦ subst (λ u. Finished (validated.processes u)) ((==ℕ_iff 1 v).0 q) one-Finished
  | inr q ↦ elim (Bool-cases (2 ==ℕ v)) [
    | inl r ↦ subst (λ u. Finished (validated.processes u)) ((==ℕ_iff 2 v).0 r) two-Finished
    | inr r ↦ others-Finished v (rw (q, r)) (rw (q, r))
  ]
]

validation-Reproduces_example :
    ((w : ThreadId) → (validated.processes w).outcomes ≡ outcomes_of (own w authored.0))
    × SameValues validated.state authored.1
validation-Reproduces_example =
    validation-Reproduces codecs schedule genesis genesis authored.1 authored.0 validated
      authored_by_schedule (λ k. refl) validated-Steps validated-Finished

-- After the first six turns worker 2 has something to do.
abbrev halfway : System codecs
halfway = drive (1 ∷ 2 ∷ 1 ∷ 2 ∷ 2 ∷ 1 ∷ []) begun

validation-Progresses_example :
    Finished (halfway.processes 2)
    ⊎ ((p : Process) × (m : RuntimeState) × (advance codecs (halfway.processes 2) halfway.state
          ≡ some (p, m)))
validation-Progresses_example =
    validation-Progresses codecs schedule genesis genesis authored.1 authored.0 halfway
      authored_by_schedule (λ k. refl) (drive-Steps (1 ∷ 2 ∷ 1 ∷ 2 ∷ 2 ∷ 1 ∷ []) begun begun here) 2

-- The master then executes Bob's bond.
abbrev orphaned : List RuntimeDispatchSuccess × RuntimeState
orphaned = value_or ([], []) (execute_orphan_pool codecs 0 (tx_bob ∷ []) authored.1)

orphan_runs : is_some (execute_orphan_pool codecs 0 (tx_bob ∷ []) authored.1) ≡ true
unfolding execute_orphan_pool Sequential.dispatch author_events key_for Concurrent.dispatch body
    transfer Concurrent.read HashMap.get State.read Concurrent.write HashMap.insert tx_bond
    unsafe_insert unsafe_insert_genesis_value Sequential.read Sequential.write reserve add_balance
orphan_runs = refl

block-Reproduces_example : RunsSame codecs 0 (tx_bob ∷ []) validated.state orphaned.0 orphaned.1
block-Reproduces_example =
    block-Reproduces codecs 0 schedule genesis genesis authored.1 orphaned.1 authored.0
      (tx_bob ∷ []) orphaned.0 validated authored_by_schedule
      (some_value ([], []) (execute_orphan_pool codecs 0 (tx_bob ∷ []) authored.1) orphan_runs)
      (λ k. refl) validated-Steps validated-Finished
