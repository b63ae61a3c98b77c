-- ===== src/Executor/Validation.antt =====
-- executor/src/concurrent/worker.rs, `run_validate`, by several workers at once: each works through its own
-- transactions on a `SequentialRuntime`, and their accesses to the shared state come in any order.
pub mod Expects
pub mod Reproduces
pub mod Orphans
use sonic_chain.Base.{
  ◌≡◌, Option, none, some, List, [], ◌∷◌, ◌++◌, map, ok, Outcome, returned, failed, panicked, Bool,
  ◌==ℕ◌, if◌then◌else◌, bytes_eq, nat_eq,
}
use sonic_chain.Primitives.{ThreadId, Key}
use sonic_chain.State.{unsafe_insert_genesis_value}
use sonic_chain.Runtime.{
  Prog, done, fail, abort, read, write, DispatchError, RuntimeDispatchSuccess,
  RuntimeDispatchResult, to_runtime_dispatch_result,
}
use sonic_chain.Runtime.Frame.{state_value}
use sonic_chain.Runtime.Sequential.{RuntimeState}
use sonic_chain.Staking.{Codecs}
use sonic_chain.Executor.Types.{Transaction}
use sonic_chain.Executor.Authoring.{call_of}

-- A validating worker: the rest of the call that it is in, its queue, and the outcomes so far.
pub record Process : Type 0 where
  pub current : Option (Prog Unit)
  pub queue : List Transaction
  pub outcomes : List RuntimeDispatchSuccess

abbrev pub Finished : Process → Type 0
Finished p = (p.current ≡ none) × (p.queue ≡ [])

module _ (c : Codecs) where
  -- The end of a call; a refusal would be a panic of the `expect`.
  abbrev finish_call :
      Process → RuntimeState → RuntimeDispatchResult → Option (Process × RuntimeState)
  finish_call p m (returned outcome) =
      some (record p { current = none; outcomes = p.outcomes ++ (outcome ∷ []) }, m)
  finish_call p m (failed e) = none
  finish_call p m panicked = none

  abbrev next_call : Process → RuntimeState → List Transaction → Option (Process × RuntimeState)
  next_call p m [] = none
  next_call p m (tx ∷ queue) = some (record p { current = some (call_of c tx); queue = queue }, m)

  abbrev access : Process → RuntimeState → Prog Unit → Option (Process × RuntimeState)
  access p m (done a) = finish_call p m (to_runtime_dispatch_result (returned a))
  access p m (fail e) = finish_call p m (to_runtime_dispatch_result (failed e))
  access p m abort = none
  access p m (read k next) = some (record p { current = some (next (ok (state_value m k))) }, m)
  access p m (write k v next) =
      some (record p { current = some (next (ok tt)) }, unsafe_insert_genesis_value k v m)

  abbrev resume_call : Process → RuntimeState → Option (Prog Unit) → Option (Process × RuntimeState)
  resume_call p m none = next_call p m p.queue
  resume_call p m (some call) = access p m call

  -- One access to the state, or the start or the end of a call; `none` if the worker has nothing to do, or
  -- panics.
  unfoldable pub advance : Process → RuntimeState → Option (Process × RuntimeState)
  unfolding to_runtime_dispatch_result
  advance p m = resume_call p m p.current

  pub record System : Type 0 where
    pub processes : ThreadId → Process
    pub state : RuntimeState

  abbrev pub with_process : ThreadId → Process → (ThreadId → Process) → ThreadId → Process
  with_process w p processes v = if w ==ℕ v then p else processes v

  -- Some worker advances.
  pub data Step (s : System) : System → Type 0 where
    advances :
        (w : ThreadId) (p : Process) (m : RuntimeState)
        → advance (s.processes w) s.state ≡ some (p, m)
        → Step s (record { processes = with_process w p s.processes; state = m })

  pub data Steps (s : System) : System → Type 0 where
    here : Steps s s
    further : {t u : System} → Steps s t → Step t u → Steps s u

  -- Every worker has its queue before it.
  abbrev pub start : (ThreadId → List Transaction) → RuntimeState → System
  start queues m = record {
    processes = λ w. record { current = none; queue = queues w; outcomes = [] };
    state = m;
  }
