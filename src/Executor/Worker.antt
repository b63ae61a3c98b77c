-- ===== src/Executor/Worker.antt =====
-- executor/src/concurrent/worker.rs: how a worker executes a transaction or passes it on, and its loops
-- over the messages that it receives. What is sent is listed in order.
pub mod Laws
pub mod Counts
use sonic_chain.Base.{
  ℕ, ◌+◌, ◌≡◌, refl, Bool, true, false, Option, none, some, List, [], ◌∷◌, ◌++◌, ◌==ℕ◌,
  if◌then◌else◌, Outcome, returned, failed, panicked,
}
use sonic_chain.Primitives.{ThreadId}
use sonic_chain.Runtime.{RuntimeDispatchSuccess, RuntimeDispatchResult, tainted_by}
use sonic_chain.Runtime.Sequential
use sonic_chain.Runtime.Sequential.{RuntimeState}
use sonic_chain.Runtime.Concurrent
use sonic_chain.Staking.{Codecs}
use sonic_chain.Call.{body}
use sonic_chain.Executor.Types.{
  Transaction, ExecutionStatus, initial, forwarded, TransactionId, Message, MessagePayload,
  TaskType, authoring, validating, transaction, transaction_distribution_done, authoring_report,
  validation_report, worker_executed, worker_orphan, task, task_done, terminate,
}

pub data ExecutionOutcome : Type 0 where
  executed : RuntimeDispatchSuccess → ExecutionOutcome
  forwarded_to : ThreadId → ExecutionOutcome
  forwarded_to_master : ExecutionOutcome

pub data Sent : Type 0 where
  to_master : MessagePayload → Sent
  to_worker : ThreadId → MessagePayload → Sent

-- A loop ends, waits for a message that is not there, or panics.
pub data Progress (A : Type 0) : Type 0 where
  finished : A → Progress A
  blocked : Progress A
  crashed : Progress A

abbrev pub contains : ThreadId → List ThreadId → Bool
contains t [] = false
contains t (x ∷ xs) = let rest = contains t xs in if x ==ℕ t then true else rest

-- What `execute_or_forward` has done, short of a panic.
pub record Execution : Type 0 where
  pub outcome : ExecutionOutcome
  pub sent : List Sent
  pub state : RuntimeState

-- The counters of `deplete_master_queue`, what was sent, and the state.
pub record Tally : Type 0 where
  pub executed_count : ℕ
  pub forwarded_count : ℕ
  pub outcomes : List RuntimeDispatchSuccess
  pub sent : List Sent
  pub state : RuntimeState

-- What the second loop of `run_author` receives, from the master or from another worker.
pub data Incoming : Type 0 where
  from_master from_other : MessagePayload → Incoming

-- What the loop has sent, and the state.
pub record Served : Type 0 where
  pub sent : List Sent
  pub state : RuntimeState

-- The outcomes that `run_validate` collects, and the state.
pub record Validation : Type 0 where
  pub outcomes : List RuntimeDispatchSuccess
  pub sent : List Sent
  pub state : RuntimeState

-- A worker: its id, and the workers that it has a channel to.
module _ (c : Codecs) (id : ThreadId) (to_others : List ThreadId) where
  unfoldable pub execute_transaction :
      Transaction → RuntimeState → RuntimeDispatchResult × RuntimeState
  execute_transaction tx m = Concurrent.dispatch id (body c tx.function tx.origin) m

  abbrev forward_to_master : TransactionId → RuntimeState → Option Execution
  forward_to_master tid m = some (record {
    outcome = forwarded_to_master;
    sent = to_master (worker_orphan tid) ∷ [];
    state = m;
  })

  abbrev forward_to_worker : Transaction → ThreadId → RuntimeState → Option Execution
  forward_to_worker tx wid m =
      if contains wid to_others
      then some (record {
        outcome = forwarded_to wid;
        sent = to_worker wid (transaction tx) ∷ [];
        state = m;
      })
      else none

  abbrev report_execution : ExecutionStatus → TransactionId → List Sent
  report_execution forwarded tid = to_master (worker_executed tid) ∷ []
  report_execution initial tid = []

  unfoldable route_tainted :
      ExecutionStatus → Bool → Transaction → ThreadId → RuntimeState → Option Execution
  route_tainted initial true tx by_whom m = forward_to_master tx.id m
  route_tainted initial false tx by_whom m = forward_to_worker tx by_whom m
  route_tainted forwarded corrupt tx by_whom m = forward_to_master tx.id m

  unfoldable pub route : Transaction → RuntimeDispatchResult × RuntimeState → Option Execution
  unfolding route_tainted
  route tx (failed (tainted_by by_whom corrupt), m) =
      route_tainted tx.exec_status corrupt tx by_whom m
  route tx (returned dispatched, m) = some (record {
    outcome = executed dispatched;
    sent = report_execution tx.exec_status tx.id;
    state = m;
  })
  route tx (panicked, m) = none

  unfoldable pub execute_or_forward : Transaction → RuntimeState → Option Execution
  unfolding execute_transaction route
  execute_or_forward tx m = route tx (execute_transaction tx m)

  unfoldable pub count_outcome : Tally → Execution → Tally
  count_outcome t e = elim e.outcome [
    | executed inner ↦ record {
      executed_count = t.executed_count + 1;
      forwarded_count = t.forwarded_count;
      outcomes = t.outcomes ++ (inner ∷ []);
      sent = t.sent ++ e.sent;
      state = e.state;
    }
    | forwarded_to _ ↦ record t {
      forwarded_count = t.forwarded_count + 1;
      sent = t.sent ++ e.sent;
      state = e.state;
    }
    | forwarded_to_master ↦ record t {
      forwarded_count = t.forwarded_count + 1;
      sent = t.sent ++ e.sent;
      state = e.state;
    }
  ]

  unfoldable pub send_report : Tally → Tally
  send_report t = record t {
    sent = t.sent ++ (to_master (authoring_report t.executed_count t.forwarded_count) ∷ []);
  }

  abbrev count_or_crash : (Tally → Progress Tally) → Tally → Option Execution → Progress Tally
  count_or_crash next t none = crashed
  count_or_crash next t (some e) = next (count_outcome t e)

  -- `deplete_master_queue`, over the payloads that arrive from the master.
  unfoldable pub deplete_master_queue : Tally → List MessagePayload → Progress Tally
  unfolding execute_or_forward count_outcome send_report
  deplete_master_queue t [] = blocked
  deplete_master_queue t (transaction tx ∷ queue) =
      count_or_crash (λ t'. deplete_master_queue t' queue) t (execute_or_forward tx t.state)
  deplete_master_queue t (transaction_distribution_done ∷ queue) = finished (send_report t)
  deplete_master_queue t (_ ∷ queue) = crashed

  abbrev serve_or_crash : (Served → Progress Served) → Served → Option Execution → Progress Served
  serve_or_crash next s none = crashed
  serve_or_crash next s (some e) = next (record { sent = s.sent ++ e.sent; state = e.state })

  -- The second loop of `run_author`: transactions of others, marked as forwarded, until the task is done.
  unfoldable pub serve_others : Served → List Incoming → Progress Served
  unfolding execute_or_forward
  serve_others s [] = blocked
  serve_others s (from_master task_done ∷ queue) = finished s
  serve_others s (from_master _ ∷ queue) = crashed
  serve_others s (from_other (transaction tx) ∷ queue) =
      serve_or_crash (λ s'. serve_others s' queue) s
        (execute_or_forward (record tx { exec_status = forwarded }) s.state)
  serve_others s (from_other _ ∷ queue) = crashed

  abbrev then_serve : Progress Tally → List Incoming → Progress Served
  then_serve (finished t) queue = serve_others (record { sent = t.sent; state = t.state }) queue
  then_serve blocked queue = blocked
  then_serve crashed queue = crashed

  -- `run_author`: the transactions of the master, then those of the other workers.
  unfoldable pub run_author : RuntimeState → List MessagePayload → List Incoming → Progress Served
  unfolding deplete_master_queue serve_others
  run_author m queue others =
      then_serve
        (deplete_master_queue
          (record { executed_count = 0; forwarded_count = 0; outcomes = []; sent = []; state = m })
          queue)
        others

  abbrev validate_or_crash :
      (Validation → Progress Validation)
      → Validation
      → RuntimeDispatchResult × RuntimeState
      → Progress Validation
  validate_or_crash next v (returned outcome, m) =
      next (record v { outcomes = v.outcomes ++ (outcome ∷ []); state = m })
  validate_or_crash next v (failed _, m) = crashed
  validate_or_crash next v (panicked, m) = crashed

  -- `run_validate`: every transaction runs on the sequential runtime, then the report is sent.
  unfoldable pub run_validate : Validation → List MessagePayload → Progress Validation
  run_validate v [] = blocked
  run_validate v (transaction tx ∷ queue) =
      validate_or_crash (λ v'. run_validate v' queue) v
        (Sequential.dispatch id (body c tx.function tx.origin) v.state)
  run_validate v (transaction_distribution_done ∷ queue) =
      finished (record v { sent = v.sent ++ (to_master validation_report ∷ []) })
  run_validate v (_ ∷ queue) = crashed

pub data Job : Type 0 where
  author validate stop unexpected : Job

-- What `run` does on the message that wakes it.
unfoldable pub next_job : MessagePayload → Job
next_job (task authoring) = author
next_job (task validating) = validate
next_job terminate = stop
next_job _ = unexpected
