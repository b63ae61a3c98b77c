-- ===== src/Executor/Master.antt =====
-- executor/src/concurrent/master.rs: the phases of the master.
pub mod Laws
pub mod Counts
pub mod Settled
pub mod Assign
use sonic_chain.Base.{
  ℕ, ◌+◌, ◌≡◌, refl, Bool, true, false, not, ◌&&◌, Option, none, some, List, [], ◌∷◌, ◌++◌, ◌==ℕ◌,
  if◌then◌else◌, Outcome, returned, failed, panicked, length,
}
use sonic_chain.Primitives.{ThreadId}
use sonic_chain.Runtime.{RuntimeDispatchSuccess, RuntimeDispatchResult}
use sonic_chain.Runtime.Sequential
use sonic_chain.Runtime.Sequential.{RuntimeState}
use sonic_chain.Staking.{Codecs}
use sonic_chain.Call.{body}
use sonic_chain.Executor.Types.{
  Transaction, ExecutionTag, done, orphan, not_executed, TransactionId, Message, MessagePayload,
  transaction, set_orphan, set_done, Block, transaction_distribution_done, authoring_report,
  validation_report, worker_executed, worker_orphan, task_done, terminate,
}
use sonic_chain.Executor.Pool
use sonic_chain.Executor.Sequential.{prepend}
use sonic_chain.Executor.RoundRobin.{distribute}
use sonic_chain.Executor.Worker.{contains, Progress, finished, blocked, crashed}

-- The state of `collection_phase`: the two pools and its counters.
pub record Collection : Type 0 where
  pub tx_pool : List Transaction
  pub orphan_pool : List Transaction
  pub executed_workers : ℕ
  pub executed_local : ℕ
  pub forwarded : ℕ
  pub reported : ℕ

abbrev pub has_id : TransactionId → Transaction → Bool
has_id tid t = t.id ==ℕ tid

module _ (verify : Transaction → Bool) where
  abbrev pub collect_orphan :
      Collection → Option (Option (Transaction × List Transaction)) → Option Collection
  collect_orphan s none = none
  collect_orphan s (some none) = none
  collect_orphan s (some (some (tx, pool))) =
      some (record s { tx_pool = pool; orphan_pool = s.orphan_pool ++ (set_orphan tx ∷ []) })

  abbrev pub push_executed : Collection → Option (List Transaction) → Option Collection
  push_executed s none = none
  push_executed s (some pool) =
      some (record s { tx_pool = pool; executed_local = s.executed_local + 1 })

  -- The transaction must be designated to another worker. It goes to the end of the pool.
  unfoldable pub retag :
      Collection → ThreadId → Transaction → List Transaction → ExecutionTag → Option Collection
  retag s worker t pool (done initial_worker) =
      if worker ==ℕ initial_worker
      then none
      else push_executed s (Pool.push_back verify pool (set_done worker t))
  retag s worker t pool orphan = none
  retag s worker t pool not_executed = none

  abbrev pub collect_executed :
      Collection → ThreadId → Option (Option (Transaction × List Transaction)) → Option Collection
  collect_executed s worker none = none
  collect_executed s worker (some none) = none
  collect_executed s worker (some (some (t, pool))) = retag s worker t pool t.tag

  -- One message of `collection_phase`; `none` is a panic. The search by `position` with `remove_at` is
  -- what the pool's `remove` does.
  unfoldable pub collect_payload : Collection → ThreadId → MessagePayload → Option Collection
  unfolding retag Pool.push_back Pool.remove
  collect_payload s worker (authoring_report e f) = some (record s {
    executed_workers = s.executed_workers + e;
    forwarded = s.forwarded + f;
    reported = s.reported + 1;
  })
  collect_payload s worker (worker_orphan tid) =
      collect_orphan s (Pool.remove (has_id tid) s.tx_pool)
  collect_payload s worker (worker_executed tid) =
      collect_executed s worker (Pool.remove (has_id tid) s.tx_pool)
  collect_payload s worker _ = none

  -- All workers have reported, and every forwarded transaction is accounted for.
  unfoldable pub collection_done : ℕ → Collection → Bool
  collection_done workers_len s =
      (s.reported ==ℕ workers_len) && (s.forwarded ==ℕ (s.executed_local + length s.orphan_pool))

  abbrev pub collect_next :
      (Collection → Progress Collection) → Option Collection → Progress Collection
  collect_next next none = crashed
  collect_next next (some s) = next s

  -- `collection_phase`, over the messages in their order of arrival, with the test for the end made
  -- whenever no message is being handled. The debug assertion on the totals is left out.
  unfoldable pub collection_phase : ℕ → Collection → List Message → Progress Collection
  unfolding collect_payload collection_done
  collection_phase workers_len s [] = if collection_done workers_len s then finished s else blocked
  collection_phase workers_len s (msg ∷ msgs) =
      let rest =
        collect_next (λ s'. collection_phase workers_len s' msgs)
          (collect_payload s msg.from msg.payload) in
      if collection_done workers_len s then finished s else rest

-- The tag of a distributed transaction names its worker, who must have a channel.
abbrev pub send_designated :
    List ThreadId
    → Transaction
    → ExecutionTag
    → Option (List (ThreadId × MessagePayload))
    → Option (List (ThreadId × MessagePayload))
send_designated workers tx tag none = none
send_designated workers tx (done w) (some rest) =
    if contains w workers then some ((w, transaction tx) ∷ rest) else none
send_designated workers tx _ (some rest) = none

unfoldable pub send_all :
    List ThreadId → List Transaction → Option (List (ThreadId × MessagePayload))
send_all workers [] = some []
send_all workers (tx ∷ pool) = send_designated workers tx tx.tag (send_all workers pool)

-- `broadcast`
unfoldable pub broadcast : List ThreadId → MessagePayload → List (ThreadId × MessagePayload)
broadcast [] message = []
broadcast (w ∷ workers) message = (w, message) ∷ broadcast workers message

abbrev pub finish_phase :
    List ThreadId
    → List Transaction
    → Option (List (ThreadId × MessagePayload))
    → Option (List Transaction × List (ThreadId × MessagePayload))
finish_phase workers pool none = none
finish_phase workers pool (some sent) =
    some (pool, sent ++ broadcast workers transaction_distribution_done)

abbrev pub send_pool :
    List ThreadId
    → Option (List Transaction)
    → Option (List Transaction × List (ThreadId × MessagePayload))
send_pool workers none = none
send_pool workers (some pool) = finish_phase workers pool (send_all workers pool)

-- `concurrent_phase` with the round-robin distribution: the pool after it, and what is sent.
unfoldable pub concurrent_phase :
    List ThreadId → List Transaction → Option (List Transaction × List (ThreadId × MessagePayload))
unfolding send_all broadcast distribute
concurrent_phase workers pool = send_pool workers (distribute workers pool)

module _ (c : Codecs) (id : ThreadId) where
  abbrev pub next_orphan :
      (RuntimeState → Option (List RuntimeDispatchSuccess × RuntimeState))
      → RuntimeDispatchResult × RuntimeState
      → Option (List RuntimeDispatchSuccess × RuntimeState)
  next_orphan next (returned outcome, m) = prepend outcome (next m)
  next_orphan next (failed _, m) = none
  next_orphan next (panicked, m) = none

  -- `execute_orphan_pool`: the outcomes in order, and the state. A taint would be a panic.
  unfoldable pub execute_orphan_pool :
      List Transaction → RuntimeState → Option (List RuntimeDispatchSuccess × RuntimeState)
  execute_orphan_pool [] m = some ([], m)
  execute_orphan_pool (tx ∷ orphans) m =
      next_orphan (execute_orphan_pool orphans)
        (Sequential.dispatch id (body c tx.function tx.origin) m)

-- What `validate_block` sends, and the orphans that it keeps, from the tags of the block.
pub record Assignment : Type 0 where
  pub sent : List (ThreadId × MessagePayload)
  pub orphans : List Transaction

abbrev pub assign_tagged :
    List ThreadId → Transaction → ExecutionTag → Option Assignment → Option Assignment
assign_tagged workers tx tag none = none
assign_tagged workers tx (done owner) (some a) =
    if contains owner workers
    then some (record a { sent = (owner, transaction tx) ∷ a.sent })
    else none
assign_tagged workers tx orphan (some a) = some (record a { orphans = tx ∷ a.orphans })
assign_tagged workers tx not_executed (some a) = none

unfoldable pub assign_block : List ThreadId → List Transaction → Option Assignment
assign_block workers [] = some (record { sent = []; orphans = [] })
assign_block workers (tx ∷ txs) = assign_tagged workers tx tx.tag (assign_block workers txs)

-- The wait of `validate_block` for as many reports as there are workers.
unfoldable pub await_reports : ℕ → ℕ → List MessagePayload → Progress Unit
await_reports workers_len workers_done [] =
    if workers_done ==ℕ workers_len then finished tt else blocked
await_reports workers_len workers_done (validation_report ∷ msgs) =
    let rest = await_reports workers_len (workers_done + 1) msgs in
    if workers_done ==ℕ workers_len then finished tt else rest
await_reports workers_len workers_done (_ ∷ msgs) =
    if workers_done ==ℕ workers_len then finished tt else crashed
