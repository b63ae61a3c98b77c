-- ===== src/Executor/Concurrent.antt =====
-- executor/src/concurrent/mod.rs, `ConcurrentExecutor`, and `run_author` and `validate_block` of
-- executor/src/concurrent/master.rs: the phases of the master in their order.
pub mod Laws
pub mod Distributers
use sonic_chain.Base.{
  ℕ, ◌+◌, ◌≡◌, Bool, Option, none, some, List, [], ◌∷◌, ◌++◌, length, bytes_eq, nat_eq,
}
use sonic_chain.Primitives.{ThreadId}
use sonic_chain.State.{dump, unsafe_clean, unsafe_duplicate}
use sonic_chain.Runtime.{RuntimeDispatchSuccess}
use sonic_chain.Runtime.Sequential.{RuntimeState}
use sonic_chain.Staking.{Codecs}
use sonic_chain.Executor.Types.{
  Transaction, Block, Message, MessagePayload, task, authoring, validating, task_done,
  transaction_distribution_done,
}
use sonic_chain.Executor.Pool.{push_batch}
use sonic_chain.Executor.Worker.{Progress, finished, blocked, crashed}
use sonic_chain.Executor.Master.{
  Collection, collection_phase, broadcast, send_pool, execute_orphan_pool, Assignment, assign_block,
  await_reports,
}

-- The master's pools, and the shared state.
pub record ConcurrentExecutor : Type 0 where
  pub tx_pool : List Transaction
  pub orphan_pool : List Transaction
  pub state : RuntimeState

abbrev pub Sent : Type 0
Sent = List (ThreadId × MessagePayload)

-- `Distributer::distribute`; `none` is a panic.
abbrev pub Distributer : Type 0
Distributer = List ThreadId → List Transaction → Option (List Transaction)

-- What the workers make of a state and of what they are sent: the messages that come to the master, in the
-- order of their arrival, and the state.
abbrev pub Workers : Type 0 → Type 0
Workers M = Sent → RuntimeState → List M × RuntimeState

-- What is left, and what a call returns.
pub record Authored : Type 0 where
  pub executor : ConcurrentExecutor
  pub state : RuntimeState
  pub block : Block
  pub sent : Sent

abbrev pub clean : ConcurrentExecutor → ConcurrentExecutor
clean e = record { tx_pool = []; orphan_pool = []; state = unsafe_clean e.state }

-- `apply_state`: one insertion for each entry.
abbrev pub apply_state : RuntimeState → ConcurrentExecutor → ConcurrentExecutor
apply_state m e = record e { state = unsafe_duplicate m e.state }

module _ (c : Codecs) (id : ThreadId) (workers : List ThreadId) where
  -- The orphans of a finished collection, and the block.
  abbrev pub finish_author :
      Collection → Sent → Option (List RuntimeDispatchSuccess × RuntimeState) → Progress Authored
  finish_author s sent none = crashed
  finish_author s sent (some (outcomes, m)) = finished (record {
    executor = record { tx_pool = s.tx_pool; orphan_pool = s.orphan_pool; state = m };
    state = dump m;
    block = record { transactions = s.tx_pool ++ s.orphan_pool };
    sent = sent ++ broadcast workers task_done;
  })

  abbrev pub after_collection : Sent → RuntimeState → Progress Collection → Progress Authored
  after_collection sent m blocked = blocked
  after_collection sent m crashed = crashed
  after_collection sent m (finished s) =
      finish_author s sent (execute_orphan_pool c id s.orphan_pool m)

  -- `collection_phase` begins with the orphans that the master has.
  abbrev pub collecting : List Transaction → List Transaction → Collection
  collecting pool orphans = record {
    tx_pool = pool;
    orphan_pool = orphans;
    executed_workers = 0;
    executed_local = 0;
    forwarded = 0;
    reported = 0;
  }

  module _ (verify : Transaction → Bool) (distribute : Distributer) (work : Workers Message) where
    abbrev pub after_distribution :
        ConcurrentExecutor → Option (List Transaction × Sent) → Progress Authored
    after_distribution e none = crashed
    after_distribution e (some (pool, sent)) =
        let (msgs, m) = work (broadcast workers (task authoring) ++ sent) e.state in
        after_collection (broadcast workers (task authoring) ++ sent) m
          (collection_phase verify (length workers) (collecting pool e.orphan_pool) msgs)

    -- `run_author`
    unfoldable pub run_author : ConcurrentExecutor → Progress Authored
    unfolding broadcast execute_orphan_pool collection_phase
    run_author e = after_distribution e (send_pool workers (distribute workers e.tx_pool))

    abbrev pub with_batch : ConcurrentExecutor → Option (List Transaction) → Progress Authored
    with_batch e none = crashed
    with_batch e (some pool) = run_author (record e { tx_pool = pool })

    unfoldable pub author_block : List Transaction → ConcurrentExecutor → Progress Authored
    unfolding run_author push_batch
    author_block txs e = with_batch e (push_batch verify e.tx_pool txs)

  -- The state after the orphans, which is also what is returned.
  abbrev pub finish_validate :
      ConcurrentExecutor
      → List Transaction
      → Option (List RuntimeDispatchSuccess × RuntimeState)
      → Progress (ConcurrentExecutor × RuntimeState)
  finish_validate e orphans none = crashed
  finish_validate e orphans (some (outcomes, m)) =
      finished (record e { orphan_pool = orphans; state = m }, dump m)

  abbrev pub after_reports :
      ConcurrentExecutor
      → List Transaction
      → RuntimeState
      → Progress Unit
      → Progress (ConcurrentExecutor × RuntimeState)
  after_reports e orphans m blocked = blocked
  after_reports e orphans m crashed = crashed
  after_reports e orphans m (finished done) =
      finish_validate e orphans (execute_orphan_pool c id orphans m)

  module _ (work : Workers MessagePayload) where
    abbrev pub after_assignment :
        ConcurrentExecutor → Option Assignment → Progress (ConcurrentExecutor × RuntimeState)
    after_assignment e none = crashed
    after_assignment e (some a) =
        let (msgs, m) =
          work
            (broadcast workers (task validating)
              ++ a.sent
              ++ broadcast workers transaction_distribution_done)
            e.state in
        after_reports e (e.orphan_pool ++ a.orphans) m (await_reports (length workers) 0 msgs)

    -- `Master::validate_block`
    unfoldable pub validate_block :
        Block → ConcurrentExecutor → Progress (ConcurrentExecutor × RuntimeState)
    unfolding broadcast execute_orphan_pool assign_block await_reports
    validate_block block e = after_assignment e (assign_block workers block.transactions)
