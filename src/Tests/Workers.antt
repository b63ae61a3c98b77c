-- ===== src/Tests/Workers.antt =====
-- The pool, the distribution, the workers and the master at concrete inputs.
use sonic_chain.Base.{
  ℕ, ◌≡◌, refl, Bool, true, false, Option, none, some, List, [], ◌∷◌, ◌⊎◌, arith, length, get_elem?,
  All, ◌==ℕ◌, bytes_eq, nat_eq,
}
use sonic_chain.Primitives.{ThreadId}
use sonic_chain.Base.HashMap
use sonic_chain.State
use sonic_chain.State.{unsafe_duplicate, unsafe_insert}
use sonic_chain.Runtime.Concurrent
use sonic_chain.Balances.{transfer}
use sonic_chain.Call.{body}
use sonic_chain.Runtime.Storage.{key_for}
use sonic_chain.Executor.Types.{
  Transaction, set_done, set_orphan, Message, transaction, transaction_distribution_done,
  authoring_report, worker_executed, worker_orphan, MessagePayload,
}
use sonic_chain.Executor.Pool.{remove}
use sonic_chain.Executor.Pool.Laws.{remove-IsFirst, IsFirst}
use sonic_chain.Executor.RoundRobin.{distribute}
use sonic_chain.Executor.RoundRobin.Laws.{distribute_lem, designated}
use sonic_chain.Executor.Worker.{
  Execution, Tally, Progress, finished, blocked, crashed, execute_or_forward, deplete_master_queue,
}
use sonic_chain.Executor.Worker.Laws.{Accounts, execute_or_forward-Accounts}
use sonic_chain.Executor.Worker.Counts.{
  Reports, received, fresh_tally, deplete_master_queue-Reports,
}
use sonic_chain.Executor.Master.{Collection, collection_phase}
use sonic_chain.Executor.Master.{Assignment, assign_block}
use sonic_chain.Executor.Master.Assign.{assign_block_lem, orphans_of, sent_to, payloads_of}
use sonic_chain.Executor.Master.Settled.{Settles, collection_phase-Settles}
use sonic_chain.Executor.Sequential.{apply_transactions, author_and_validate}
use sonic_chain.Executor.Sequential.Laws.{author_and_validate_lem}
use sonic_chain.Tests.Fixtures.{codecs, genesis, contended, tx_alice, tx_carol, tx_bob}

abbrev execution_or : Option Execution → Execution
execution_or none = record {
  outcome = sonic_chain.Executor.Worker.forwarded_to_master;
  sent = [];
  state = [];
}
execution_or (some e) = e

abbrev execution : Execution
execution = execution_or (execute_or_forward codecs 1 (2 ∷ []) tx_alice contended)

execution_of_alice : execute_or_forward codecs 1 (2 ∷ []) tx_alice contended ≡ some execution
unfolding execute_or_forward key_for Concurrent.dispatch body transfer Concurrent.read HashMap.get
    State.read
execution_of_alice = refl

execute_or_forward-Accounts_example :
    Accounts codecs 1 (2 ∷ []) tx_alice.exec_status tx_alice execution
execute_or_forward-Accounts_example =
    execute_or_forward-Accounts codecs 1 (2 ∷ []) tx_alice contended execution execution_of_alice

abbrev queue : List MessagePayload
queue = transaction tx_alice ∷ transaction tx_carol ∷ transaction_distribution_done ∷ []

abbrev start : Tally
start = fresh_tally codecs 1 (2 ∷ []) contended

abbrev tally_or : Progress Tally → Tally
tally_or (finished t) = t
tally_or _ = start

abbrev tally : Tally
tally = tally_or (deplete_master_queue codecs 1 (2 ∷ []) start queue)

tally_of_queue : deplete_master_queue codecs 1 (2 ∷ []) start queue ≡ finished tally
unfolding deplete_master_queue key_for Concurrent.dispatch body transfer Concurrent.read HashMap.get
    State.read Concurrent.write HashMap.insert
tally_of_queue = refl

deplete_master_queue-Reports_example : Reports codecs 1 (2 ∷ []) (received queue) tally
deplete_master_queue-Reports_example =
    deplete_master_queue-Reports codecs 1 (2 ∷ []) contended tally queue tally_of_queue

abbrev collecting : Collection
collecting = record {
  tx_pool = set_done 1 tx_alice ∷ set_done 1 tx_carol ∷ set_done 2 tx_bob ∷ [];
  orphan_pool = [];
  executed_workers = 0;
  executed_local = 0;
  forwarded = 0;
  reported = 0;
}

abbrev messages : List Message
messages =
    record { payload = authoring_report 1 1; from = 1 }
    ∷ record { payload = worker_executed 1; from = 2 }
    ∷ record { payload = worker_orphan 3; from = 2 }
    ∷ record { payload = authoring_report 0 1; from = 2 }
    ∷ []

abbrev anything : Transaction → Bool
anything tx = true

abbrev collection_or : Progress Collection → Collection
collection_or (finished s) = s
collection_or _ = collecting

abbrev collected : Collection
collected = collection_or (collection_phase anything 2 collecting messages)

collected_all : collection_phase anything 2 collecting messages ≡ finished collected
unfolding collection_phase
collected_all = refl

collection_phase-Settles_example : Settles anything 2 collecting messages collected
collection_phase-Settles_example =
    collection_phase-Settles anything 2 collecting collected messages collected_all

author_and_validate_lem_example :
    ((apply_transactions codecs 0 (tx_alice ∷ tx_bob ∷ []) (unsafe_duplicate genesis []) ≡ none)
      × (author_and_validate codecs 0 (tx_alice ∷ tx_bob ∷ []) (some genesis) [] ≡ none))
    ⊎ (author_and_validate codecs 0 (tx_alice ∷ tx_bob ∷ []) (some genesis) [] ≡ some true)
author_and_validate_lem_example = author_and_validate_lem codecs 0 (tx_alice ∷ tx_bob ∷ []) genesis

abbrev workers : List ThreadId
workers = 1 ∷ 2 ∷ []

abbrev pool : List Transaction
pool = tx_alice ∷ tx_carol ∷ tx_bob ∷ []

distribute_lem_example :
    (pool' : List Transaction) × (distribute workers pool ≡ some pool')
    × (length pool' ≡ length pool)
    × ((n : ℕ) → get_elem? pool' n ≡ designated workers n (get_elem? pool n))
distribute_lem_example = distribute_lem workers (omega arith) pool

abbrev is_carols : Transaction → Bool
is_carols t = t.id ==ℕ 2

remove-IsFirst_example :
    ((remove is_carols pool ≡ some none) × All (λ x. is_carols x ≡ false) pool)
    ⊎ ((t : Transaction) × (rest : List Transaction) × (remove is_carols pool
          ≡ some (some (t, rest)))
        × IsFirst is_carols pool t rest)
remove-IsFirst_example = remove-IsFirst is_carols pool

abbrev tagged : List Transaction
tagged = set_done 1 tx_alice ∷ set_orphan tx_bob ∷ set_done 2 tx_carol ∷ []

abbrev assignment : Assignment
assignment = record {
  sent = (1, transaction (set_done 1 tx_alice)) ∷ (2, transaction (set_done 2 tx_carol)) ∷ [];
  orphans = set_orphan tx_bob ∷ [];
}

assignment_of_block : assign_block workers tagged ≡ some assignment
unfolding assign_block
assignment_of_block = refl

assign_block_lem_example :
    (assignment.orphans ≡ orphans_of tagged)
    × ((w : ThreadId) → sent_to w assignment.sent ≡ payloads_of w tagged)
assign_block_lem_example = assign_block_lem workers tagged assignment assignment_of_block
