-- ===== src/Tests/Blocks.antt =====
-- A block that the concurrent executor authors, at concrete inputs.
use sonic_chain.Base.{◌≡◌, refl, Bool, true, false, [], ◌∷◌, ◌++◌, bytes_eq, nat_eq}
use mathlib.Core.List.{Perm}
use sonic_chain.Base.HashMap
use sonic_chain.Balances.{transfer}
use sonic_chain.Balances.Account.{reserve}
use sonic_chain.Primitives.{add_balance}
use sonic_chain.Staking.{tx_bond}
use sonic_chain.Call.{body}
use sonic_chain.State.{unsafe_insert_genesis_value}
use sonic_chain.Runtime.Sequential
use sonic_chain.Runtime.Storage.{key_for}
use sonic_chain.Executor.Types.{Transaction, Message, authoring_report, worker_orphan}
use sonic_chain.Executor.Worker.{Progress, finished, blocked, crashed}
use sonic_chain.Executor.Master.{send_all}
use sonic_chain.Executor.Master.Laws.{ids}
use sonic_chain.Executor.RoundRobin.{distribute}
use sonic_chain.Executor.Concurrent.{ConcurrentExecutor, Workers, Authored, author_block}
use sonic_chain.Executor.Concurrent.Laws.{author_block-Perm, distribute-KeepsIds}
use sonic_chain.Tests.Fixtures.{codecs, genesis, tx_alice, tx_carol, tx_bob}

abbrev anything : Transaction → Bool
anything tx = true

-- Worker 1 has executed Alice's transfer, and worker 2 Carol's; Bob's bond comes back as an orphan.
abbrev work : Workers Message
work sent m = (
  record { payload = authoring_report 1 1; from = 1 }
      ∷ record { payload = worker_orphan 3; from = 1 }
      ∷ record { payload = authoring_report 1 0; from = 2 }
      ∷ [],
  m,
)

abbrev executor : ConcurrentExecutor
executor = record { tx_pool = tx_alice ∷ []; orphan_pool = []; state = genesis }

abbrev authoring_of_block : Progress Authored
authoring_of_block =
    author_block codecs 0 (1 ∷ 2 ∷ []) anything distribute work (tx_carol ∷ tx_bob ∷ []) executor

abbrev authored_or : Progress Authored → Authored
authored_or (finished r) = r
authored_or _ = record {
  executor = executor;
  state = [];
  block = record { transactions = [] };
  sent = [];
}

abbrev has_finished : Progress Authored → Bool
has_finished (finished r) = true
has_finished _ = false

finished_with : (p : Progress Authored) → has_finished p ≡ true → p ≡ finished (authored_or p)
finished_with (finished r) e = refl
finished_with blocked e = cc
finished_with crashed e = cc

authoring_finishes : has_finished authoring_of_block ≡ true
unfolding author_block key_for Sequential.dispatch body transfer HashMap.get HashMap.insert tx_bond
    unsafe_insert_genesis_value Sequential.read Sequential.write reserve add_balance distribute
    send_all
authoring_finishes = refl

author_block-Perm_example :
    Perm
      (ids (authored_or authoring_of_block).block.transactions)
      ((ids (tx_alice ∷ []) ++ ids (tx_carol ∷ tx_bob ∷ [])) ++ ids [])
author_block-Perm_example =
    author_block-Perm codecs 0 (1 ∷ 2 ∷ []) anything distribute distribute-KeepsIds work
      (tx_carol ∷ tx_bob ∷ []) executor (authored_or authoring_of_block)
      (finished_with authoring_of_block authoring_finishes)
