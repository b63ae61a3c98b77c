-- ===== src/Lib.antt =====
-- SonicChain: a verification library for the runtime, the state and the executors.
--
-- The program executes the transactions of a block on several threads. All threads share one key-value
-- state, in which an entry is owned by the first thread that accesses it (its taint). A worker that
-- meets a key of another thread passes the transaction on to that thread, once, or gives it to the
-- master as an orphan; the master executes the orphans at the end, on its own. A validator executes the
-- block again and compares the two states.
--
-- Parts, and the files that model them (paths from the root of the repository):
--   Primitives          primitives/src/lib.rs and crypto.rs: keys, values, accounts, balances
--   Primitives/Crypto   primitives/src/crypto.rs: `Encode` and `Decode` of `Public`
--   State               state/src/lib.rs: `TaintState` and its `read`, `write`, `mutate`, `state_eq`.
--                       The state is the map behind the lock. `read` and `write` take a function `gap`,
--                       what the other threads do between the release of the read lock and the
--                       acquisition of the write lock. State/Interference says what that may be.
--   Runtime             runtime/src/lib.rs: errors, and the storage interface of a module. Code that is
--                       generic in `ModuleRuntime` is a `Prog`: its storage accesses, each with what
--                       is done with the result. `run` runs it on one runtime.
--   Runtime/Sequential  `SequentialRuntime`, over the state
--   Runtime/Concurrent  `ConcurrentRuntime`, over the state and a cache of writes
--   Runtime/Storage     runtime/src/macros.rs, `decl_storage_map`
--   Runtime/StorageValue
--                       runtime/src/macros.rs, `decl_storage_value`
--   Runtime/Discipline, Runtime/Frame, Runtime/Refinement, Runtime/Simulation, Runtime/Commit and
--   Runtime/Dispatch    the concurrent runtime against the sequential one
--   Runtime/StateGenerator
--                       runtime/src/state_generator.rs
--   Runtime/View        storage maps as maps from accounts to values. Its `stored` and `store` stand for no
--                       code of their own: they say what a read gives and what a write leaves.
--   Balances, Staking   runtime/src/balances.rs and staking.rs: the calls as programs over storage
--   Call                `decl_outer_call` and `decl_tx` of runtime/src/macros.rs, expanded
--   Executor/Types, Executor/Pool, Executor/RoundRobin, Executor/Worker, Executor/Master and
--   Executor/Sequential executor/src/types.rs, pool.rs, concurrent/tx_distribution.rs,
--                       concurrent/worker.rs, concurrent/master.rs, sequential/mod.rs and lib.rs
--   Executor/Authoring  executions by several workers in any order, with the worker, the transaction and
--                       the outcome of each. An execution is one step here: the interleaving of the
--                       accesses of several executions, which the threads of concurrent/worker.rs have, is
--                       not modelled for authoring. State/Races has it for single accesses.
--   Executor/Validation `Worker::run_validate` of concurrent/worker.rs by several workers at once: a step
--                       is one access of one worker to the shared state, and the steps come in any order
--   Executor/Concurrent concurrent/mod.rs, and `run_author` and `validate_block` of concurrent/master.rs:
--                       the phases of the master. What the workers do is an argument there: from a state
--                       and what they are sent, the messages to the master in order, and a state.
--                       The distributer is an argument as well; both distributers of the source can be
--                       given for it.
--   Executor/Components `ConnectedComponents` of concurrent/tx_distribution.rs. Executor/Components is
--                       the node and its traversal, Executor/Components/Graph the graph of a pool,
--                       Executor/Components/Assign the workers and the tags; Search, the modules below
--                       Graph and Assign, and Distribution have the proofs.
--   Runtime/Footprint and Runtime/Owned
--                       the keys that a call accesses, and who owns them when it has gone through
--
-- A call that can panic has an outcome of its own for it (`Outcome`, `Progress`, or `none` of an
-- `Option`, as each definition says). Channels are lists of messages in their order of arrival, and
-- loops over them are recursion on that list, so no fuel is needed: a list that ends too early leaves
-- the loop waiting. The traversal of the graph is a loop on fuel, and the fuel that is enough is given
-- with the theorems on it: a node that is taken from the queue for the first time is one fewer to
-- visit, and between two of these the part of the queue before the next such node gets shorter.
-- Component numbers, `u32` in the source, are natural numbers: a pool has fewer than 2 ^ 32
-- transactions. Balances are natural numbers, and sums of them wrap at 2 ^ 128 as in a release build.
-- A hash map is an association list without repeated keys.
--
-- Parameters of the model: the codec of stored values, as a `Codec` with two laws, that decoding takes
-- back what was encoded, and that no bytes decode to an error or to the default; and the check of a
-- signature (`verify`). The codecs of balances, ledgers and lists come from parity_scale_codec, which
-- is not part of the repository. The codec of accounts is (primitives/src/crypto.rs):
-- Primitives/Crypto has it, with what it reads from (parity_scale_codec) and the check of a key
-- (ed25519_dalek) as arguments. The calls take it as a `Codec` too (`Codecs.account`), which is what
-- it is for accounts of 32 bytes that are keys; that `Public::decode` panics on fewer bytes, which no
-- call stores for an account, is left out there. Not modelled: the workers and the master as one
-- system of steps with their channels, the creation, parking and joining of threads, log lines, delays
-- and durations, the benchmarks, and the derive macro that counts outcomes.
pub mod Base
pub mod Primitives
pub mod State
pub mod Runtime
pub mod Balances
pub mod Staking
pub mod Call
pub mod Executor
pub mod Tests
