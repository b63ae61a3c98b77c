-- ===== src/Executor/Types.antt =====
-- executor/src/types.rs: transactions, blocks, and the messages between master and workers.
use sonic_chain.Base.{ℕ, Bool, List}
use sonic_chain.Primitives.{ThreadId, AccountId}
use sonic_chain.Call.{OuterCall}

pub data ExecutionTag : Type 0 where
  done : ThreadId → ExecutionTag
  orphan not_executed : ExecutionTag

pub data ExecutionStatus : Type 0 where
  initial forwarded : ExecutionStatus

-- u32
abbrev pub TransactionId : Type 0
TransactionId = ℕ

-- An ed25519 signature, by its bytes. The pair `signature` of a transaction is two fields here, `origin`
-- and `signature`.
abbrev pub Signature : Type 0
Signature = List ℕ

pub record Transaction : Type 0 where
  pub id : TransactionId
  pub tag : ExecutionTag
  pub exec_status : ExecutionStatus
  pub function : OuterCall
  pub origin : AccountId
  pub signature : Signature

-- `Transaction::new`
abbrev pub new : TransactionId → OuterCall → AccountId → Signature → Transaction
new id call origin signed_call = record {
  id = id;
  tag = not_executed;
  exec_status = initial;
  function = call;
  origin = origin;
  signature = signed_call;
}

abbrev pub set_done : ThreadId → Transaction → Transaction
set_done by_whom tx = record tx { tag = done by_whom }

abbrev pub set_orphan : Transaction → Transaction
set_orphan tx = record tx { tag = orphan }

pub record Block : Type 0 where
  pub transactions : List Transaction

-- `VerifiableTransaction::verify`, over the encoding of calls and the check of a signature, which are
-- the work of other crates.
unfoldable pub verify :
    (OuterCall → List ℕ) → (AccountId → List ℕ → Signature → Bool) → Transaction → Bool
verify encode check tx = check tx.origin (encode tx.function) tx.signature

pub data TaskType : Type 0 where
  authoring validating : TaskType

pub data MessagePayload : Type 0 where
  finalize_setup : List ThreadId → MessagePayload
  task : TaskType → MessagePayload
  transaction : Transaction → MessagePayload
  transaction_distribution_done : MessagePayload
  authoring_report : ℕ → ℕ → MessagePayload
  validation_report : MessagePayload
  worker_executed worker_orphan : TransactionId → MessagePayload
  task_done terminate : MessagePayload
  test : List ℕ → MessagePayload

pub record Message : Type 0 where
  pub payload : MessagePayload
  pub from : ThreadId
