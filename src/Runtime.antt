-- ===== src/Runtime.antt =====
-- runtime/src/lib.rs: errors, the storage interface of a module, and the code that is written against
-- it. A `Prog` is the body of a function that is generic in `R: ModuleRuntime`: the storage calls that
-- it makes, each with what it does next.
pub mod Storage
pub mod StorageValue
pub mod Sequential
pub mod Concurrent
pub mod Frame
pub mod Discipline
pub mod Refinement
pub mod Simulation
pub mod Commit
pub mod Dispatch
pub mod View
pub mod Footprint
pub mod Owned
pub mod StateGenerator
use sonic_chain.Base.{
  ◌≡◌, refl, Bool, true, false, String, Result, ok, err, Outcome, returned, failed, panicked,
}
use sonic_chain.Primitives.{Key, Value, ThreadId}

pub data DispatchError : Type 0 where
  tainted : ThreadId → Bool → DispatchError
  logic_error : String → DispatchError

pub data RuntimeDispatchSuccess : Type 0 where
  success : RuntimeDispatchSuccess
  logic_failure : String → RuntimeDispatchSuccess

pub data RuntimeDispatchError : Type 0 where
  tainted_by : ThreadId → Bool → RuntimeDispatchError

-- `RuntimeDispatchResult`, with the panic that the code may end in.
abbrev pub RuntimeDispatchResult : Type 0
RuntimeDispatchResult = Outcome RuntimeDispatchError RuntimeDispatchSuccess

unfoldable pub to_runtime_dispatch_result : Outcome DispatchError Unit → RuntimeDispatchResult
to_runtime_dispatch_result (returned _) = returned success
to_runtime_dispatch_result (failed (logic_error why)) = returned (logic_failure why)
to_runtime_dispatch_result (failed (tainted whom orphan)) = failed (tainted_by whom orphan)
to_runtime_dispatch_result panicked = panicked

pub data Prog (A : Type 0) : Type 0 where
  done : A → Prog A
  fail : DispatchError → Prog A
  abort : Prog A
  read : Key → (Result ThreadId Value → Prog A) → Prog A
  write : Key → Value → (Result ThreadId Unit → Prog A) → Prog A

infixl 5 ◌>>=◌ ◌>>◌
abbrev pub ◌>>=◌ : {A B : Type 0} → Prog A → (A → Prog B) → Prog B
done a >>= f = f a
fail e >>= f = fail e
abort >>= f = abort
read k next >>= f = read k (λ r. next r >>= f)
write k v next >>= f = write k v (λ r. next r >>= f)

abbrev pub ◌>>◌ : {B : Type 0} → Prog Unit → Prog B → Prog B
m >> n = m >>= λ _. n

module _ {A : Type 0} where
  -- `or_forward()?`
  abbrev pub or_forward : Result ThreadId A → Prog A
  or_forward (ok a) = done a
  or_forward (err t) = fail (tainted t false)

  -- `or_orphan()?`
  abbrev pub or_orphan : Result ThreadId A → Prog A
  or_orphan (ok a) = done a
  or_orphan (err t) = fail (tainted t true)

  -- `expect`
  abbrev pub expect : Result ThreadId A → Prog A
  expect (ok a) = done a
  expect (err t) = abort

-- `ModuleRuntime` over the state `S` that `&self` refers to.
pub record ModuleRuntime (S : Type 0) : Type 0 where
  pub limited : Bool
  pub thread_id : ThreadId
  pub read_key : Key → S → Outcome ThreadId Value × S
  pub write_key : Key → Value → S → Outcome ThreadId Unit × S
  pub mutate_key : Key → (Value → Value) → S → Outcome ThreadId Unit × S

module _ {S A : Type 0} where
  abbrev resume :
      {B : Type 0}
      → Outcome ThreadId B × S
      → (Result ThreadId B → S → Outcome DispatchError A × S)
      → Outcome DispatchError A × S
  resume (returned b, s) next = next (ok b) s
  resume (failed t, s) next = next (err t) s
  resume (panicked, s) next = (panicked, s)

  -- Running generic code on one runtime.
  unfoldable pub run : ModuleRuntime S → Prog A → S → Outcome DispatchError A × S
  run rt (done a) s = (returned a, s)
  run rt (fail e) s = (failed e, s)
  run rt abort s = (panicked, s)
  run rt (read k next) s = resume (rt.read_key k s) (λ r. run rt (next r))
  run rt (write k v next) s = resume (rt.write_key k v s) (λ r. run rt (next r))
