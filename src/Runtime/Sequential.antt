-- ===== src/Runtime/Sequential.antt =====
-- runtime/src/lib.rs, `SequentialRuntime`: storage with no regard to taints.
use sonic_chain.Base.{bytes_eq, nat_eq, false, Option, none, some, Outcome, returned, default}
use sonic_chain.Primitives.{Key, Value, ThreadId, value_default}
use sonic_chain.State.{StateType, unsafe_read_value, unsafe_insert_genesis_value}
use sonic_chain.Runtime.{
  Prog, ModuleRuntime, run, RuntimeDispatchResult, to_runtime_dispatch_result,
}

-- `RuntimeState`
abbrev pub RuntimeState : Type 0
RuntimeState = StateType Key Value ThreadId

abbrev pub value_or_default : Option Value → Value
value_or_default none = default
value_or_default (some v) = v

unfoldable pub read : Key → RuntimeState → Outcome ThreadId Value × RuntimeState
unfolding unsafe_read_value
read key m = (returned (value_or_default (unsafe_read_value key m)), m)

unfoldable pub write : Key → Value → RuntimeState → Outcome ThreadId Unit × RuntimeState
unfolding unsafe_insert_genesis_value
write key value m = (returned tt, unsafe_insert_genesis_value key value m)

-- Its read and its write cannot fail, so the `expect`s of `mutate` never fire.
unfoldable pub mutate : Key → (Value → Value) → RuntimeState → Outcome ThreadId Unit × RuntimeState
unfolding read write
mutate key update m = write key (update (value_or_default (unsafe_read_value key m))) m

abbrev pub sequential_runtime : ThreadId → ModuleRuntime RuntimeState
sequential_runtime id = record {
  limited = false;
  thread_id = id;
  read_key = read;
  write_key = write;
  mutate_key = mutate;
}

-- `SequentialRuntime::dispatch` of the body of a call.
unfoldable pub dispatch : ThreadId → Prog Unit → RuntimeState → RuntimeDispatchResult × RuntimeState
unfolding read write mutate run to_runtime_dispatch_result
dispatch id call m =
    let (r, m') = run (sequential_runtime id) call m in (to_runtime_dispatch_result r, m')
