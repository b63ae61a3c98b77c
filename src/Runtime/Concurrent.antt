-- ===== src/Runtime/Concurrent.antt =====
-- runtime/src/lib.rs, `ConcurrentRuntime`: reads taint the shared state, writes go to a cache of the
-- thread, and the cache is committed if the call succeeds.
use sonic_chain.Base.{
  bytes_eq, nat_eq, true, Option, none, some, Outcome, returned, failed, panicked, [], ◌∷◌,
}
use sonic_chain.Base.HashMap
use sonic_chain.Base.HashMap.{HashMap}
use sonic_chain.Primitives.{Key, Value, ThreadId, value_default}
use sonic_chain.State
use sonic_chain.State.{StateType, StateValue, unsafe_insert}
use sonic_chain.State.Interference.{alone}
use sonic_chain.Runtime.{
  Prog, ModuleRuntime, run, DispatchError, RuntimeDispatchResult, to_runtime_dispatch_result,
}
use sonic_chain.Runtime.Sequential.{RuntimeState}

-- What a `ConcurrentRuntime` refers to: the shared state, and its cache. Its id is an argument.
pub record ConcurrentState : Type 0 where
  pub state : RuntimeState
  pub cache : HashMap Key Value

abbrev from_state :
    ConcurrentState
    → Outcome ThreadId Value × RuntimeState
    → Outcome ThreadId Value × ConcurrentState
from_state s (r, m) = (r, record s { state = m })

module _ (id : ThreadId) where
  -- What is cached is the thread's own; else the state is asked.
  abbrev read_cached :
      Key → ConcurrentState → Option Value → Outcome ThreadId Value × ConcurrentState
  read_cached key s (some value) = (returned value, s)
  read_cached key s none = from_state s (State.read key id alone s.state)

  unfoldable pub read : Key → ConcurrentState → Outcome ThreadId Value × ConcurrentState
  read key s = read_cached key s (HashMap.get key s.cache)

  abbrev cache_write :
      Key
      → (Value → Value)
      → Outcome ThreadId Value × ConcurrentState
      → Outcome ThreadId Unit × ConcurrentState
  cache_write key update (returned old, s) =
      (returned tt, record s { cache = HashMap.insert key (update old) s.cache })
  cache_write key update (failed owner, s) = (failed owner, s)
  cache_write key update (panicked, s) = (panicked, s)

  unfoldable pub write : Key → Value → ConcurrentState → Outcome ThreadId Unit × ConcurrentState
  unfolding read
  write key value s = cache_write key (λ _. value) (read key s)

  unfoldable pub mutate :
      Key → (Value → Value) → ConcurrentState → Outcome ThreadId Unit × ConcurrentState
  unfolding read
  mutate key update s = cache_write key update (read key s)

  abbrev pub concurrent_runtime : ModuleRuntime ConcurrentState
  concurrent_runtime = record {
    limited = true;
    thread_id = id;
    read_key = read;
    write_key = write;
    mutate_key = mutate;
  }

  unfoldable pub commit_entries : HashMap Key Value → RuntimeState → RuntimeState
  commit_entries [] m = m
  commit_entries ((k, v) ∷ cache) m = commit_entries cache (unsafe_insert k (State.new v id) m)

  -- `commit_cache`
  unfoldable pub commit_cache : ConcurrentState → RuntimeState
  unfolding commit_entries
  commit_cache s = commit_entries s.cache s.state

  unfoldable pub commit_if_ok : Outcome DispatchError Unit × ConcurrentState → RuntimeState
  unfolding commit_cache
  commit_if_ok (returned _, s) = commit_cache s
  commit_if_ok (failed _, s) = s.state
  commit_if_ok (panicked, s) = s.state

  -- `ConcurrentRuntime::dispatch` of the body of a call: it starts and ends with an empty cache.
  unfoldable pub dispatch : Prog Unit → RuntimeState → RuntimeDispatchResult × RuntimeState
  unfolding commit_if_ok to_runtime_dispatch_result run
  dispatch call m =
      let after = run concurrent_runtime call (record { state = m; cache = [] }) in
      (to_runtime_dispatch_result after.0, commit_if_ok after)
