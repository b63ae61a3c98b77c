-- ===== src/Runtime/StateGenerator.antt =====
-- runtime/src/state_generator.rs, `InitialStateGenerate`: an initial state, built on a sequential runtime.
use sonic_chain.Base.{◌≡◌, [], if◌then◌else◌, bytes_beq, bytes_eq}
use sonic_chain.Primitives.{Key, Value}
use sonic_chain.State.{new_data, dump, unsafe_insert_genesis_value}
use sonic_chain.Runtime.Sequential.{RuntimeState}
use sonic_chain.Runtime.Frame.{state_value, state_value-insert}

pub record InitialStateGenerate : Type 0 where
  pub state : RuntimeState

abbrev pub new : InitialStateGenerate
new = record { state = [] }

-- What the closure does to the state of the runtime is an argument.
abbrev pub with_runtime :
    (RuntimeState → RuntimeState) → InitialStateGenerate → InitialStateGenerate
with_runtime update g = record { state = update g.state }

unfoldable pub insert : Key → Value → InitialStateGenerate → InitialStateGenerate
unfolding unsafe_insert_genesis_value
insert key value g = record { state = unsafe_insert_genesis_value key value g.state }

abbrev pub build : InitialStateGenerate → RuntimeState
build g = dump g.state

-- In a state that is built after an insertion, the key has the inserted value, and the others have theirs.
pub build-insert :
    (k j : Key) (v : Value) (g : InitialStateGenerate)
    → state_value (build (insert k v g)) j ≡ (if bytes_beq k j then v else state_value (build g) j)
unfolding insert unsafe_insert_genesis_value
build-insert k j v g = state_value-insert k j (new_data v) g.state
