-- ===== src/Executor/Sequential.antt =====
-- executor/src/sequential/mod.rs, and `author_and_validate` of executor/src/lib.rs on it. The durations
-- that the source measures are left out.
pub mod Laws
use sonic_chain.Base.{
  ℕ, ◌≡◌, refl, Bool, true, false, Option, none, some, List, [], ◌∷◌, Outcome, returned, failed,
  panicked, nat_eq, bytes_eq,
}
use sonic_chain.Primitives.{ThreadId}
use sonic_chain.State.{dump, state_eq, unsafe_clean, unsafe_duplicate}
use sonic_chain.Runtime.{RuntimeDispatchSuccess, RuntimeDispatchResult}
use sonic_chain.Runtime.Sequential
use sonic_chain.Runtime.Sequential.{RuntimeState}
use sonic_chain.Staking.{Codecs}
use sonic_chain.Call.{body}
use sonic_chain.Executor.Types.{Transaction, Block}

abbrev pub prepend :
    RuntimeDispatchSuccess
    → Option (List RuntimeDispatchSuccess × RuntimeState)
    → Option (List RuntimeDispatchSuccess × RuntimeState)
prepend outcome none = none
prepend outcome (some (outcomes, m)) = some (outcome ∷ outcomes, m)

abbrev pub authored :
    List Transaction
    → Option (List RuntimeDispatchSuccess × RuntimeState)
    → Option (RuntimeState × Block)
authored txs none = none
authored txs (some (outcomes, m)) = some (dump m, record { transactions = txs })

abbrev pub validated : Option (List RuntimeDispatchSuccess × RuntimeState) → Option RuntimeState
validated none = none
validated (some (outcomes, m)) = some (dump m)

-- The outcome of an executor's call: `none` is a panic.
module _ (c : Codecs) (id : ThreadId) where
  abbrev pub next_transaction :
      (RuntimeState → Option (List RuntimeDispatchSuccess × RuntimeState))
      → RuntimeDispatchResult × RuntimeState
      → Option (List RuntimeDispatchSuccess × RuntimeState)
  next_transaction next (returned outcome, m) = prepend outcome (next m)
  next_transaction next (failed _, m) = none
  next_transaction next (panicked, m) = none

  -- `apply_transaction`
  unfoldable pub apply_transactions :
      List Transaction → RuntimeState → Option (List RuntimeDispatchSuccess × RuntimeState)
  apply_transactions [] m = some ([], m)
  apply_transactions (tx ∷ txs) m =
      next_transaction (apply_transactions txs)
        (Sequential.dispatch id (body c tx.function tx.origin) m)

  -- `author_block`: the dump, and the block with the transactions as they came.
  unfoldable pub author_block : List Transaction → RuntimeState → Option (RuntimeState × Block)
  author_block txs m = authored txs (apply_transactions txs m)

  unfoldable pub validate_block : Block → RuntimeState → Option RuntimeState
  validate_block block m = validated (apply_transactions block.transactions m)

  -- `apply_state`, where an initial state is given.
  abbrev apply_initial : Option RuntimeState → RuntimeState → RuntimeState
  apply_initial none m = m
  apply_initial (some state) m = unsafe_duplicate state m

  abbrev compare_states : RuntimeState → Option RuntimeState → Option Bool
  compare_states authoring_state none = none
  compare_states authoring_state (some validation_state) =
      some (state_eq validation_state authoring_state)

  abbrev pub then_validate : Option RuntimeState → Option (RuntimeState × Block) → Option Bool
  then_validate initial_state none = none
  then_validate initial_state (some (authoring_state, block)) =
      compare_states authoring_state
        (validate_block block (apply_initial initial_state (unsafe_clean authoring_state)))

  -- `author_and_validate` from the executor's state `m`: do the two dumps agree?
  unfoldable pub author_and_validate :
      List Transaction → Option RuntimeState → RuntimeState → Option Bool
  unfolding author_block validate_block
  author_and_validate txs initial_state m =
      then_validate initial_state (author_block txs (apply_initial initial_state m))
