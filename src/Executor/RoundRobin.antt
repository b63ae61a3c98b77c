-- ===== src/Executor/RoundRobin.antt =====
-- executor/src/concurrent/tx_distribution.rs, `RoundRobin`: transaction `idx` goes to worker
-- `worker_ids[idx % num_workers]`.
pub mod Laws
use sonic_chain.Base.{
  ℕ, zero, suc, ◌+◌, ◌%◌, ◌<◌, ◌≡◌, refl, Option, none, some, List, [], ◌∷◌, arith, length,
  get_elem?,
}
use sonic_chain.Primitives.{ThreadId}
use sonic_chain.Executor.Types.{Transaction, set_done}

abbrev pub assign :
    Transaction → Option ThreadId → Option (List Transaction) → Option (List Transaction)
assign tx none rest = none
assign tx (some worker) none = none
assign tx (some worker) (some rest) = some (set_done worker tx ∷ rest)

-- With no workers the remainder by zero panics, which `get_elem?` of an empty list gives as well.
unfoldable pub distribute_from : ℕ → List ThreadId → List Transaction → Option (List Transaction)
distribute_from idx worker_ids [] = some []
distribute_from idx worker_ids (tx ∷ pool) =
    assign tx (get_elem? worker_ids (idx % length worker_ids))
      (distribute_from (idx + 1) worker_ids pool)

-- `Distributer::distribute`
unfoldable pub distribute : List ThreadId → List Transaction → Option (List Transaction)
unfolding distribute_from
distribute worker_ids pool = distribute_from 0 worker_ids pool
