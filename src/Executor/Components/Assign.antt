-- ===== src/Executor/Components/Assign.antt =====
-- executor/src/concurrent/tx_distribution.rs, `ConnectedComponents::distribute`: the largest component goes
-- to the worker with the fewest transactions, until none is left.
pub mod Laws
pub mod Whole
pub mod Tags
use sonic_chain.Base.{
  ℕ, zero, suc, ◌+◌, Bool, true, false, Option, none, some, List, [], ◌∷◌, ◌++◌, if◌then◌else◌,
  length, get_elem?, erase_idx, leb, ltb, ◌==ℕ◌,
}
use sonic_chain.Primitives.{ThreadId}
use sonic_chain.Staking.{Codecs}
use sonic_chain.Call.{validate}
use sonic_chain.Executor.Types.{Transaction, TransactionId, set_done}
use sonic_chain.Executor.Pool
use sonic_chain.Executor.Components.{
  Rc, Heap, Node, NodeType, tx, key, Loop, ended, out_of_fuel, crashed,
}
use sonic_chain.Executor.Components.Graph.{Graph, empty, build, components_from}

-- `component_workers`, a `BTreeMap`: in the order of its keys.
abbrev pub Workers : Type 0
Workers = List (ThreadId × List Rc)

-- `BTreeMap::insert`
abbrev pub btree_insert : ThreadId → List Rc → Workers → Workers
btree_insert w rcs [] = (w, rcs) ∷ []
btree_insert w rcs ((v, old) ∷ workers) =
    let rest = btree_insert w rcs workers in
    if w ==ℕ v
    then (w, rcs) ∷ workers
    else if ltb w v
    then (w, rcs) ∷ (v, old) ∷ workers
    else (v, old) ∷ rest

abbrev pub idle_workers : List ThreadId → Workers → Workers
idle_workers [] workers = workers
idle_workers (w ∷ ids) workers = idle_workers ids (btree_insert w [] workers)

abbrev pub larger : ℕ → List Rc → Option (ℕ × List Rc) → Option (ℕ × List Rc)
larger i c none = some (i, c)
larger i c (some (j, d)) = if leb (length c) (length d) then some (j, d) else some (i, c)

-- `enumerate().max_by_key(len)`: the last of the largest.
abbrev pub largest : ℕ → List (List Rc) → Option (ℕ × List Rc)
largest i [] = none
largest i (c ∷ components) = larger i c (largest (i + 1) components)

abbrev pub smaller : ThreadId → List Rc → Option (ThreadId × List Rc) → Option (ThreadId × List Rc)
smaller w v none = some (w, v)
smaller w v (some (u, v')) = if leb (length v) (length v') then some (w, v) else some (u, v')

-- `min_by_key(len)`: the first of the smallest.
abbrev pub smallest : Workers → Option (ThreadId × List Rc)
smallest [] = none
smallest ((w, v) ∷ workers) = smaller w v (smallest workers)

-- `v.extend(component)`, at the worker's entry.
abbrev pub extend : ThreadId → List Rc → Workers → Workers
extend w c [] = []
extend w c ((u, v) ∷ workers) =
    let rest = extend w c workers in if u ==ℕ w then (u, v ++ c) ∷ workers else (u, v) ∷ rest

abbrev pub give : Workers → List Rc → Option (ThreadId × List Rc) → Option Workers
give workers c none = none
give workers c (some (w, v)) = some (extend w c workers)

abbrev pub go_on :
    (List (List Rc) → Workers → Loop Workers) → List (List Rc) → Option Workers → Loop Workers
go_on next components none = crashed
go_on next [] (some workers) = ended workers
go_on next (c ∷ components) (some workers) = next (c ∷ components) workers

abbrev pub assign_largest :
    (List (List Rc) → Workers → Loop Workers)
    → List (List Rc)
    → Workers
    → Option (ℕ × List Rc)
    → Loop Workers
assign_largest next components workers none = crashed
assign_largest next components workers (some (index, c)) =
    go_on next (erase_idx components index) (give workers c (smallest workers))

-- The loop, on as many rounds as are given. A round panics where there is no component (the first `unwrap`)
-- or no worker (the second), and takes one component away otherwise.
unfoldable pub assign_loop : ℕ → List (List Rc) → Workers → Loop Workers
assign_loop zero components workers = out_of_fuel
assign_loop (suc rounds) components workers =
    assign_largest (assign_loop rounds) components workers (largest 0 components)

-- One round for each component, and one more for the panic where there is none, are enough.
unfoldable pub assign_components : List (List Rc) → Workers → Loop Workers
unfolding assign_loop
assign_components components workers = assign_loop (suc (length components)) components workers

abbrev pub tx_id : Option Node → Option TransactionId
tx_id none = none
tx_id (some n) = elim n.node_type [ tx id ↦ some id | key k ↦ none ]

abbrev pub tag_first :
    ThreadId
    → List Transaction
    → TransactionId
    → Option (ℕ × Transaction)
    → Option (List Transaction)
tag_first w pool tid none = none
tag_first w pool tid (some found) = some (Pool.update_first (λ t. t.id ==ℕ tid) (set_done w) pool)

-- `txs.get_mut(|t| t.id == tid).unwrap()`, and the new tag.
abbrev pub tag_transaction :
    ThreadId → List Transaction → Option TransactionId → Option (List Transaction)
tag_transaction w pool none = none
tag_transaction w pool (some tid) = tag_first w pool tid (Pool.get (λ t. t.id ==ℕ tid) pool)

abbrev pub and_then :
    (List Transaction → Option (List Transaction))
    → Option (List Transaction)
    → Option (List Transaction)
and_then next none = none
and_then next (some pool) = next pool

unfoldable pub tag_nodes : Heap → ThreadId → List Rc → List Transaction → Option (List Transaction)
unfolding Pool.get Pool.update_first
tag_nodes heap w [] pool = some pool
tag_nodes heap w (rc ∷ rcs) pool =
    and_then (tag_nodes heap w rcs) (tag_transaction w pool (tx_id (get_elem? heap rc)))

unfoldable pub tag_all : Heap → Workers → List Transaction → Option (List Transaction)
unfolding tag_nodes
tag_all heap [] pool = some pool
tag_all heap ((w, rcs) ∷ workers) pool = and_then (tag_all heap workers) (tag_nodes heap w rcs pool)

abbrev pub to_loop : Option (List Transaction) → Loop (List Transaction)
to_loop none = crashed
to_loop (some pool) = ended pool

abbrev pub tag_assigned : Heap → List Transaction → Loop Workers → Loop (List Transaction)
tag_assigned heap pool out_of_fuel = out_of_fuel
tag_assigned heap pool crashed = crashed
tag_assigned heap pool (ended workers) = to_loop (tag_all heap workers pool)

abbrev pub assign_and_tag :
    List ThreadId → List Transaction → Loop (Heap × List (List Rc)) → Loop (List Transaction)
assign_and_tag worker_ids pool (ended (heap, components)) =
    tag_assigned heap pool (assign_components components (idle_workers worker_ids []))
assign_and_tag worker_ids pool out_of_fuel = out_of_fuel
assign_and_tag worker_ids pool crashed = crashed

-- `ConnectedComponents::distribute`, with fuel for each traversal. The debug assertions are left out.
unfoldable pub distribute : Codecs → ℕ → List ThreadId → List Transaction → Loop (List Transaction)
unfolding build components_from assign_components tag_all
distribute c fuel worker_ids pool =
    let (nodes, g) = build (λ t. validate c t.function t.origin) pool empty in
    assign_and_tag worker_ids pool (components_from fuel 0 nodes g.heap)
