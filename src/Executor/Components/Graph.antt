-- ===== src/Executor/Components/Graph.antt =====
-- executor/src/concurrent/tx_distribution.rs, `ConnectedComponents::distribute`: the graph of transactions
-- and keys, and its components.
pub mod Grows
pub mod Links
pub mod Symmetric
pub mod Joined
pub mod Shared
use sonic_chain.Base.{ℕ, ◌+◌, Option, none, some, List, [], ◌∷◌, ◌++◌, length, bytes_eq}
use sonic_chain.Base.HashMap
use sonic_chain.Base.HashMap.{HashMap}
use sonic_chain.Primitives.{Key}
use sonic_chain.Executor.Types.{Transaction}
use sonic_chain.Executor.Components.{
  Rc, Node, Heap, new_tx, new_key, add_key, add_tx, modify, Loop, ended, out_of_fuel, crashed,
  traverse, Traversal,
}

-- All nodes, and `keys_map`.
pub record Graph : Type 0 where
  pub heap : Heap
  pub keys_map : HashMap Key Rc

abbrev pub empty : Graph
empty = record { heap = []; keys_map = [] }

-- `keys_map.entry(key).or_insert(_)`
abbrev pub entry_or_insert : Key → Graph → Option Rc → Rc × Graph
entry_or_insert k g (some rc) = (rc, g)
entry_or_insert k g none = (
  length g.heap,
  record {
    heap = g.heap ++ (new_key k [] ∷ []);
    keys_map = HashMap.insert k (length g.heap) g.keys_map;
  },
)

-- The nodes of a transaction's keys, each told of the transaction.
unfoldable pub link_keys : Rc → List Key → Graph → List Rc × Graph
link_keys tx_rc [] g = ([], g)
link_keys tx_rc (k ∷ keys) g =
    let (rc, g1) = entry_or_insert k g (HashMap.get k g.keys_map) in
    let (rcs, g2) = link_keys tx_rc keys (record g1 { heap = modify rc (add_tx tx_rc) g1.heap }) in
    (rc ∷ rcs, g2)

abbrev pub add_keys : Rc → List Rc → Heap → Heap
add_keys tx_rc [] heap = heap
add_keys tx_rc (rc ∷ rcs) heap = add_keys tx_rc rcs (modify tx_rc (add_key rc) heap)

-- The node of a transaction with these keys.
unfoldable pub add_transaction : List Key → Transaction → Graph → Rc × Graph
unfolding link_keys
add_transaction keys tx g =
    let tx_rc : Rc = length g.heap in
    let (rcs, g1) = link_keys tx_rc keys (record g { heap = g.heap ++ (new_tx tx.id [] ∷ []) }) in
    (tx_rc, record g1 { heap = add_keys tx_rc rcs g1.heap })

-- `transaction_nodes`, by the keys that each transaction names in advance.
unfoldable pub build : (Transaction → List Key) → List Transaction → Graph → List Rc × Graph
unfolding add_transaction
build keys_of [] g = ([], g)
build keys_of (tx ∷ txs) g =
    let (rc, g1) = add_transaction (keys_of tx) tx g in
    let (rcs, g2) = build keys_of txs g1 in (rc ∷ rcs, g2)

-- Empty components are left out.
abbrev pub keep_component : List Rc → Loop (Heap × List (List Rc)) → Loop (Heap × List (List Rc))
keep_component [] rest = rest
keep_component (x ∷ xs) (ended (heap, components)) = ended (heap, (x ∷ xs) ∷ components)
keep_component (x ∷ xs) out_of_fuel = out_of_fuel
keep_component (x ∷ xs) crashed = crashed

abbrev pub next_component :
    (Heap → Loop (Heap × List (List Rc))) → Traversal → Loop (Heap × List (List Rc))
next_component next (ended (heap, component)) = keep_component component (next heap)
next_component next out_of_fuel = out_of_fuel
next_component next crashed = crashed

-- One traversal from each transaction's node, the component ids counted up.
unfoldable pub components_from : ℕ → ℕ → List Rc → Heap → Loop (Heap × List (List Rc))
unfolding traverse
components_from fuel id [] heap = ended (heap, [])
components_from fuel id (node ∷ nodes) heap =
    next_component (components_from fuel (id + 1) nodes) (traverse fuel node id heap)
