-- ===== src/Executor/Components.antt =====
-- executor/src/concurrent/tx_distribution.rs, `ConnectedComponents`: transactions that share a key, directly
-- or over others, go to one worker. An `Rc` is the place of its node in a list of all nodes, where a node
-- is changed in place and none is dropped.
pub mod Graph
pub mod Assign
pub mod Search
pub mod Distribution
use sonic_chain.Base.{
  ℕ, zero, suc, ◌+◌, Bool, true, false, ◌&&◌, Option, none, some, List, [], ◌∷◌, ◌++◌,
  if◌then◌else◌, length, get_elem?, erase_idx, leb, ltb, ◌==ℕ◌, bytes_eq,
}
use sonic_chain.Base.HashMap
use sonic_chain.Base.HashMap.{HashMap}
use sonic_chain.Primitives.{Key, ThreadId, AccountId}
use sonic_chain.Call.{OuterCall}
use sonic_chain.Executor.Types.{Transaction, TransactionId, set_done}
use sonic_chain.Executor.Pool

abbrev pub Rc : Type 0
Rc = ℕ

pub data NodeType : Type 0 where
  tx : TransactionId → NodeType
  key : Key → NodeType

pub record Node : Type 0 where
  pub node_type : NodeType
  pub keys : Option (List Rc)
  pub txs : Option (List Rc)
  pub component : Option ℕ

abbrev pub Heap : Type 0
Heap = List Node

abbrev pub new_tx : TransactionId → List Rc → Node
new_tx id keys = record { node_type = tx id; keys = some keys; txs = none; component = none }

abbrev pub new_key : Key → List Rc → Node
new_key k txs = record { node_type = key k; keys = none; txs = some txs; component = none }

abbrev pub is_tx_type : NodeType → Bool
is_tx_type (tx id) = true
is_tx_type (key k) = false

abbrev pub is_tx_node : Node → Bool
is_tx_node n = is_tx_type n.node_type

abbrev pub is_key_node : Node → Bool
is_key_node n = if is_tx_node n then false else true

-- `as_mut().unwrap().push(_)`, on a list that is there.
abbrev pub push_rc : Rc → Option (List Rc) → Option (List Rc)
push_rc rc none = none
push_rc rc (some rcs) = some (rcs ++ (rc ∷ []))

-- On a transaction's node.
abbrev pub add_key : Rc → Node → Node
add_key rc n = record n { keys = push_rc rc n.keys }

-- On a key's node.
abbrev pub add_tx : Rc → Node → Node
add_tx rc n = record n { txs = push_rc rc n.txs }

abbrev pub mark : ℕ → Option ℕ → Option ℕ
mark id none = some id
mark id (some j) = some j

abbrev pub is_none : Option ℕ → Bool
is_none none = true
is_none (some j) = false

-- What `visit` returns, and the node after it.
abbrev pub visit : ℕ → Node → Bool × Node
visit id n = (is_none n.component, record n { component = mark id n.component })

abbrev pub modify : Rc → (Node → Node) → Heap → Heap
modify rc f [] = []
modify zero f (n ∷ heap) = f n ∷ heap
modify (suc rc) f (n ∷ heap) = n ∷ modify rc f heap

abbrev pub neighbours_of : NodeType → Node → Option (List Rc)
neighbours_of (tx id) n = n.keys
neighbours_of (key k) n = n.txs

-- The other side of the node: the keys of a transaction, the transactions of a key.
abbrev pub neighbours : Node → Option (List Rc)
neighbours n = neighbours_of n.node_type n

abbrev unvisited_node : Option Node → Bool
unvisited_node none = false
unvisited_node (some n) = is_none n.component

abbrev pub unvisited : Heap → Rc → Bool
unvisited heap rc = unvisited_node (get_elem? heap rc)

abbrev pub keep : (Rc → Bool) → List Rc → List Rc
keep test [] = []
keep test (x ∷ xs) = let rest = keep test xs in if test x then x ∷ rest else rest

-- A loop on fuel ends, needs more, or panics.
pub data Loop (A : Type 0) : Type 0 where
  ended : A → Loop A
  out_of_fuel crashed : Loop A

-- The nodes, and the component.
abbrev pub Traversal : Type 0
Traversal = Loop (Heap × List Rc)

abbrev pub push_neighbours :
    (Heap → List Rc → List Rc → Traversal) → Heap → List Rc → List Rc → Option (List Rc) → Traversal
push_neighbours next heap component queue none = crashed
push_neighbours next heap component queue (some rcs) =
    next heap component (queue ++ keep (unvisited heap) rcs)

-- One round of the loop, for the node at the head of the queue.
abbrev pub visit_current :
    (Heap → List Rc → List Rc → Traversal)
    → ℕ
    → Heap
    → List Rc
    → Rc
    → List Rc
    → Option Node
    → Traversal
visit_current next id heap component current queue none = crashed
visit_current next id heap component current queue (some n) =
    push_neighbours next (modify current (λ x. (visit id x).1) heap)
      (if (visit id n).0 && is_tx_node n then component ++ (current ∷ []) else component) queue
      (neighbours n)

-- The loop of `Node::traverse`: the nodes, the component so far, the queue.
unfoldable pub traverse_loop : ℕ → ℕ → Heap → List Rc → List Rc → Traversal
traverse_loop fuel id heap component [] = ended (heap, component)
traverse_loop zero id heap component (current ∷ queue) = out_of_fuel
traverse_loop (suc fuel) id heap component (current ∷ queue) =
    visit_current (traverse_loop fuel id) id heap component current queue (get_elem? heap current)

-- `Node::traverse`
unfoldable pub traverse : ℕ → Rc → ℕ → Heap → Traversal
unfolding traverse_loop
traverse fuel start id heap = traverse_loop fuel id heap [] (start ∷ [])
