-- ===== src/Executor/Components/Search/Fuel.antt =====
-- executor/src/concurrent/tx_distribution.rs, `ConnectedComponents::distribute`: all traversals of the graph
-- end on the same fuel.
use sonic_chain.Base.{
  ℕ, zero, suc, ◌+◌, ◌≤◌, ◌≡◌, refl, ap, ◌∙◌, Option, none, some, List, [], ◌∷◌, inl, inr, arith,
  get_elem?,
}
use sonic_chain.Executor.Components.{
  Rc, Heap, Node, Loop, ended, out_of_fuel, crashed, Traversal, neighbours, modify, visit,
  traverse_loop, traverse, visit_current, push_neighbours,
}
use sonic_chain.Executor.Components.Graph.{components_from, next_component, keep_component}
use sonic_chain.Executor.Components.Search.Ends.{
  IsLinked, AllPresent, Present-SameLinks, IsLinked-SameLinks, traverse-Ends,
}

module _ (id : ℕ) where
  -- More fuel does not change how a loop ends.
  loop_more :
      (fuel more : ℕ) (heap : Heap) (component queue : List Rc) (result : Heap × List Rc)
      → fuel ≤ more
      → traverse_loop fuel id heap component queue ≡ ended result
      → traverse_loop more id heap component queue ≡ ended result
  unfolding traverse_loop
  loop_more fuel more heap component [] result le e = e
  loop_more zero more heap component (c ∷ queue) result le e = cc
  loop_more (suc fuel) zero heap component (c ∷ queue) result le e = absurd (omega (arith, le))
  loop_more (suc fuel) (suc more) heap component (c ∷ queue) result le e =
      by_node (get_elem? heap c) (λ h x q. loop_more fuel more h x q result (omega (arith, le))) e
    where
      by_links :
          (found : Option (List Rc)) (x : List Rc)
          → ((h : Heap) (x q : List Rc)
              → traverse_loop fuel id h x q ≡ ended result
              → traverse_loop more id h x q ≡ ended result)
          → push_neighbours
              (traverse_loop fuel id)
              (modify c (λ n. (visit id n).1) heap)
              x
              queue
              found
            ≡ ended result
          → push_neighbours
              (traverse_loop more id)
              (modify c (λ n. (visit id n).1) heap)
              x
              queue
              found
            ≡ ended result
      by_links none x ih e = cc
      by_links (some rs) x ih e = ih _ x _ e

      by_node :
          (found : Option Node)
          → ((h : Heap) (x q : List Rc)
              → traverse_loop fuel id h x q ≡ ended result
              → traverse_loop more id h x q ≡ ended result)
          → visit_current (traverse_loop fuel id) id heap component c queue found ≡ ended result
          → visit_current (traverse_loop more id) id heap component c queue found ≡ ended result
      by_node none ih e = cc
      by_node (some n) ih e = by_links (neighbours n) _ ih e

pub traverse_more :
    (fuel more : ℕ) (start : Rc) (id : ℕ) (heap : Heap) (result : Heap × List Rc)
    → fuel ≤ more
    → traverse fuel start id heap ≡ ended result
    → traverse more start id heap ≡ ended result
unfolding traverse
traverse_more fuel more start id heap result le e =
    loop_more id fuel more heap [] (start ∷ []) result le e

keep_more :
    (component : List Rc) (l l' : Loop (Heap × List (List Rc))) (result : Heap × List (List Rc))
    → ((r : Heap × List (List Rc)) → l ≡ ended r → l' ≡ ended r)
    → keep_component component l ≡ ended result
    → keep_component component l' ≡ ended result
keep_more [] l l' result more e = more result e
keep_more (x ∷ xs) out_of_fuel l' result more e = cc
keep_more (x ∷ xs) crashed l' result more e = cc
keep_more (x ∷ xs) (ended r) l' result more e = ap (keep_component (x ∷ xs)) (more r refl) ∙ e

pub components_more :
    (nodes : List Rc) (fuel more id : ℕ) (heap : Heap) (result : Heap × List (List Rc))
    → fuel ≤ more
    → components_from fuel id nodes heap ≡ ended result
    → components_from more id nodes heap ≡ ended result
unfolding components_from
components_more [] fuel more id heap result le e = e
components_more (node ∷ nodes) fuel more id heap result le e =
    go (traverse fuel node id heap) (traverse more node id heap)
      (λ r. traverse_more fuel more node id heap r le)
      (λ h r. components_more nodes fuel more (id + 1) h r le) e
  where
    go :
        (t t' : Traversal)
        → ((r : Heap × List Rc) → t ≡ ended r → t' ≡ ended r)
        → ((h : Heap) (r : Heap × List (List Rc))
            → components_from fuel (id + 1) nodes h ≡ ended r
            → components_from more (id + 1) nodes h ≡ ended r)
        → next_component (components_from fuel (id + 1) nodes) t ≡ ended result
        → next_component (components_from more (id + 1) nodes) t' ≡ ended result
    go out_of_fuel t' same ih e = cc
    go crashed t' same ih e = cc
    go (ended (h, x)) t' same ih e =
        ap (next_component (components_from more (id + 1) nodes)) (same (h, x) refl)
        ∙ keep_more x (components_from fuel (id + 1) nodes h)
            (components_from more (id + 1) nodes h) result (ih h) e

keep-ended :
    (component : List Rc) (heap : Heap) (components : List (List Rc))
    → (kept : List (List Rc)) × (keep_component component (ended (heap, components))
        ≡ ended (heap, kept))
keep-ended [] heap components = (components, refl)
keep-ended (x ∷ xs) heap components = ((x ∷ xs) ∷ components, refl)

-- Let every neighbour of a node be a node of the graph, and let all nodes of a list be nodes of the graph.
-- Then the traversals from the nodes of the list, each of which starts with the marks that those before it
-- have left, end on the same fuel, however many keys the transactions share, and none of them panics.
pub components_from-Ends :
    (nodes : List Rc) (id : ℕ) (heap : Heap)
    → IsLinked heap
    → AllPresent heap nodes
    → (fuel : ℕ) × (heap' : Heap) × (components : List (List Rc)) × (components_from fuel id nodes
          heap
        ≡ ended (heap', components))
unfolding components_from
components_from-Ends [] id heap l all = (0, heap, [], refl)
components_from-Ends (node ∷ nodes) id heap l all =
    let (f1, heap1, x, e1, s) = traverse-Ends id heap node l (all node (inl refl)) in
    let (f2, heap2, xs, e2) =
      components_from-Ends nodes (id + 1) heap1 (IsLinked-SameLinks heap heap1 s l)
        (λ r i. Present-SameLinks heap heap1 r s (all r (inr i))) in
    let (kept, k) = keep-ended x heap2 xs in
    let fuel : ℕ = f1 + f2 in
    (
      fuel,
      heap2,
      kept,
      ap (next_component (components_from fuel (id + 1) nodes))
            (traverse_more f1 fuel node id heap (heap1, x) (omega arith) e1)
          ∙ ap (keep_component x)
              (components_more nodes f2 fuel (id + 1) heap1 (heap2, xs) (omega arith) e2)
          ∙ k,
    )
