-- ===== src/Executor/Components/Search/Ends.antt =====
-- executor/src/concurrent/tx_distribution.rs, `Node::traverse`: the loop ends.
use sonic_chain.Base.{
  ℕ, zero, suc, ◌≤◌, ◌≡◌, refl, sym, ◌∙◌, Bool, none, some, List, [], ◌∷◌, ◌++◌, inl, inr, subst,
  arith, Option-cases, Bool-cases,
}
use mathlib.Core.List.{append_assoc, append-nil}
use sonic_chain.Executor.Components.{Rc, Heap, keep, unvisited, ended, traverse_loop, traverse}
use sonic_chain.Executor.Components.Search.{
  In, In-append, In-keep, component_at, links, Present, Adjacent, links-visited, visited,
  visited_again, unvisited_count, count-visited, unvisited_iff, component_after, round,
}

-- Every neighbour is a node.
abbrev pub IsLinked : Heap → Type 0
IsLinked heap = (r x : Rc) → Adjacent heap r x → Present heap x

abbrev pub AllPresent : Heap → List Rc → Type 0
AllPresent heap queue = (r : Rc) → In r queue → Present heap r

-- The first in the queue has not been visited.
abbrev Fresh : Heap → List Rc → Type 0
Fresh heap [] = Unit
Fresh heap (x ∷ xs) = component_at heap x ≡ none

Fresh-keep : (heap : Heap) (rs : List Rc) → Fresh heap (keep (unvisited heap) rs)
Fresh-keep heap [] = tt
Fresh-keep heap (x ∷ rs) = elim (Bool-cases (unvisited heap x)) [
  | inl e ↦ rw e (unvisited_iff heap x e)
  | inr e ↦ rw e (Fresh-keep heap rs)
]

Fresh-push :
    (heap : Heap) (post rs : List Rc)
    → Fresh heap post
    → Fresh heap (post ++ keep (unvisited heap) rs)
Fresh-push heap [] rs f = Fresh-keep heap rs
Fresh-push heap (x ∷ post) rs f = f

abbrev pub SameLinks : Heap → Heap → Type 0
SameLinks heap heap' = (r : Rc) → links heap' r ≡ links heap r

pub Present-SameLinks :
    (heap heap' : Heap) (r : Rc) → SameLinks heap heap' → Present heap r → Present heap' r
Present-SameLinks heap heap' r s (rs, e) = (rs, s r ∙ e)

pub IsLinked-SameLinks : (heap heap' : Heap) → SameLinks heap heap' → IsLinked heap → IsLinked heap'
IsLinked-SameLinks heap heap' s l r x (rs, e, i) =
    Present-SameLinks heap heap' x s (l r x (rs, sym (s r) ∙ e, i))

module _ (id : ℕ) where
  -- The loop ends, and no list of neighbours has changed.
  abbrev pub Ends : Heap → List Rc → List Rc → Type 0
  Ends heap component queue =
      (fuel : ℕ) × (heap' : Heap) × (component' : List Rc) × (traverse_loop fuel id heap component
          queue
        ≡ ended (heap', component'))
      × SameLinks heap heap'

  -- The loop ends wherever fewer than `u` nodes are left to visit.
  abbrev EndsBelow : ℕ → Type 0
  EndsBelow u =
      (heap : Heap) (component queue : List Rc)
      → IsLinked heap
      → AllPresent heap queue
      → suc (unvisited_count heap) ≤ u
      → Ends heap component queue

  AllPresent-push :
      (heap : Heap) (c : Rc) (queue rs : List Rc) (test : Rc → Bool)
      → IsLinked heap
      → links heap c ≡ some rs
      → AllPresent heap queue
      → AllPresent heap (queue ++ keep test rs)
  AllPresent-push heap c queue rs test l e all r i = elim (In-append r queue (keep test rs) i) [
    | inl j ↦ all r j
    | inr j ↦ l c r (rs, e, (In-keep test r rs j).0)
  ]

  -- From one round to the loop.
  Ends-round :
      (heap : Heap) (component : List Rc) (c : Rc) (queue rs : List Rc)
      → links heap c ≡ some rs
      → Ends
          (visited id c heap)
          (component_after id heap component c)
          (queue ++ keep (unvisited (visited id c heap)) rs)
      → Ends heap component (c ∷ queue)
  Ends-round heap component c queue rs e (fuel, heap', component', h, s) = (
    suc fuel,
    heap',
    component',
    round id fuel heap component c queue rs e ∙ h,
    λ r. s r ∙ links-visited id heap c r,
  )

  module _ (u : ℕ) (below : EndsBelow u) where
    -- A node that had not been visited is one fewer.
    Ends-new :
        (heap : Heap) (component : List Rc) (c : Rc) (queue : List Rc)
        → IsLinked heap
        → AllPresent heap (c ∷ queue)
        → unvisited_count heap ≤ u
        → component_at heap c ≡ none
        → Ends heap component (c ∷ queue)
    Ends-new heap component c queue l all n fresh =
        let (rs, e) = all c (inl refl) in
        Ends-round heap component c queue rs e (
          below (visited id c heap) _ _
            (IsLinked-SameLinks heap (visited id c heap) (links-visited id heap c) l)
            (λ r i. Present-SameLinks heap (visited id c heap) r (links-visited id heap c) (
              AllPresent-push heap c queue rs (unvisited (visited id c heap)) l e
                (λ x j. all x (inr j)) r i))
            (omega (arith, count-visited id heap c (rs, e) fresh)))

    -- A node that had been visited is one fewer before the first that has not.
    Ends-from :
        (pre post : List Rc) (heap : Heap) (component : List Rc)
        → IsLinked heap
        → AllPresent heap (pre ++ post)
        → unvisited_count heap ≤ u
        → Fresh heap post
        → Ends heap component (pre ++ post)
    unfolding traverse_loop
    Ends-from [] [] heap component l all n f = (0, heap, component, refl, λ r. refl)
    Ends-from [] (c ∷ post) heap component l all n f = Ends-new heap component c post l all n f
    Ends-from (c ∷ pre) post heap component l all n f =
        let ih : (post' : List Rc)
            → AllPresent heap (pre ++ post')
            → Fresh heap post'
            → Ends heap (component_after id heap component c) (pre ++ post') =
          λ post' a g. Ends-from pre post' heap _ l a n g in
        elim (Option-cases (component_at heap c)) [
          | inl fresh ↦ Ends-new heap component c (pre ++ post) l all n fresh
          | inr (j, old) ↦
              let (rs, e) = all c (inl refl) in
              let pushed : List Rc = keep (unvisited heap) rs in
              let h : Ends heap (component_after id heap component c) (pre ++ (post ++ pushed)) =
                ih (post ++ pushed)
                  (subst (AllPresent heap) (append_assoc pre post pushed) (
                    AllPresent-push heap c (pre ++ post) rs (unvisited heap) l e
                      (λ x i. all x (inr i))))
                  (Fresh-push heap post rs f) in
              Ends-round heap component c (pre ++ post) rs e (
                subst
                  (λ x.
                    Ends x (component_after id heap component c)
                      ((pre ++ post) ++ keep (unvisited x) rs))
                  (sym (visited_again id heap c j old))
                  (subst (Ends heap (component_after id heap component c))
                    (sym (append_assoc pre post pushed)) h))
        ]

  ends_below : (u : ℕ) → EndsBelow u
  ends_below zero heap component queue l all n = absurd (omega (arith, n))
  ends_below (suc u) heap component queue l all n = subst (Ends heap component) (append-nil queue) (
      Ends-from u (ends_below u) queue [] heap component l
        (subst (AllPresent heap) (sym (append-nil queue)) all) (omega (arith, n)) tt)

  -- In a graph in which every neighbour is a node, a traversal from any node ends on enough fuel, without
  -- a panic, and changes no list of neighbours.
  pub traverse-Ends :
      (heap : Heap) (start : Rc)
      → IsLinked heap
      → Present heap start
      → (fuel : ℕ) × (heap' : Heap) × (component : List Rc) × (traverse fuel start id heap
          ≡ ended (heap', component))
        × SameLinks heap heap'
  unfolding traverse
  traverse-Ends heap start l p =
      ends_below (suc (unvisited_count heap)) heap [] (start ∷ []) l
        (λ r i. elim i [ inl e ↦ subst (Present heap) (sym e) p | inr f ↦ absurd f ]) (omega arith)
