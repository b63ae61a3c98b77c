-- ===== src/Executor/Components/Search.antt =====
-- executor/src/concurrent/tx_distribution.rs, `Node::traverse`: the nodes as a graph, and one round of the
-- loop in it.
pub mod Ends
pub mod Fuel
pub mod Closed
pub mod Explored
pub mod Classes
pub mod Groups
use sonic_chain.Base.{
  ℕ, zero, suc, ◌+◌, ◌≡◌, ◌≢◌, refl, ap, sym, ◌∙◌, Bool, true, false, ◌&&◌, Option, none, some,
  List, [], ◌∷◌, ◌++◌, ◌⊎◌, inl, inr, if◌then◌else◌, get_elem?, Bool-cases, Option-cases, arith,
  count_if, some-eq-some,
}
use sonic_chain.Executor.Components.{
  Rc, Node, NodeType, tx, key, Heap, is_tx_node, mark, is_none, visit, modify, neighbours,
  neighbours_of, unvisited, keep, Loop, ended, out_of_fuel, crashed, Traversal, traverse_loop,
  visit_current, push_neighbours,
}

abbrev pub In : Rc → List Rc → Type 0
In r [] = ⊥
In r (x ∷ xs) = (r ≡ x) ⊎ In r xs

pub In-left : (r : Rc) (xs ys : List Rc) → In r xs → In r (xs ++ ys)
In-left r [] ys h = absurd h
In-left r (x ∷ xs) ys (inl e) = inl e
In-left r (x ∷ xs) ys (inr h) = inr (In-left r xs ys h)

pub In-right : (r : Rc) (xs ys : List Rc) → In r ys → In r (xs ++ ys)
In-right r [] ys h = h
In-right r (x ∷ xs) ys h = inr (In-right r xs ys h)

pub In-append : (r : Rc) (xs ys : List Rc) → In r (xs ++ ys) → In r xs ⊎ In r ys
In-append r [] ys h = inr h
In-append r (x ∷ xs) ys (inl e) = inl (inl e)
In-append r (x ∷ xs) ys (inr h) = elim (In-append r xs ys h) [ inl i ↦ inl (inr i) | inr i ↦ inr i ]

pub In-keep :
    (test : Rc → Bool) (r : Rc) (xs : List Rc) → In r (keep test xs) → In r xs × (test r ≡ true)
In-keep test r [] h = absurd h
In-keep test r (x ∷ xs) h = elim (Bool-cases (test x)) [
  | inl e ↦
      let i : In r (x ∷ keep test xs) = rw e at h in
      elim i [
        | inl q ↦ (inl q, ap test q ∙ e)
        | inr i ↦ (inr (In-keep test r xs i).0, (In-keep test r xs i).1)
      ]
  | inr e ↦ let (i, t) = In-keep test r xs (rw e at h) in (inr i, t)
]

pub keep-In :
    (test : Rc → Bool) (r : Rc) (xs : List Rc) → In r xs → test r ≡ true → In r (keep test xs)
keep-In test r [] i t = absurd i
keep-In test r (x ∷ xs) (inl q) t = rw (sym (ap test q) ∙ t) (inl q)
keep-In test r (x ∷ xs) (inr i) t = elim (Bool-cases (test x)) [
  | inl e ↦ rw e (inr (keep-In test r xs i t))
  | inr e ↦ rw e (keep-In test r xs i t)
]

abbrev pub component_of : Option Node → Option ℕ
component_of none = none
component_of (some n) = n.component

-- The component of a node, if it has been visited.
abbrev pub component_at : Heap → Rc → Option ℕ
component_at heap r = component_of (get_elem? heap r)

abbrev pub links_of : Option Node → Option (List Rc)
links_of none = none
links_of (some n) = neighbours n

-- The neighbours of a node.
abbrev pub links : Heap → Rc → Option (List Rc)
links heap r = links_of (get_elem? heap r)

abbrev pub type_of : Option Node → Option NodeType
type_of none = none
type_of (some n) = some n.node_type

abbrev pub type_at : Heap → Rc → Option NodeType
type_at heap r = type_of (get_elem? heap r)

abbrev pub Present : Heap → Rc → Type 0
Present heap r = (rs : List Rc) × (links heap r ≡ some rs)

abbrev pub Adjacent : Heap → Rc → Rc → Type 0
Adjacent heap r x = (rs : List Rc) × (links heap r ≡ some rs) × In x rs

-- A node is a neighbour of its neighbours.
abbrev pub IsSymmetric : Heap → Type 0
IsSymmetric heap = (r x : Rc) → Adjacent heap r x → Adjacent heap x r

-- The nodes that have not been visited.
abbrev pub unvisited_count : Heap → ℕ
unvisited_count heap = count_if (λ n. is_none n.component) heap

pub unvisited_iff : (heap : Heap) (r : Rc) → unvisited heap r ≡ true → component_at heap r ≡ none
unvisited_iff [] r e = refl
unvisited_iff (x ∷ heap) zero e = go x.component e
  where
    go : (o : Option ℕ) → is_none o ≡ true → o ≡ none
    go none e = refl
    go (some j) e = cc
unvisited_iff (x ∷ heap) (suc r) e = unvisited_iff heap r e

pub Present-unvisited :
    (heap : Heap) (r : Rc) → Present heap r → component_at heap r ≡ none → unvisited heap r ≡ true
Present-unvisited [] r (rs, e) u = cc
Present-unvisited (x ∷ heap) zero p u = ap is_none u
Present-unvisited (x ∷ heap) (suc r) p u = Present-unvisited heap r p u

module _ (id : ℕ) where
  abbrev pub visited : Rc → Heap → Heap
  visited c heap = modify c (λ x. (visit id x).1) heap

  get_elem-visited :
      (heap : Heap) (c : Rc) (n : Node)
      → get_elem? heap c ≡ some n
      → get_elem? (visited c heap) c ≡ some (visit id n).1
  get_elem-visited [] c n e = cc
  get_elem-visited (x ∷ heap) zero n e = ap (λ o. some (visit id o).1) (some-eq-some e)
  get_elem-visited (x ∷ heap) (suc c) n e = get_elem-visited heap c n e

  pub visited_other :
      (heap : Heap) (c r : Rc) → c ≢ r → get_elem? (visited c heap) r ≡ get_elem? heap r
  visited_other [] c r h = refl
  visited_other (x ∷ heap) zero zero h = absurd (h refl)
  visited_other (x ∷ heap) zero (suc r) h = refl
  visited_other (x ∷ heap) (suc c) zero h = refl
  visited_other (x ∷ heap) (suc c) (suc r) h = visited_other heap c r (λ e. h (ap suc e))

  neighbours-visit : (n : Node) → neighbours (visit id n).1 ≡ neighbours n
  neighbours-visit n = go n.node_type
    where
      go : (t : NodeType) → neighbours_of t (visit id n).1 ≡ neighbours_of t n
      go (tx i) = refl
      go (key k) = refl

  pub links-visited : (heap : Heap) (c r : Rc) → links (visited c heap) r ≡ links heap r
  links-visited [] c r = refl
  links-visited (x ∷ heap) zero zero = neighbours-visit x
  links-visited (x ∷ heap) zero (suc r) = refl
  links-visited (x ∷ heap) (suc c) zero = refl
  links-visited (x ∷ heap) (suc c) (suc r) = links-visited heap c r

  visit_again : (n : Node) (j : ℕ) → n.component ≡ some j → (visit id n).1 ≡ n
  visit_again n j e = ap (λ c. record n { component = c }) (go n.component e)
    where
      go : (c : Option ℕ) → c ≡ some j → mark id c ≡ c
      go none e = cc
      go (some i) e = refl

  -- A visited node is not changed.
  pub visited_again :
      (heap : Heap) (c : Rc) (j : ℕ) → component_at heap c ≡ some j → visited c heap ≡ heap
  visited_again [] c j e = refl
  visited_again (x ∷ heap) zero j e = ap (λ n. n ∷ heap) (visit_again x j e)
  visited_again (x ∷ heap) (suc c) j e = ap (λ h. x ∷ h) (visited_again heap c j e)

  pub component-visited :
      (heap : Heap) (c : Rc)
      → Present heap c
      → component_at heap c ≡ none
      → component_at (visited c heap) c ≡ some id
  component-visited [] c (rs, e) u = cc
  component-visited (x ∷ heap) zero p u = ap (mark id) u
  component-visited (x ∷ heap) (suc c) p u = component-visited heap c p u

  pub component-other :
      (heap : Heap) (c r : Rc) → c ≢ r → component_at (visited c heap) r ≡ component_at heap r
  component-other heap c r h = ap component_of (visited_other heap c r h)

  pub count-visited :
      (heap : Heap) (c : Rc)
      → Present heap c
      → component_at heap c ≡ none
      → suc (unvisited_count (visited c heap)) ≡ unvisited_count heap
  count-visited [] c (rs, e) u = cc
  count-visited (x ∷ heap) zero p u = rw (ap is_none (ap (mark id) u), ap is_none u)
  count-visited (x ∷ heap) (suc c) p u = elim (Bool-cases (is_none x.component)) [
    | inl e ↦ rw e (ap suc (count-visited heap c p u))
    | inr e ↦ rw e (count-visited heap c p u)
  ]

  abbrev pub taken : Option Node → List Rc → Rc → List Rc
  taken none component c = component
  taken (some n) component c =
      if (visit id n).0 && is_tx_node n then component ++ (c ∷ []) else component

  -- The component after a round.
  abbrev pub component_after : Heap → List Rc → Rc → List Rc
  component_after heap component c = taken (get_elem? heap c) component c

  -- One round, for a node that is there.
  pub round :
      (fuel : ℕ) (heap : Heap) (component : List Rc) (c : Rc) (queue rs : List Rc)
      → links heap c ≡ some rs
      → traverse_loop (suc fuel) id heap component (c ∷ queue)
        ≡ traverse_loop fuel id
            (visited c heap)
            (component_after heap component c)
            (queue ++ keep (unvisited (visited c heap)) rs)
  unfolding traverse_loop
  round fuel heap component c queue rs e = go (get_elem? heap c) e
    where
      go :
          (found : Option Node)
          → links_of found ≡ some rs
          → visit_current (traverse_loop fuel id) id heap component c queue found
            ≡ traverse_loop fuel id
                (visited c heap)
                (taken found component c)
                (queue ++ keep (unvisited (visited c heap)) rs)
      go none e = cc
      go (some n) e = rw e
