-- ===== src/Executor/Components/Search/Explored.antt =====
-- executor/src/concurrent/tx_distribution.rs, `Node::traverse`: what a traversal has marked, and what it
-- returns.
use sonic_chain.Base.{
  ℕ, zero, suc, ◌≡◌, ◌≢◌, refl, ap, sym, ◌∙◌, Bool, true, false, ◌&&◌, Option, none, some, List, [],
  ◌∷◌, ◌++◌, ◌⊎◌, inl, inr, subst, if◌then◌else◌, get_elem?, Bool-cases, Option-cases, some-eq-some,
  ◌==ℕ◌, ==ℕ_iff,
}
use sonic_chain.Executor.Components.{
  Rc, Heap, Node, keep, unvisited, is_tx_node, is_tx_type, is_none, ended, traverse,
}
use sonic_chain.Executor.Components.Search.{
  In, In-left, In-right, In-append, component_at, type_of, type_at, links, Present, Adjacent,
  IsSymmetric, links-visited, visited, visited_again, component-visited, component-other,
  component_after, taken, component_of,
}
use sonic_chain.Executor.Components.Search.Ends.{SameLinks}
use sonic_chain.Executor.Components.Search.Closed.{loop_rule, Marks, Marks-round, none-some}

abbrev is_tx_found : Option Node → Bool
is_tx_found none = false
is_tx_found (some n) = is_tx_node n

-- Whether a node is a transaction's.
abbrev pub is_tx_at : Heap → Rc → Bool
is_tx_at heap r = is_tx_found (get_elem? heap r)

pub is_tx-same :
    (heap before : Heap)
    → ((r : Rc) → type_at heap r ≡ type_at before r)
    → (r : Rc) → is_tx_at heap r ≡ is_tx_at before r
is_tx-same heap before same r = go (get_elem? heap r) (get_elem? before r) (same r)
  where
    go : (a b : Option Node) → type_of a ≡ type_of b → is_tx_found a ≡ is_tx_found b
    go none none e = refl
    go none (some n) e = cc
    go (some m) none e = cc
    go (some m) (some n) e = ap is_tx_type (some-eq-some e)

pub IsSymmetric-SameLinks :
    (heap heap' : Heap) → SameLinks heap heap' → IsSymmetric heap → IsSymmetric heap'
IsSymmetric-SameLinks heap heap' s symmetric i r (rs, e, h) =
    let (xs, there, j) = symmetric i r (rs, sym (s i) ∙ e, h) in (xs, s r ∙ there, j)

-- Neighbours have one component.
abbrev pub IsClosed : Heap → Type 0
IsClosed heap =
    (i r : Rc) (j : ℕ)
    → Adjacent heap i r
    → component_at heap i ≡ some j
    → component_at heap r ≡ some j

module _ (id : ℕ) where
  type-visited : (heap : Heap) (c r : Rc) → type_at (visited id c heap) r ≡ type_at heap r
  type-visited [] c r = refl
  type-visited (x ∷ heap) zero zero = refl
  type-visited (x ∷ heap) zero (suc r) = refl
  type-visited (x ∷ heap) (suc c) zero = refl
  type-visited (x ∷ heap) (suc c) (suc r) = type-visited heap c r

  -- A node is as it was, or it is marked now.
  visited_cases :
      (heap : Heap) (c r : Rc)
      → Present heap c
      → (component_at (visited id c heap) r ≡ component_at heap r)
        ⊎ ((r ≡ c) × (component_at heap r ≡ none) × (component_at (visited id c heap) r ≡ some id))
  visited_cases heap c r p = elim (Bool-cases (c ==ℕ r)) [
    | inl q ↦ elim (Option-cases (component_at heap c)) [
      | inl u ↦
          let e : c ≡ r = (==ℕ_iff c r).0 q in
          inr (
            sym e,
            ap (component_at heap) (sym e) ∙ u,
            ap (component_at (visited id c heap)) (sym e) ∙ component-visited id heap c p u,
          )
      | inr (k, s) ↦ inl (ap (λ h. component_at h r) (visited_again id heap c k s))
    ]
    | inr q ↦ inl (component-other id heap c r (λ e. cc ((==ℕ_iff c r).1 e)))
  ]

  -- The component gets the node if it is a transaction's and is marked now.
  taken_cases :
      (found : Option Node) (component : List Rc) (c : Rc)
      → ((component_of found ≡ none)
          × (is_tx_found found ≡ true)
          × (taken id found component c ≡ component ++ (c ∷ [])))
        ⊎ (((component_of found ≢ none) ⊎ (is_tx_found found ≡ false))
            × (taken id found component c ≡ component))
  taken_cases none component c = inr (inr refl, refl)
  taken_cases (some n) component c = go n.component (is_tx_node n)
    where
      go :
          (o : Option ℕ) (b : Bool)
          → ((o ≡ none)
              × (b ≡ true)
              × ((if is_none o && b then component ++ (c ∷ []) else component)
                  ≡ component ++ (c ∷ [])))
            ⊎ (((o ≢ none) ⊎ (b ≡ false))
                × ((if is_none o && b then component ++ (c ∷ []) else component) ≡ component))
      go none true = inl (refl, refl, refl)
      go none false = inr (inr refl, refl)
      go (some j) b = inr (inl (λ e. none-some e refl), refl)

  module _ (before : Heap) (symmetric : IsSymmetric before) (start : Rc) where
    -- From `before`, with the traversal in progress.
    pub record Explored (heap : Heap) (component queue : List Rc) : Type 0 where
      pub same : SameLinks before heap
      pub same_types : (r : Rc) → type_at heap r ≡ type_at before r
      pub marks : Marks id heap queue
      pub kept : (r : Rc) (j : ℕ) → component_at before r ≡ some j → component_at heap r ≡ some j
      pub new :
          (r : Rc) (j : ℕ)
          → component_at heap r ≡ some j
          → (component_at before r ≡ some j) ⊎ (j ≡ id)
      pub members :
          (r : Rc) → In r component → (is_tx_at before r ≡ true) × (component_at heap r ≡ some id)
      pub complete :
          (r : Rc) → is_tx_at before r ≡ true → component_at heap r ≡ some id → In r component
      pub started : ((j : ℕ) × (component_at heap start ≡ some j)) ⊎ In start queue

    module _ (heap : Heap) (component : List Rc) (c : Rc) (queue rs pushed : List Rc)
        (here : links heap c ≡ some rs) (x : Explored heap component (c ∷ queue)) where
      abbrev heap1 : Heap
      heap1 = visited id c heap

      kept_round : (r : Rc) (j : ℕ) → component_at heap r ≡ some j → component_at heap1 r ≡ some j
      kept_round r j e = elim (visited_cases heap c r (rs, here)) [
        | inl s ↦ s ∙ e
        | inr (q, u, s) ↦ absurd (none-some u e)
      ]

      new_round :
          (r : Rc) (j : ℕ)
          → component_at heap1 r ≡ some j
          → (component_at before r ≡ some j) ⊎ (j ≡ id)
      new_round r j e = elim (visited_cases heap c r (rs, here)) [
        | inl s ↦ x.new r j (sym s ∙ e)
        | inr (q, u, s) ↦ inr (some-eq-some (sym e ∙ s))
      ]

      marked : component_at heap c ≡ none → component_at heap1 c ≡ some id
      marked u = component-visited id heap c (rs, here) u

      members_round :
          (r : Rc)
          → In r (component_after id heap component c)
          → (is_tx_at before r ≡ true) × (component_at heap1 r ≡ some id)
      members_round r h = elim (taken_cases (get_elem? heap c) component c) [
        | inl (u, t, e) ↦ elim (In-append r component (c ∷ []) (subst (In r) e h)) [
          | inl i ↦ ((x.members r i).0, kept_round r id (x.members r i).1)
          | inr (inl q) ↦
              subst (λ y. (is_tx_at before y ≡ true) × (component_at heap1 y ≡ some id)) (sym q)
                (sym (is_tx-same heap before (x.same_types) c) ∙ t, marked u)
          | inr (inr f) ↦ absurd f
        ]
        | inr (n, e) ↦
            let i : In r component = subst (In r) e h in
            ((x.members r i).0, kept_round r id (x.members r i).1)
      ]

      complete_round :
          (r : Rc)
          → is_tx_at before r ≡ true
          → component_at heap1 r ≡ some id
          → In r (component_after id heap component c)
      complete_round r t s = elim (taken_cases (get_elem? heap c) component c) [
        | inl (u, tc, e) ↦ subst (In r) (sym e) (elim (visited_cases heap c r (rs, here)) [
          | inl w ↦ In-left r component (c ∷ []) (x.complete r t (sym w ∙ s))
          | inr (q, v, w) ↦ In-right r component (c ∷ []) (inl q)
        ])
        | inr (n, e) ↦ subst (In r) (sym e) (elim (visited_cases heap c r (rs, here)) [
          | inl w ↦ x.complete r t (sym w ∙ s)
          | inr (q, v, w) ↦ elim n [
            | inl seen ↦ absurd (seen (ap (component_at heap) (sym q) ∙ v))
            | inr other ↦ absurd (
                clash (
                  sym (ap (is_tx_at heap) q ∙ other) ∙ is_tx-same heap before (x.same_types) r ∙ t))
          ]
        ])
      ]
        where
          clash : false ≡ true → ⊥
          clash e = cc

      started_round : ((j : ℕ) × (component_at heap1 start ≡ some j)) ⊎ In start (queue ++ pushed)
      started_round = elim x.started [
        | inl (j, s) ↦ inl (j, kept_round start j s)
        | inr (inl q) ↦ inl (elim (Option-cases (component_at heap c)) [
          | inl u ↦ (id, ap (component_at heap1) q ∙ marked u)
          | inr (j, s) ↦ (j, ap (component_at heap1) q ∙ kept_round c j s)
        ])
        | inr (inr h) ↦ inr (In-left start queue pushed h)
      ]

    Explored-round :
        (heap : Heap) (component : List Rc) (c : Rc) (queue rs : List Rc)
        → links heap c ≡ some rs
        → Explored heap component (c ∷ queue)
        → Explored
            (visited id c heap)
            (component_after id heap component c)
            (queue ++ keep (unvisited (visited id c heap)) rs)
    Explored-round heap component c queue rs here x = record {
      same = λ r. links-visited id heap c r ∙ x.same r;
      same_types = λ r. type-visited heap c r ∙ x.same_types r;
      marks =
          Marks-round id heap c queue rs here (IsSymmetric-SameLinks before heap x.same symmetric)
            x.marks;
      kept = λ r j e. kept_round heap component c queue rs [] here x r j (x.kept r j e);
      new = new_round heap component c queue rs [] here x;
      members = members_round heap component c queue rs [] here x;
      complete = complete_round heap component c queue rs [] here x;
      started =
          started_round heap component c queue rs (keep (unvisited (visited id c heap)) rs) here x;
    }

    -- In a symmetric graph whose components are closed, none of them `id`, let a traversal with `id` end.
    -- Then no list of neighbours and no type of a node has changed; the components are closed again, old
    -- marks are kept and new ones are `id`; the start is marked, and what is returned are the nodes of
    -- transactions that are marked with `id`.
    pub traverse-Explored :
        (fuel : ℕ) (heap : Heap) (component : List Rc)
        → IsClosed before
        → ((r : Rc) → component_at before r ≢ some id)
        → traverse fuel start id before ≡ ended (heap, component)
        → Explored heap component []
    unfolding traverse
    traverse-Explored fuel heap component closed unused e =
        loop_rule id Explored Explored-round fuel before heap [] component (start ∷ []) e (record {
          same = λ r. refl;
          same_types = λ r. refl;
          marks = λ i r j a s. inl (closed i r j a s);
          kept = λ r j s. s;
          new = λ r j s. inl s;
          members = λ r h. absurd h;
          complete = λ r t s. absurd (unused r s);
          started = inr (inl refl);
        })

pub Explored-IsClosed :
    (id : ℕ) (before : Heap) (symmetric : IsSymmetric before) (start : Rc) (heap : Heap)
    (component : List Rc)
    → Explored id before symmetric start heap component []
    → IsClosed heap
Explored-IsClosed id before symmetric start heap component x i r j a e = elim (x.marks i r j a e) [
  | inl s ↦ s
  | inr (q, u, f) ↦ absurd f
]
