-- ===== src/Executor/Components/Search/Closed.antt =====
-- executor/src/concurrent/tx_distribution.rs, `Node::traverse`: neighbours end up in one component.
use sonic_chain.Base.{
  ℕ, zero, suc, ◌≡◌, ◌≢◌, ap, sym, ◌∙◌, Option, none, some, List, [], ◌∷◌, ◌++◌, ◌⊎◌, inl, inr,
  subst, get_elem?, Bool-cases, Option-cases, some-eq-some, ◌==ℕ◌, ==ℕ_iff,
}
use sonic_chain.Executor.Components.{
  Rc, Heap, Node, keep, unvisited, ended, crashed, traverse_loop, visit_current,
}
use sonic_chain.Executor.Components.Search.{
  In, In-left, In-right, keep-In, component_at, links, links_of, Adjacent, IsSymmetric,
  links-visited, visited, visited_again, component-visited, component-other, Present-unvisited,
  component_after, round,
}

pub none-some : {o : Option ℕ} {j : ℕ} → o ≡ none → o ≡ some j → ⊥
none-some p q = cc

pub ended-eq-ended : {A : Type 0} {r s : A} → ended r ≡ ended s → r ≡ s
ended-eq-ended e = cc

module _ (id : ℕ) where
  -- What one round keeps holds where the queue is empty.
  pub loop_rule :
      (P : Heap → List Rc → List Rc → Type 0)
      → ((heap : Heap) (component : List Rc) (c : Rc) (queue rs : List Rc)
          → links heap c ≡ some rs
          → P heap component (c ∷ queue)
          → P
              (visited id c heap)
              (component_after id heap component c)
              (queue ++ keep (unvisited (visited id c heap)) rs))
      → (fuel : ℕ) (heap heap' : Heap) (component component' queue : List Rc)
      → traverse_loop fuel id heap component queue ≡ ended (heap', component')
      → P heap component queue
      → P heap' component' []
  unfolding traverse_loop
  loop_rule P kept fuel heap heap' component component' [] e p =
      subst (λ r. P r.0 r.1 []) (ended-eq-ended e) p
  loop_rule P kept zero heap heap' component component' (c ∷ queue) e p = cc
  loop_rule P kept (suc fuel) heap heap' component component' (c ∷ queue) e p =
      elim (Option-cases (links heap c)) [
        | inl missing ↦ absurd (no_links (get_elem? heap c) missing e)
        | inr (rs, here) ↦
            loop_rule P kept fuel (visited id c heap) heap' (component_after id heap component c)
              component' _ (sym (round id fuel heap component c queue rs here) ∙ e)
              (kept heap component c queue rs here p)
      ]
    where
      no_links :
          (found : Option Node)
          → links_of found ≡ none
          → visit_current (traverse_loop fuel id) id heap component c queue found
            ≡ ended (heap', component')
          → ⊥
      no_links none missing e = cc
      no_links (some n) missing e = crashes (rw missing at e)
        where
          crashes : {r : Heap × List Rc} → crashed ≡ ended r → ⊥
          crashes e = cc

  -- A neighbour of a node with a component has the same, or waits in the queue of this traversal.
  abbrev pub Marks : Heap → List Rc → Type 0
  Marks heap queue =
      (i r : Rc) (j : ℕ)
      → Adjacent heap i r
      → component_at heap i ≡ some j
      → (component_at heap r ≡ some j) ⊎ ((j ≡ id) × (component_at heap r ≡ none) × In r queue)

  pub Adjacent-visited :
      (heap : Heap) (c i r : Rc) → Adjacent (visited id c heap) i r → Adjacent heap i r
  Adjacent-visited heap c i r (rs, e, h) = (rs, sym (links-visited id heap c i) ∙ e, h)

  visited-Adjacent :
      (heap : Heap) (c i r : Rc) → Adjacent heap i r → Adjacent (visited id c heap) i r
  visited-Adjacent heap c i r (rs, e, h) = (rs, links-visited id heap c i ∙ e, h)

  -- A node that had been visited leaves the marks, and its neighbours without one in the queue.
  Marks-old :
      (heap : Heap) (c : Rc) (queue rs : List Rc) (k : ℕ)
      → component_at heap c ≡ some k
      → Marks heap (c ∷ queue)
      → Marks heap (queue ++ keep (unvisited heap) rs)
  Marks-old heap c queue rs k old m i r j a e = elim (m i r j a e) [
    | inl s ↦ inl s
    | inr (q, u, inl same) ↦ absurd (none-some u (ap (component_at heap) same ∙ old))
    | inr (q, u, inr h) ↦ inr (q, u, In-left r queue (keep (unvisited heap) rs) h)
  ]

  module _ (heap : Heap) (c : Rc) (queue rs : List Rc) (here : links heap c ≡ some rs)
      (symmetric : IsSymmetric heap) (fresh : component_at heap c ≡ none)
      (m : Marks heap (c ∷ queue)) where
    abbrev heap1 : Heap
    heap1 = visited id c heap

    marked : component_at heap1 c ≡ some id
    marked = component-visited id heap c (rs, here) fresh

    -- A neighbour of the node that is marked now.
    from_c :
        (r : Rc)
        → Adjacent heap c r
        → (component_at heap1 r ≡ some id) ⊎ ((component_at heap1 r ≡ none) × In r rs)
    from_c r (rs', e, h) = elim (Bool-cases (c ==ℕ r)) [
      | inl q ↦ inl (subst (λ x. component_at heap1 x ≡ some id) ((==ℕ_iff c r).0 q) marked)
      | inr q ↦
          let other : component_at heap1 r ≡ component_at heap r =
            component-other id heap c r (λ p. cc ((==ℕ_iff c r).1 p)) in
          elim (Option-cases (component_at heap r)) [
            | inl u ↦ inr (other ∙ u, subst (In r) (some-eq-some (sym e ∙ here)) h)
            | inr (k, s) ↦ elim (m r c k (symmetric c r (rs', e, h)) s) [
              | inl z ↦ absurd (none-some fresh z)
              | inr (z, u, w) ↦ inl (other ∙ s ∙ ap some z)
            ]
          ]
    ]

    abbrev Marked : Rc → ℕ → Type 0
    Marked r j =
        (component_at heap1 r ≡ some j)
        ⊎ ((j ≡ id) × (component_at heap1 r ≡ none) × In r (queue ++ keep (unvisited heap1) rs))

    Marks-c : (r : Rc) (j : ℕ) → Adjacent heap1 c r → component_at heap1 c ≡ some j → Marked r j
    Marks-c r j a e =
        let z : j ≡ id = some-eq-some (sym e ∙ marked) in
        let (xs, there, h) = symmetric c r (Adjacent-visited heap c c r a) in
        elim (from_c r (Adjacent-visited heap c c r a)) [
          | inl s ↦ inl (s ∙ ap some (sym z))
          | inr (u, i) ↦ inr (
            z,
            u,
            In-right r queue (keep (unvisited heap1) rs) (
                keep-In (unvisited heap1) r rs i
                  (Present-unvisited heap1 r (xs, links-visited id heap c r ∙ there) u)),
          )
        ]

    Marks-others :
        (i r : Rc) (j : ℕ) → c ≢ i → Adjacent heap1 i r → component_at heap1 i ≡ some j → Marked r j
    Marks-others i r j n a e =
        elim (m i r j (Adjacent-visited heap c i r a) (sym (component-other id heap c i n) ∙ e)) [
          | inl s ↦ inl (
              component-other id heap c r (λ q. none-some fresh (ap (component_at heap) q ∙ s)) ∙ s)
          | inr (z, u, inl q) ↦ inl (ap (component_at heap1) q ∙ marked ∙ ap some (sym z))
          | inr (z, u, inr h) ↦ elim (Bool-cases (c ==ℕ r)) [
            | inl q ↦
                inl (ap (component_at heap1) (sym ((==ℕ_iff c r).0 q)) ∙ marked ∙ ap some (sym z))
            | inr q ↦ inr (
              z,
              component-other id heap c r (λ p. cc ((==ℕ_iff c r).1 p)) ∙ u,
              In-left r queue (keep (unvisited heap1) rs) h,
            )
          ]
        ]

    Marks-new : Marks heap1 (queue ++ keep (unvisited heap1) rs)
    Marks-new i r j a e = elim (Bool-cases (c ==ℕ i)) [
      | inl q ↦
          subst (λ x. Adjacent heap1 x r → component_at heap1 x ≡ some j → Marked r j)
            ((==ℕ_iff c i).0 q) (Marks-c r j) a e
      | inr q ↦ Marks-others i r j (λ p. cc ((==ℕ_iff c i).1 p)) a e
    ]

  -- One round keeps the marks.
  pub Marks-round :
      (heap : Heap) (c : Rc) (queue rs : List Rc)
      → links heap c ≡ some rs
      → IsSymmetric heap
      → Marks heap (c ∷ queue)
      → Marks (visited id c heap) (queue ++ keep (unvisited (visited id c heap)) rs)
  Marks-round heap c queue rs here symmetric m = elim (Option-cases (component_at heap c)) [
    | inl fresh ↦ Marks-new heap c queue rs here symmetric fresh m
    | inr (k, old) ↦
        subst (λ x. Marks x (queue ++ keep (unvisited x) rs)) (sym (visited_again id heap c k old))
          (Marks-old heap c queue rs k old m)
  ]
