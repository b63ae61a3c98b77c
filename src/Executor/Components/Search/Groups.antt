-- ===== src/Executor/Components/Search/Groups.antt =====
-- executor/src/concurrent/tx_distribution.rs, `ConnectedComponents::distribute`: the components that all
-- traversals find.
use sonic_chain.Base.{
  ℕ, suc, ◌+◌, ◌≤◌, ◌<◌, ◌≡◌, refl, ap, sym, ◌∙◌, true, none, some, List, [], ◌∷◌, ◌⊎◌, inl, inr,
  subst, arith,
}
use sonic_chain.Executor.Components.{
  Rc, Heap, Loop, ended, out_of_fuel, crashed, traverse, Traversal,
}
use sonic_chain.Executor.Components.Graph.{components_from, next_component, keep_component}
use sonic_chain.Executor.Components.Search.{In, component_at, type_at, Adjacent, IsSymmetric}
use sonic_chain.Executor.Components.Search.Ends.{SameLinks}
use sonic_chain.Executor.Components.Search.Closed.{none-some, ended-eq-ended}
use sonic_chain.Executor.Components.Search.Explored.{
  is_tx_at, is_tx-same, IsClosed, IsSymmetric-SameLinks, Explored, traverse-Explored,
  Explored-IsClosed,
}
use sonic_chain.Executor.Components.Search.Classes.{
  IsClass, Classes, Classes-mono, Classes-mark, Classes-apart, Member,
}

-- The classes that the traversals of `nodes` add to the marks before.
record Groups (id : ℕ) (nodes : List Rc) (before heap : Heap) (components : List (List Rc))
    : Type 0 where
  same_types : (r : Rc) → type_at heap r ≡ type_at before r
  same : SameLinks before heap
  closed : IsClosed heap
  kept : (r : Rc) (j : ℕ) → component_at before r ≡ some j → component_at heap r ≡ some j
  new :
      (r : Rc) (j : ℕ) → component_at heap r ≡ some j → (component_at before r ≡ some j) ⊎ (id ≤ j)
  classes : Classes heap id components
  covered :
      (r : Rc) (j : ℕ)
      → is_tx_at heap r ≡ true
      → component_at heap r ≡ some j
      → (component_at before r ≡ some j) ⊎ ((i : ℕ) × Member components i r)
  reached : (r : Rc) → In r nodes → (j : ℕ) × (component_at heap r ≡ some j)

-- Marks are below the next one.
abbrev Below : ℕ → Heap → Type 0
Below id heap = (r : Rc) (j : ℕ) → component_at heap r ≡ some j → j < id

module _ (id : ℕ) (node : Rc) (nodes : List Rc) (before heap1 heap : Heap) (component : List Rc)
    (symmetric : IsSymmetric before) (below : Below id before)
    (x : Explored id before symmetric node heap1 component []) where
  class :
      (components : List (List Rc))
      → Groups (id + 1) nodes heap1 heap components
      → IsClass heap id component
  class components g r = (
    λ h. (
      is_tx-same heap heap1 g.same_types r
          ∙ is_tx-same heap1 before x.same_types r
          ∙ (x.members r h).0,
      g.kept r id (x.members r h).1,
    ),
    λ t s. elim (g.new r id s) [
      | inl e ↦
          x.complete r
            (sym (is_tx-same heap1 before x.same_types r)
              ∙ sym (is_tx-same heap heap1 g.same_types r)
              ∙ t)
            e
      | inr le ↦ absurd (omega (arith, le))
    ],
  )

  module _ (components kept_components : List (List Rc))
      (g : Groups (id + 1) nodes heap1 heap components) (classes : Classes heap id kept_components)
      (keeps : (i : ℕ) (r : Rc) → Member components i r → (k : ℕ) × Member kept_components k r)
      (first : (r : Rc) → In r component → (k : ℕ) × Member kept_components k r) where
    new_marks :
        (r : Rc) (j : ℕ)
        → component_at heap r ≡ some j
        → (component_at before r ≡ some j) ⊎ (id ≤ j)
    new_marks r j e = elim (g.new r j e) [
      | inl s ↦ elim (x.new r j s) [ inl b ↦ inl b | inr q ↦ inr (omega (arith, q)) ]
      | inr le ↦ inr (omega (arith, le))
    ]

    covers :
        (r : Rc) (j : ℕ)
        → is_tx_at heap r ≡ true
        → component_at heap r ≡ some j
        → (component_at before r ≡ some j) ⊎ ((i : ℕ) × Member kept_components i r)
    covers r j t e = elim (g.covered r j t e) [
      | inl s ↦ elim (x.new r j s) [
        | inl b ↦ inl b
        | inr q ↦ inr (first r ((class components g r).1 t (e ∙ ap some q)))
      ]
      | inr (i, m) ↦ inr (keeps i r m)
    ]

    reaches : (r : Rc) → In r (node ∷ nodes) → (j : ℕ) × (component_at heap r ≡ some j)
    reaches r (inl q) = elim x.started [
      | inl (j, s) ↦ (j, ap (component_at heap) q ∙ g.kept node j s)
      | inr f ↦ absurd f
    ]
    reaches r (inr h) = g.reached r h

    Groups-with : Groups id (node ∷ nodes) before heap kept_components
    Groups-with = record {
      same_types = λ r. g.same_types r ∙ x.same_types r;
      same = λ r. g.same r ∙ x.same r;
      closed = g.closed;
      kept = λ r j e. g.kept r j (x.kept r j e);
      new = new_marks;
      classes = classes;
      covered = covers;
      reached = reaches;
    }

keep-heap :
    (component : List Rc) (h heap : Heap) (cs components : List (List Rc))
    → keep_component component (ended (h, cs)) ≡ ended (heap, components)
    → h ≡ heap
keep-heap [] h heap cs components e = ap (λ r. r.0) (ended-eq-ended e)
keep-heap (x ∷ xs) h heap cs components e = ap (λ r. r.0) (ended-eq-ended e)

module _ (fuel : ℕ) where
  Groups-nil : (id : ℕ) (before : Heap) → IsClosed before → Groups id [] before before []
  Groups-nil id before closed = record {
    same_types = λ r. refl;
    same = λ r. refl;
    closed = closed;
    kept = λ r j e. e;
    new = λ r j e. inl e;
    classes = tt;
    covered = λ r j t e. inl e;
    reached = λ r h. absurd h;
  }

  module _ (id : ℕ) (node : Rc) (nodes : List Rc) (before heap1 heap : Heap)
      (symmetric : IsSymmetric before) (below : Below id before) where
    -- The component of a traversal joins the others if it is not empty.
    Groups-cons :
        (component : List Rc) (components kept : List (List Rc))
        → Explored id before symmetric node heap1 component []
        → Groups (id + 1) nodes heap1 heap components
        → keep_component component (ended (heap, components)) ≡ ended (heap, kept)
        → Groups id (node ∷ nodes) before heap kept
    Groups-cons [] components kept x g e =
        subst (Groups id (node ∷ nodes) before heap) (ap (λ r. r.1) (ended-eq-ended e)) (
          Groups-with id node nodes before heap1 heap [] symmetric below x components components g
            (Classes-mono heap id (id + 1) components (omega arith) g.classes) (λ i r m. (i, m))
            (λ r h. absurd h))
    Groups-cons (c ∷ cs) components kept x g e =
        subst (Groups id (node ∷ nodes) before heap) (ap (λ r. r.1) (ended-eq-ended e)) (
          Groups-with id node nodes before heap1 heap (c ∷ cs) symmetric below x components
            ((c ∷ cs) ∷ components) g
            (
              id,
              omega arith,
              class id node nodes before heap1 heap (c ∷ cs) symmetric below x components g,
              Classes-mono heap (suc id) (id + 1) components (omega arith) g.classes,
            )
            (λ i r m. (suc i, m)) (λ r h. (0, (c ∷ cs, refl, h))))

  groups :
      (nodes : List Rc) (id : ℕ) (before heap : Heap) (components : List (List Rc))
      → IsSymmetric before
      → IsClosed before
      → Below id before
      → components_from fuel id nodes before ≡ ended (heap, components)
      → Groups id nodes before heap components
  unfolding components_from
  groups [] id before heap components symmetric closed below e =
      subst (λ r. Groups id [] before r.0 r.1) (ended-eq-ended e) (Groups-nil id before closed)
  groups (node ∷ nodes) id before heap components symmetric closed below e =
      by_traversal (traverse fuel node id before) refl
        (λ h cs s c b r. groups nodes (id + 1) h heap cs s c b r) e
    where
      by_rest :
          (heap1 : Heap) (component : List Rc) (rest : Loop (Heap × List (List Rc)))
          → Explored id before symmetric node heap1 component []
          → ((cs : List (List Rc)) → rest ≡ ended (heap, cs) → Groups (id + 1) nodes heap1 heap cs)
          → keep_component component rest ≡ ended (heap, components)
          → Groups id (node ∷ nodes) before heap components
      by_rest heap1 [] out_of_fuel x ih e = cc
      by_rest heap1 (c ∷ component) out_of_fuel x ih e = cc
      by_rest heap1 [] crashed x ih e = cc
      by_rest heap1 (c ∷ component) crashed x ih e = cc
      by_rest heap1 component (ended (h, cs)) x ih e =
          let same : h ≡ heap = keep-heap component h heap cs components e in
          Groups-cons id node nodes before heap1 heap symmetric below component cs components x
            (ih cs (ap (λ y. ended (y, cs)) same))
            (subst (λ y. keep_component component (ended (y, cs)) ≡ ended (heap, components)) same
              e)

      by_traversal :
          (t : Traversal)
          → traverse fuel node id before ≡ t
          → ((h : Heap) (cs : List (List Rc))
              → IsSymmetric h
              → IsClosed h
              → Below (id + 1) h
              → components_from fuel (id + 1) nodes h ≡ ended (heap, cs)
              → Groups (id + 1) nodes h heap cs)
          → next_component (components_from fuel (id + 1) nodes) t ≡ ended (heap, components)
          → Groups id (node ∷ nodes) before heap components
      by_traversal out_of_fuel d ih e = cc
      by_traversal crashed d ih e = cc
      by_traversal (ended (heap1, component)) d ih e =
          let x : Explored id before symmetric node heap1 component [] =
            traverse-Explored id before symmetric node fuel heap1 component closed
              (λ r u. omega (arith, below r id u)) d in
          by_rest heap1 component (components_from fuel (id + 1) nodes heap1) x
            (λ cs r.
              ih heap1 cs (IsSymmetric-SameLinks before heap1 x.same symmetric)
                (Explored-IsClosed id before symmetric node heap1 component x)
                (λ y j s. elim (x.new y j s) [
                  | inl b ↦ omega (arith, below y j b)
                  | inr q ↦ omega (arith, q)
                ])
                r)
            e

-- What the traversals of `nodes` find in a graph without marks.
pub record Partitions (nodes : List Rc) (heap heap' : Heap) (components : List (List Rc))
    : Type 0 where
  pub covers : (r : Rc) → In r nodes → is_tx_at heap r ≡ true → (i : ℕ) × Member components i r
  pub transactions : (i : ℕ) (r : Rc) → Member components i r → is_tx_at heap r ≡ true
  pub together :
      (i : ℕ) (r k x : Rc)
      → Member components i r
      → Adjacent heap r k
      → Adjacent heap k x
      → is_tx_at heap x ≡ true
      → Member components i x
  pub apart : (i j : ℕ) (r : Rc) → Member components i r → Member components j r → i ≡ j
  pub same_types : (r : Rc) → type_at heap' r ≡ type_at heap r

-- In a symmetric graph without marks, let the traversals from a list of nodes end. Then every transaction of
-- the list is in a component; only transactions are; with a transaction, all that are neighbours of a
-- neighbour of it, a key, are in the same component; no transaction is in two, and
-- no node has got another type.
pub components_from-Partitions :
    (fuel : ℕ) (nodes : List Rc) (heap heap' : Heap) (components : List (List Rc))
    → IsSymmetric heap
    → ((r : Rc) → component_at heap r ≡ none)
    → components_from fuel 0 nodes heap ≡ ended (heap', components)
    → Partitions nodes heap heap' components
components_from-Partitions fuel nodes heap heap' components symmetric unmarked e =
    let g : Groups 0 nodes heap heap' components =
      groups fuel nodes 0 heap heap' components symmetric
        (λ i r j a s. absurd (none-some (unmarked i) s))
        (λ r j s. absurd (none-some (unmarked r) s)) e in
    record {
      covers = λ r h t.
          let (j, s) = g.reached r h in
          elim (g.covered r j (is_tx-same heap' heap g.same_types r ∙ t) s) [
            | inl b ↦ absurd (none-some (unmarked r) b)
            | inr m ↦ m
          ];
      transactions = λ i r m.
          let (j, le, t, s, all) = Classes-mark heap' 0 components i r g.classes m in
          sym (is_tx-same heap' heap g.same_types r) ∙ t;
      together = λ i r k x m a b t.
          let (j, le, u, s, all) = Classes-mark heap' 0 components i r g.classes m in
          all x (is_tx-same heap' heap g.same_types x ∙ t)
            (g.closed k x j (moved g.same k x b) (g.closed r k j (moved g.same r k a) s));
      same_types = g.same_types;
      apart = λ i j r m n. Classes-apart heap' 0 components i j r g.classes m n;
    }
  where
    moved : SameLinks heap heap' → (i r : Rc) → Adjacent heap i r → Adjacent heap' i r
    moved same i r (rs, e, h) = (rs, same i ∙ e, h)
