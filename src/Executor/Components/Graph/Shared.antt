-- ===== src/Executor/Components/Graph/Shared.antt =====
-- executor/src/concurrent/tx_distribution.rs, `ConnectedComponents::distribute`: the graph of a pool, and
-- what its components are to the transactions and their keys.
use sonic_chain.Base.{
  ℕ, zero, suc, ◌≡◌, refl, ap, sym, ◌∙◌, true, none, some, List, [], ◌∷◌, ◌⊎◌, inl, inr, subst,
  get_elem?, some-eq-some, bytes_eq,
}
use sonic_chain.Base.HashMap.{get}
use sonic_chain.Primitives.{Key}
use sonic_chain.Executor.Types.{Transaction}
use sonic_chain.Executor.Components.{Rc, Heap, NodeType, tx, key, is_tx_type, ended}
use sonic_chain.Executor.Components.Graph.{Graph, empty, add_transaction, build, components_from}
use sonic_chain.Executor.Components.Graph.Links.{Extends, Extends-refl, Extends-trans}
use sonic_chain.Executor.Components.Graph.Symmetric.{Named}
use sonic_chain.Executor.Components.Search.{In, type_at, Present, Adjacent}
use sonic_chain.Executor.Components.Search.Fuel.{components_from-Ends}
use sonic_chain.Executor.Components.Search.Explored.{is_tx_at}
use sonic_chain.Executor.Components.Search.Classes.{Member}
use sonic_chain.Executor.Components.Search.Groups.{Partitions, components_from-Partitions}
use sonic_chain.Executor.Components.Graph.Joined.{
  IsGraph, Placed, Placed-Extends, add_transaction-Joined,
}

module _ (keys_of : Transaction → List Key) where
  record Built (pool : List Transaction) (g : Graph) (r : List Rc × Graph) : Type 0 where
    graph : IsGraph r.1
    extends : Extends g r.1
    placed :
        (n : ℕ) (t : Transaction)
        → get_elem? pool n ≡ some t
        → (rc : Rc) × (get_elem? r.0 n ≡ some rc) × Placed (keys_of t) t r.1 rc
    present : (i : Rc) → In i r.0 → Present r.1.heap i
    old :
        (j : Rc) (i : ℕ)
        → type_at r.1.heap j ≡ some (tx i)
        → (type_at g.heap j ≡ some (tx i))
          ⊎ ((n : ℕ) × (t : Transaction) × (get_elem? pool n ≡ some t) × (get_elem? r.0 n ≡ some j))

  build-Built :
      (pool : List Transaction) (g : Graph) → IsGraph g → Built pool g (build keys_of pool g)
  unfolding build
  build-Built [] g x = record {
    graph = x;
    extends = Extends-refl g;
    placed = λ n t e. absurd (nothing n t e);
    present = λ i h. absurd h;
    old = λ j i p. inl p;
  }
    where
      nothing : (n : ℕ) (t : Transaction) → get_elem? [] n ≡ some t → ⊥
      nothing n t e = cc
  build-Built (t ∷ pool) g x =
      let j = add_transaction-Joined (keys_of t) t g x in
      let (rc, g1) = add_transaction (keys_of t) t g in
      let ih = build-Built pool g1 j.graph in
      let (rcs, g2) = build keys_of pool g1 in
      let first : Placed (keys_of t) t g2 rc =
        Placed-Extends (keys_of t) t g1 g2 rc ih.extends j.placed in
      record {
        graph = ih.graph;
        extends = Extends-trans g g1 g2 j.extends ih.extends;
        placed = places rc rcs g2 first ih.placed;
        present = λ i h. elim h [
          | inl q ↦ subst (Present g2.heap) (sym q) first.present
          | inr k ↦ ih.present i k
        ];
        old = λ k i p. elim (ih.old k i p) [
          | inl q ↦ elim (j.old k i q) [ inl r ↦ inl r | inr r ↦ inr (0, t, refl, ap some (sym r)) ]
          | inr (n, u, a, e) ↦ inr (suc n, u, a, e)
        ];
      }
    where
      places :
          (rc : Rc) (rcs : List Rc) (g2 : Graph)
          → Placed (keys_of t) t g2 rc
          → ((n : ℕ) (u : Transaction)
              → get_elem? pool n ≡ some u
              → (i : Rc) × (get_elem? rcs n ≡ some i) × Placed (keys_of u) u g2 i)
          → (n : ℕ) (u : Transaction) → get_elem? (t ∷ pool) n ≡ some u
          → (i : Rc) × (get_elem? (rc ∷ rcs) n ≡ some i) × Placed (keys_of u) u g2 i
      places rc rcs g2 first rest zero u e =
          (rc, refl, subst (λ v. Placed (keys_of v) v g2 rc) (some-eq-some e) first)
      places rc rcs g2 first rest (suc n) u e = rest n u e

  empty-IsGraph : IsGraph empty
  unfolding get
  empty-IsGraph = record {
    symmetric = λ r x a. nothing r x a;
    indexed = λ k rc e. cc;
    unmarked = λ r. refl;
  }
    where
      nothing : (r x : Rc) → Adjacent [] r x → Adjacent [] x r
      nothing r x (rs, e, h) = cc

  is_tx : (heap : Heap) (r : Rc) (id : ℕ) → type_at heap r ≡ some (tx id) → is_tx_at heap r ≡ true
  is_tx [] r id e = cc
  is_tx (n ∷ heap) zero id e = ap is_tx_type (some-eq-some e)
  is_tx (n ∷ heap) (suc r) id e = is_tx heap r id e

  tx_there :
      (heap : Heap) (r : Rc) → is_tx_at heap r ≡ true → (id : ℕ) × (type_at heap r ≡ some (tx id))
  tx_there [] r e = cc
  tx_there (n ∷ heap) zero e = go n.node_type e
    where
      go : (t : NodeType) → is_tx_type t ≡ true → (id : ℕ) × (some t ≡ some (tx id))
      go (tx id) e = (id, refl)
      go (key k) e = cc
  tx_there (n ∷ heap) (suc r) e = tx_there heap r e

  -- The transaction at place `n` of the pool is in component `i`.
  abbrev pub Joins : List Rc → List (List Rc) → ℕ → ℕ → Type 0
  Joins nodes components i n = (rc : Rc) × (get_elem? nodes n ≡ some rc) × Member components i rc

  -- Every transaction of the pool is in one component, with all that name one of its keys, and there is
  -- nothing else in the components.
  pub record ByKeys (pool : List Transaction) (nodes : List Rc) (heap : Heap)
      (components : List (List Rc)) : Type 0 where
    pub total :
        (n : ℕ) (t : Transaction) → get_elem? pool n ≡ some t → (i : ℕ) × Joins nodes components i n
    pub shared :
        (n m : ℕ) (t u : Transaction) (k : Key) (i : ℕ)
        → get_elem? pool n ≡ some t
        → get_elem? pool m ≡ some u
        → Named (keys_of t) k
        → Named (keys_of u) k
        → Joins nodes components i n
        → Joins nodes components i m
    pub members :
        (i : ℕ) (r : Rc)
        → Member components i r
        → (n : ℕ) × (t : Transaction) × (get_elem? pool n ≡ some t) × (get_elem? nodes n ≡ some r)
    pub typed :
        (n : ℕ) (t : Transaction) (r : Rc)
        → get_elem? pool n ≡ some t
        → get_elem? nodes n ≡ some r
        → type_at heap r ≡ some (tx t.id)
    pub apart : (n i j : ℕ) → Joins nodes components i n → Joins nodes components j n → i ≡ j

  module _ (pool : List Transaction) (nodes : List Rc) (g : Graph) (b : Built pool empty (nodes, g))
      (heap : Heap) (components : List (List Rc))
      (p : Partitions nodes g.heap heap components) where
    In_nodes : (xs : List Rc) (n : ℕ) (r : Rc) → get_elem? xs n ≡ some r → In r xs
    In_nodes [] n r e = cc
    In_nodes (x ∷ xs) zero r e = inl (sym (some-eq-some e))
    In_nodes (x ∷ xs) (suc n) r e = inr (In_nodes xs n r e)

    joined :
        (n : ℕ) (t : Transaction) → get_elem? pool n ≡ some t → (i : ℕ) × Joins nodes components i n
    joined n t e =
        let (rc, f, q) = b.placed n t e in
        let (i, m) = p.covers rc (In_nodes nodes n rc f) (is_tx g.heap rc t.id q.typed) in
        (i, (rc, f, m))

    joined_shared :
        (n m : ℕ) (t u : Transaction) (k : Key) (i : ℕ)
        → get_elem? pool n ≡ some t
        → get_elem? pool m ≡ some u
        → Named (keys_of t) k
        → Named (keys_of u) k
        → Joins nodes components i n
        → Joins nodes components i m
    joined_shared n m t u k i e f a c (r, at, member) =
        let (rc, e1, p1) = b.placed n t e in
        let (rd, e2, p2) = b.placed m u f in
        let (k1, f1, a1) = p1.beside k a in
        let (k2, f2, a2) = p2.beside k c in
        let same_node : r ≡ rc = some-eq-some (sym at ∙ e1) in
        let same_key : k2 ≡ k1 = some-eq-some (sym f2 ∙ f1) in
        (
          rd,
          e2,
          p.together i rc k1 rd (subst (Member components i) same_node member) a1
              (b.graph.symmetric rd k1 (subst (Adjacent g.heap rd) same_key a2))
              (is_tx g.heap rd u.id p2.typed),
        )

    is_Member :
        (i : ℕ) (r : Rc)
        → Member components i r
        → (n : ℕ) × (t : Transaction) × (get_elem? pool n ≡ some t) × (get_elem? nodes n ≡ some r)
    is_Member i r m =
        let (id, e) = tx_there g.heap r (p.transactions i r m) in
        elim (b.old r id e) [ inl none_before ↦ absurd (nothing none_before) | inr found ↦ found ]
      where
        nothing : {id : ℕ} → none ≡ some (tx id) → ⊥
        nothing e = cc

    ByKeys-with : ByKeys pool nodes heap components
    ByKeys-with = record {
      total = joined;
      shared = joined_shared;
      members = is_Member;
      typed = λ n t r e f.
          let (rc, g', q) = b.placed n t e in
          ap (type_at heap) (some-eq-some (sym f ∙ g')) ∙ p.same_types rc ∙ q.typed;
      apart = λ n i j (r, e, m) (x, f, l).
          p.apart i j r m (subst (Member components j) (some-eq-some (sym f ∙ e)) l);
    }

  -- For any pool, and whatever keys its transactions name, the graph is built, all traversals end on enough
  -- fuel without a panic, and in the components that they find every transaction of the pool is in exactly
  -- one, together with all transactions that name one of its keys.
  pub components-ByKeys :
      (pool : List Transaction)
      → (fuel : ℕ) × (heap : Heap) × (components : List (List Rc)) × (components_from fuel 0
            (build keys_of pool empty).0
            (build keys_of pool empty).1.heap
          ≡ ended (heap, components))
        × ByKeys pool (build keys_of pool empty).0 heap components
  components-ByKeys pool =
      let b = build-Built pool empty empty-IsGraph in
      let (nodes, g) = build keys_of pool empty in
      let (fuel, heap, components, e) =
        components_from-Ends nodes 0 g.heap
          (λ r x a. let (rs, f, h) = b.graph.symmetric r x a in (rs, f)) b.present in
      (
        fuel,
        heap,
        components,
        e,
        ByKeys-with pool nodes g b heap components (
            components_from-Partitions fuel nodes g.heap heap components b.graph.symmetric
              b.graph.unmarked e),
      )
