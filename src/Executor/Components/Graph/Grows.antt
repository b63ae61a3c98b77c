-- ===== src/Executor/Components/Graph/Grows.antt =====
-- executor/src/concurrent/tx_distribution.rs, `Node::add_key` and `Node::add_tx`: what a new node and a new
-- neighbour change in the graph.
use sonic_chain.Base.{
  ℕ, zero, suc, ◌≡◌, ◌≢◌, refl, ap, sym, ◌∙◌, Bool, true, false, none, some, List, [], ◌∷◌, ◌++◌,
  ◌⊎◌, inl, inr, subst, length, get_elem?, Bool-cases, some-eq-some, ◌==ℕ◌, ==ℕ_iff,
}
use sonic_chain.Primitives.{Key}
use sonic_chain.Executor.Components.{
  Rc, Heap, Node, NodeType, tx, key, neighbours, neighbours_of, is_tx_node, is_tx_type, modify,
  add_key, add_tx, push_rc,
}
use sonic_chain.Executor.Components.Search.{
  In, In-left, In-right, In-append, component_at, links, Present, Adjacent, type_at,
}

abbrev pub Unmarked : Heap → Type 0
Unmarked heap = (r : Rc) → component_at heap r ≡ none

-- Neighbours, nodes and their types stay.
pub record Grows (heap heap' : Heap) : Type 0 where
  pub adjacent : (r x : Rc) → Adjacent heap r x → Adjacent heap' r x
  pub types : (r : Rc) (t : NodeType) → type_at heap r ≡ some t → type_at heap' r ≡ some t
  pub present : (r : Rc) → Present heap r → Present heap' r

pub Grows-refl : (heap : Heap) → Grows heap heap
Grows-refl heap = record { adjacent = λ r x a. a; types = λ r t e. e; present = λ r p. p }

pub Grows-trans : (h1 h2 h3 : Heap) → Grows h1 h2 → Grows h2 h3 → Grows h1 h3
Grows-trans h1 h2 h3 a b = record {
  adjacent = λ r x h. b.adjacent r x (a.adjacent r x h);
  types = λ r t e. b.types r t (a.types r t e);
  present = λ r p. b.present r (a.present r p);
}

-- No new transaction's node.
abbrev pub SameTxs : Heap → Heap → Type 0
SameTxs heap heap' = (r : Rc) (i : ℕ) → type_at heap' r ≡ some (tx i) → type_at heap r ≡ some (tx i)

-- `heap'` is `heap` with `x` as one more neighbour of `r`.
pub record Pushed (x : Rc) (heap heap' : Heap) (r : Rc) : Type 0 where
  pub grows : Grows heap heap'
  pub added : Adjacent heap' r x
  pub only : (i y : Rc) → Adjacent heap' i y → Adjacent heap i y ⊎ ((i ≡ r) × (y ≡ x))
  pub unmarked : Unmarked heap → Unmarked heap'
  pub same_txs : SameTxs heap heap'

-- A node that pushes `x` to its neighbours, and keeps its type and mark.
module _ (f : Node → Node) (b : Bool) (x : Rc)
    (pushes : (n : Node) (rs : List Rc)
      → is_tx_node n ≡ b
      → neighbours n ≡ some rs
      → neighbours (f n) ≡ some (rs ++ (x ∷ [])))
    (same_type : (n : Node) → (f n).node_type ≡ n.node_type)
    (same_mark : (n : Node) → (f n).component ≡ n.component) where
  abbrev Sort : Heap → Rc → Type 0
  Sort heap r = (t : NodeType) × (type_at heap r ≡ some t) × (is_tx_type t ≡ b)

  links_there :
      (heap : Heap) (r : Rc) (rs : List Rc)
      → Sort heap r
      → links heap r ≡ some rs
      → links (modify r f heap) r ≡ some (rs ++ (x ∷ []))
  links_there [] r rs s e = cc
  links_there (n ∷ heap) zero rs (t, s, p) e = pushes n rs (ap is_tx_type (some-eq-some s) ∙ p) e
  links_there (n ∷ heap) (suc r) rs s e = links_there heap r rs s e

  links_else : (heap : Heap) (r i : Rc) → r ≢ i → links (modify r f heap) i ≡ links heap i
  links_else [] r i h = refl
  links_else (n ∷ heap) zero zero h = absurd (h refl)
  links_else (n ∷ heap) zero (suc i) h = refl
  links_else (n ∷ heap) (suc r) zero h = refl
  links_else (n ∷ heap) (suc r) (suc i) h = links_else heap r i (λ e. h (ap suc e))

  type-push : (heap : Heap) (r i : Rc) → type_at (modify r f heap) i ≡ type_at heap i
  type-push [] r i = refl
  type-push (n ∷ heap) zero zero = ap some (same_type n)
  type-push (n ∷ heap) zero (suc i) = refl
  type-push (n ∷ heap) (suc r) zero = refl
  type-push (n ∷ heap) (suc r) (suc i) = type-push heap r i

  mark-push : (heap : Heap) (r i : Rc) → component_at (modify r f heap) i ≡ component_at heap i
  mark-push [] r i = refl
  mark-push (n ∷ heap) zero zero = same_mark n
  mark-push (n ∷ heap) zero (suc i) = refl
  mark-push (n ∷ heap) (suc r) zero = refl
  mark-push (n ∷ heap) (suc r) (suc i) = mark-push heap r i

  module _ (heap : Heap) (r : Rc) (rs : List Rc) (s : Sort heap r)
      (e : links heap r ≡ some rs) where
    abbrev heap1 : Heap
    heap1 = modify r f heap

    Adjacent-before : (i y : Rc) → Adjacent heap1 i y → Adjacent heap i y ⊎ ((i ≡ r) × (y ≡ x))
    Adjacent-before i y (ys, l, h) = elim (Bool-cases (r ==ℕ i)) [
      | inl q ↦
          let p : r ≡ i = (==ℕ_iff r i).0 q in
          elim (In-append y rs (x ∷ []) (
            subst (In y)
              (some-eq-some (sym l ∙ ap (links heap1) (sym p) ∙ links_there heap r rs s e)) h)) [
                | inl j ↦ inl (rs, ap (links heap) (sym p) ∙ e, j)
                | inr (inl z) ↦ inr (sym p, z)
                | inr (inr z) ↦ absurd z
              ]
      | inr q ↦ inl (ys, sym (links_else heap r i (λ p. cc ((==ℕ_iff r i).1 p))) ∙ l, h)
    ]

    Adjacent-after : (i y : Rc) → Adjacent heap i y → Adjacent heap1 i y
    Adjacent-after i y (ys, l, h) = elim (Bool-cases (r ==ℕ i)) [
      | inl q ↦
          let p : r ≡ i = (==ℕ_iff r i).0 q in
          (
            rs ++ (x ∷ []),
            ap (links heap1) (sym p) ∙ links_there heap r rs s e,
            In-left y rs (x ∷ [])
                (subst (In y) (some-eq-some (sym l ∙ ap (links heap) (sym p) ∙ e)) h),
          )
      | inr q ↦ (ys, links_else heap r i (λ p. cc ((==ℕ_iff r i).1 p)) ∙ l, h)
    ]

    Present-after : (i : Rc) → Present heap i → Present heap1 i
    Present-after i (ys, l) = elim (Bool-cases (r ==ℕ i)) [
      | inl q ↦
          (rs ++ (x ∷ []), ap (links heap1) (sym ((==ℕ_iff r i).0 q)) ∙ links_there heap r rs s e)
      | inr q ↦ (ys, links_else heap r i (λ p. cc ((==ℕ_iff r i).1 p)) ∙ l)
    ]

    modify-Pushed : Pushed x heap heap1 r
    modify-Pushed = record {
      grows = record {
        adjacent = Adjacent-after;
        types = λ i t p. type-push heap r i ∙ p;
        present = Present-after;
      };
      added = (rs ++ (x ∷ []), links_there heap r rs s e, In-right x rs (x ∷ []) (inl refl));
      only = Adjacent-before;
      unmarked = λ u i. mark-push heap r i ∙ u i;
      same_txs = λ i j p. sym (type-push heap r i) ∙ p;
    }

add_key-pushes :
    (x : Rc) (n : Node) (rs : List Rc)
    → is_tx_node n ≡ true
    → neighbours n ≡ some rs
    → neighbours (add_key x n) ≡ some (rs ++ (x ∷ []))
add_key-pushes x n rs = go n.node_type
  where
    go :
        (t : NodeType)
        → is_tx_type t ≡ true
        → neighbours_of t n ≡ some rs
        → neighbours_of t (add_key x n) ≡ some (rs ++ (x ∷ []))
    go (tx i) p e = ap (push_rc x) e
    go (key k) p e = cc

add_tx-pushes :
    (x : Rc) (n : Node) (rs : List Rc)
    → is_tx_node n ≡ false
    → neighbours n ≡ some rs
    → neighbours (add_tx x n) ≡ some (rs ++ (x ∷ []))
add_tx-pushes x n rs = go n.node_type
  where
    go :
        (t : NodeType)
        → is_tx_type t ≡ false
        → neighbours_of t n ≡ some rs
        → neighbours_of t (add_tx x n) ≡ some (rs ++ (x ∷ []))
    go (tx i) p e = cc
    go (key k) p e = ap (push_rc x) e

pub add_key-Pushed :
    (x : Rc) (heap : Heap) (r : Rc) (i : ℕ)
    → type_at heap r ≡ some (tx i)
    → Present heap r
    → Pushed x heap (modify r (add_key x) heap) r
add_key-Pushed x heap r i t (rs, e) =
    modify-Pushed (add_key x) true x (add_key-pushes x) (λ n. refl) (λ n. refl) heap r rs
      (tx i, t, refl) e

pub add_tx-Pushed :
    (x : Rc) (heap : Heap) (r : Rc) (k : Key)
    → type_at heap r ≡ some (key k)
    → Present heap r
    → Pushed x heap (modify r (add_tx x) heap) r
add_tx-Pushed x heap r k t (rs, e) =
    modify-Pushed (add_tx x) false x (add_tx-pushes x) (λ n. refl) (λ n. refl) heap r rs
      (key k, t, refl) e

-- A new node at the end.
module _ (n : Node) (isolated : neighbours n ≡ some []) where
  appended_type :
      (heap : Heap) (r : Rc) (t : NodeType)
      → type_at heap r ≡ some t
      → type_at (heap ++ (n ∷ [])) r ≡ some t
  appended_type [] r t e = cc
  appended_type (x ∷ heap) zero t e = e
  appended_type (x ∷ heap) (suc r) t e = appended_type heap r t e

  appended_links :
      (heap : Heap) (r : Rc) (rs : List Rc)
      → links heap r ≡ some rs
      → links (heap ++ (n ∷ [])) r ≡ some rs
  appended_links [] r rs e = cc
  appended_links (x ∷ heap) zero rs e = e
  appended_links (x ∷ heap) (suc r) rs e = appended_links heap r rs e

  pub appended_only : (heap : Heap) (r x : Rc) → Adjacent (heap ++ (n ∷ [])) r x → Adjacent heap r x
  appended_only [] zero x (rs, e, h) = absurd (subst (In x) (some-eq-some (sym e ∙ isolated)) h)
  appended_only [] (suc r) x (rs, e, h) = cc
  appended_only (y ∷ heap) zero x a = a
  appended_only (y ∷ heap) (suc r) x a = appended_only heap r x a

  pub appended_there : (heap : Heap) → get_elem? (heap ++ (n ∷ [])) (length heap) ≡ some n
  appended_there [] = refl
  appended_there (x ∷ heap) = appended_there heap

  -- The only node that may be new.
  pub appended_old :
      (heap : Heap) (r : Rc) (t : NodeType)
      → type_at (heap ++ (n ∷ [])) r ≡ some t
      → (type_at heap r ≡ some t) ⊎ ((r ≡ length heap) × (n.node_type ≡ t))
  appended_old [] zero t e = inr (refl, some-eq-some e)
  appended_old [] (suc r) t e = cc
  appended_old (x ∷ heap) zero t e = inl e
  appended_old (x ∷ heap) (suc r) t e = elim (appended_old heap r t e) [
    | inl p ↦ inl p
    | inr (q, p) ↦ inr (ap suc q, p)
  ]

  pub appended-Unmarked :
      n.component ≡ none → (heap : Heap) → Unmarked heap → Unmarked (heap ++ (n ∷ []))
  appended-Unmarked m [] u zero = m
  appended-Unmarked m [] u (suc r) = refl
  appended-Unmarked m (x ∷ heap) u zero = u 0
  appended-Unmarked m (x ∷ heap) u (suc r) = appended-Unmarked m heap (λ i. u (suc i)) r

  pub appended-Grows : (heap : Heap) → Grows heap (heap ++ (n ∷ []))
  appended-Grows heap = record {
    adjacent = λ r x a. (a.0, appended_links heap r a.0 a.1, a.2);
    types = appended_type heap;
    present = λ r p. (p.0, appended_links heap r p.0 p.1);
  }
