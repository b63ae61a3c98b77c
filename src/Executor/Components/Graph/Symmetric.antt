-- ===== src/Executor/Components/Graph/Symmetric.antt =====
-- executor/src/concurrent/tx_distribution.rs, `ConnectedComponents::distribute`: the graph of a pool is
-- symmetric, and leads from each transaction to the nodes of its keys.
use sonic_chain.Base.{
  ℕ, zero, suc, ◌≡◌, refl, ap, sym, ◌∙◌, some, List, [], ◌∷◌, ◌⊎◌, inl, inr, subst, get_elem?,
  some-eq-some, bytes_eq,
}
use sonic_chain.Base.HashMap
use sonic_chain.Primitives.{Key}
use sonic_chain.Executor.Components.{Rc, Heap, tx, modify, add_key, add_tx}
use sonic_chain.Executor.Components.Graph.{Graph, entry_or_insert, link_keys, add_keys}
use sonic_chain.Executor.Components.Graph.Grows.{
  SameTxs, Unmarked, Grows, Grows-refl, Grows-trans, Pushed, add_key-Pushed, add_tx-Pushed,
}
use sonic_chain.Executor.Components.Graph.Links.{
  Almost, Linking, Extends, Extends-refl, Extends-trans, IsIndexed-Grows, Linking-mono, Entered,
  entry_or_insert-Entered,
}
use sonic_chain.Executor.Components.Search.{In, type_at, Present, Adjacent, IsSymmetric}

abbrev pub Named : List Key → Key → Type 0
Named keys k = (n : ℕ) × (get_elem? keys n ≡ some k)

module _ (t : Rc) where
  -- After `link_keys`: the nodes of the keys have the transaction as a neighbour.
  pub record Linked (keys : List Key) (P : Rc → Type 0) (g : Graph) (r : List Rc × Graph)
      : Type 0 where
    pub linking : Linking t (λ i. P i ⊎ In i r.0) r.1
    pub extends : Extends g r.1
    pub back : (rc : Rc) → In rc r.0 → Adjacent r.1.heap rc t
    pub same_txs : SameTxs g.heap r.1.heap
    pub named :
        (k : Key) → Named keys k → (rc : Rc) × (HashMap.get k r.1.keys_map ≡ some rc) × In rc r.0

  -- One key.
  module _ (k : Key) (P : Rc → Type 0) (g : Graph) (rc : Rc) (g1 : Graph)
      (x : Entered t k P g (rc, g1)) where
    abbrev told : Graph
    told = record g1 { heap = modify rc (add_tx t) g1.heap }

    told-Pushed : Pushed t g1.heap told.heap rc
    told-Pushed = let (s, p) = x.linking.indexed k rc x.there in add_tx-Pushed t g1.heap rc k s p

    told-Linking : Linking t (λ i. P i ⊎ (i ≡ rc)) told
    told-Linking = record {
      indexed = IsIndexed-Grows g1 told.heap told-Pushed.grows x.linking.indexed;
      unmarked = told-Pushed.unmarked x.linking.unmarked;
      almost = λ r y a. elim (told-Pushed.only r y a) [
        | inl b ↦ elim (x.linking.almost r y b) [
          | inl c ↦ inl (told-Pushed.grows.adjacent y r c)
          | inr (q, p) ↦ inr (q, inl p)
        ]
        | inr (q, z) ↦ inr (z, inr q)
      ];
    }

    told-Extends : Extends g told
    told-Extends =
        Extends-trans g g1 told x.extends (record { grows = told-Pushed.grows; keys = λ j i e. e })

    module _ (keys : List Key) (rest : List Rc × Graph)
        (ih : Linked keys (λ i. P i ⊎ (i ≡ rc)) told rest) where
      Linked-cons : Linked (k ∷ keys) P g (rc ∷ rest.0, rest.1)
      Linked-cons = record {
        linking =
            Linking-mono t (λ i. (P i ⊎ (i ≡ rc)) ⊎ In i rest.0) (λ i. P i ⊎ In i (rc ∷ rest.0))
              rest.1 regroup ih.linking;
        extends = Extends-trans g told rest.1 told-Extends ih.extends;
        back = λ i h. elim h [
          | inl q ↦
              ih.extends.grows.adjacent i t
                (subst (λ j. Adjacent told.heap j t) (sym q) told-Pushed.added)
          | inr j ↦ ih.back i j
        ];
        same_txs = λ r i p. x.same_txs r i (told-Pushed.same_txs r i (ih.same_txs r i p));
        named = names;
      }
        where
          regroup : (i : Rc) → (P i ⊎ (i ≡ rc)) ⊎ In i rest.0 → P i ⊎ In i (rc ∷ rest.0)
          regroup i (inl (inl p)) = inl p
          regroup i (inl (inr q)) = inr (inl q)
          regroup i (inr h) = inr (inr h)

          names :
              (j : Key)
              → Named (k ∷ keys) j
              → (i : Rc) × (HashMap.get j rest.1.keys_map ≡ some i) × In i (rc ∷ rest.0)
          names j (zero, e) = (
            rc,
            ih.extends.keys j rc
                (ap (λ y. HashMap.get y g1.keys_map) (sym (some-eq-some e)) ∙ x.there),
            inl refl,
          )
          names j (suc n, e) = let (i, f, h) = ih.named j (n, e) in (i, f, inr h)

  pub link_keys-Linked :
      (keys : List Key) (P : Rc → Type 0) (g : Graph)
      → Linking t P g
      → Linked keys P g (link_keys t keys g)
  unfolding link_keys
  link_keys-Linked [] P g l = record {
    linking = Linking-mono t P (λ i. P i ⊎ ⊥) g (λ r p. inl p) l;
    extends = Extends-refl g;
    back = λ rc h. absurd h;
    same_txs = λ r i p. p;
    named = λ k n. absurd (nothing k n);
  }
    where
      nothing : (k : Key) → Named [] k → ⊥
      nothing k (n, e) = cc
  link_keys-Linked (k ∷ keys) P g l =
      let x = entry_or_insert-Entered t k P g l in
      let (rc, g1) = entry_or_insert k g (HashMap.get k g.keys_map) in
      Linked-cons k P g rc g1 x keys (link_keys t keys (told k P g rc g1 x)) (
        link_keys-Linked keys (λ i. P i ⊎ (i ≡ rc)) (told k P g rc g1 x)
          (told-Linking k P g rc g1 x))

  -- After `add_keys` the graph is symmetric.
  pub record Added (heap heap' : Heap) (rcs : List Rc) : Type 0 where
    pub symmetric : IsSymmetric heap'
    pub grows : Grows heap heap'
    pub unmarked : Unmarked heap'
    pub same_txs : SameTxs heap heap'
    pub forth : (rc : Rc) → In rc rcs → Adjacent heap' t rc

  pub add_keys-Added :
      (id : ℕ) (rcs : List Rc) (heap : Heap)
      → type_at heap t ≡ some (tx id)
      → Present heap t
      → Unmarked heap
      → Almost heap t (λ i. In i rcs)
      → ((rc : Rc) → In rc rcs → Adjacent heap rc t)
      → Added heap (add_keys t rcs heap) rcs
  add_keys-Added id [] heap s p u almost back = record {
    symmetric = λ r x a. elim (almost r x a) [ inl b ↦ b | inr f ↦ absurd f.1 ];
    grows = Grows-refl heap;
    unmarked = u;
    forth = λ rc h. absurd h;
    same_txs = λ r i q. q;
  }
  add_keys-Added id (rc ∷ rcs) heap s p u almost back =
      let x : Pushed rc heap (modify t (add_key rc) heap) t = add_key-Pushed rc heap t id s p in
      let ih : Added (modify t (add_key rc) heap) (add_keys t rcs (modify t (add_key rc) heap))
          rcs =
        add_keys-Added id rcs (modify t (add_key rc) heap) (x.grows.types t (tx id) s)
          (x.grows.present t p) (x.unmarked u)
          (λ r y a. elim (x.only r y a) [
            | inl b ↦ elim (almost r y b) [
              | inl c ↦ inl (x.grows.adjacent y r c)
              | inr (q, inl z) ↦ inl (
                  subst (λ i. Adjacent (modify t (add_key rc) heap) i r) (sym q)
                    (subst (Adjacent (modify t (add_key rc) heap) t) (sym z) x.added))
              | inr (q, inr h) ↦ inr (q, h)
            ]
            | inr (q, z) ↦ inl (
                subst (λ i. Adjacent (modify t (add_key rc) heap) i r) (sym z)
                  (subst (Adjacent (modify t (add_key rc) heap) rc) (sym q)
                    (x.grows.adjacent rc t (back rc (inl refl)))))
          ])
          (λ i h. x.grows.adjacent i t (back i (inr h))) in
      record {
        symmetric = ih.symmetric;
        grows =
            Grows-trans heap (modify t (add_key rc) heap)
              (add_keys t rcs (modify t (add_key rc) heap)) x.grows ih.grows;
        unmarked = ih.unmarked;
        same_txs = λ r i q. x.same_txs r i (ih.same_txs r i q);
        forth = λ i h. elim h [
          | inl q ↦
              subst (Adjacent (add_keys t rcs (modify t (add_key rc) heap)) t) (sym q)
                (ih.grows.adjacent t rc x.added)
          | inr j ↦ ih.forth i j
        ];
      }
