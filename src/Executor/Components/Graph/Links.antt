-- ===== src/Executor/Components/Graph/Links.antt =====
-- executor/src/concurrent/tx_distribution.rs, `ConnectedComponents::distribute`: the graph that a new
-- transaction and its keys make of a graph.
use sonic_chain.Base.{
  ◌≡◌, refl, ap, sym, ◌∙◌, true, Option, none, some, [], ◌∷◌, ◌++◌, ◌⊎◌, inl, inr, subst, length,
  Bool-cases, some-eq-some, bytes_eq, bytes_beq, bytes_beq_iff,
}
use sonic_chain.Base.HashMap
use sonic_chain.Base.HashMap.{HashMap, get-insert}
use sonic_chain.Primitives.{Key}
use sonic_chain.Executor.Components.{Rc, Heap, tx, key, new_key}
use sonic_chain.Executor.Components.Graph.{Graph, entry_or_insert}
use sonic_chain.Executor.Components.Graph.Grows.{
  Unmarked, Grows, Grows-refl, Grows-trans, appended_only, appended_old, SameTxs, appended_there,
  appended-Unmarked, appended-Grows,
}
use sonic_chain.Executor.Components.Search.{links_of, type_of, type_at, Present, Adjacent}

-- The map leads to the nodes of its keys.
abbrev pub IsIndexed : Graph → Type 0
IsIndexed g =
    (k : Key) (rc : Rc)
    → HashMap.get k g.keys_map ≡ some rc
    → (type_at g.heap rc ≡ some (key k)) × Present g.heap rc

-- Symmetric but for the nodes in `P`, which have `t` as a neighbour already.
abbrev pub Almost : Heap → Rc → (Rc → Type 0) → Type 0
Almost heap t P = (r x : Rc) → Adjacent heap r x → Adjacent heap x r ⊎ ((x ≡ t) × P r)

pub record Linking (t : Rc) (P : Rc → Type 0) (g : Graph) : Type 0 where
  pub indexed : IsIndexed g
  pub unmarked : Unmarked g.heap
  pub almost : Almost g.heap t P

pub record Extends (g g' : Graph) : Type 0 where
  pub grows : Grows g.heap g'.heap
  pub keys :
      (k : Key) (rc : Rc) → HashMap.get k g.keys_map ≡ some rc → HashMap.get k g'.keys_map ≡ some rc

pub Extends-refl : (g : Graph) → Extends g g
Extends-refl g = record { grows = Grows-refl g.heap; keys = λ k rc e. e }

pub Extends-trans : (g1 g2 g3 : Graph) → Extends g1 g2 → Extends g2 g3 → Extends g1 g3
Extends-trans g1 g2 g3 a b = record {
  grows = Grows-trans g1.heap g2.heap g3.heap a.grows b.grows;
  keys = λ k rc e. b.keys k rc (a.keys k rc e);
}

pub IsIndexed-Grows :
    (g : Graph) (heap : Heap)
    → Grows g.heap heap
    → IsIndexed g
    → IsIndexed (record g { heap = heap })
IsIndexed-Grows g heap grows i k rc e =
    let (t, p) = i k rc e in (grows.types rc (key k) t, grows.present rc p)

pub Linking-mono :
    (t : Rc) (P Q : Rc → Type 0) (g : Graph)
    → ((r : Rc) → P r → Q r)
    → Linking t P g
    → Linking t Q g
Linking-mono t P Q g sub l = record {
  indexed = l.indexed;
  unmarked = l.unmarked;
  almost = λ r x a. elim (l.almost r x a) [ inl b ↦ inl b | inr (q, p) ↦ inr (q, sub r p) ];
}

module _ (t : Rc) where
  pub record Entered (k : Key) (P : Rc → Type 0) (g : Graph) (r : Rc × Graph) : Type 0 where
    pub linking : Linking t P r.1
    pub extends : Extends g r.1
    pub there : HashMap.get k r.1.keys_map ≡ some r.0
    pub same_txs : SameTxs g.heap r.1.heap

  module _ (k : Key) (P : Rc → Type 0) (g : Graph) (l : Linking t P g)
      (missing : HashMap.get k g.keys_map ≡ none) where
    abbrev inserted : Graph
    inserted = record {
      heap = g.heap ++ (new_key k [] ∷ []);
      keys_map = HashMap.insert k (length g.heap) g.keys_map;
    }

    Grows-inserted : Grows g.heap inserted.heap
    Grows-inserted = appended-Grows (new_key k []) refl g.heap

    inserted-IsIndexed : IsIndexed inserted
    inserted-IsIndexed j rc e = elim (Bool-cases (bytes_beq k j)) [
      | inl q ↦ go q (rw (get-insert, q) at e)
      | inr q ↦
          IsIndexed-Grows g inserted.heap Grows-inserted l.indexed j rc (rw (get-insert, q) at e)
    ]
      where
        go :
            bytes_beq k j ≡ true
            → some (length g.heap) ≡ some rc
            → (type_at inserted.heap rc ≡ some (key j)) × Present inserted.heap rc
        go q e =
            let there = appended_there (new_key k []) refl g.heap in
            subst (λ r. (type_at inserted.heap r ≡ some (key j)) × Present inserted.heap r)
              (some-eq-some e)
              (
                ap type_of there ∙ ap (λ i. some (key i)) ((bytes_beq_iff k j).0 q),
                ([], ap links_of there),
              )

    inserted-Entered : Entered k P g (length g.heap, inserted)
    inserted-Entered = record {
      linking = record {
        indexed = inserted-IsIndexed;
        unmarked = appended-Unmarked (new_key k []) refl refl g.heap l.unmarked;
        almost = λ r x a. elim (l.almost r x (appended_only (new_key k []) refl g.heap r x a)) [
          | inl b ↦ inl (Grows-inserted.adjacent x r b)
          | inr p ↦ inr p
        ];
      };
      extends = record { grows = Grows-inserted; keys = kept };
      there = rw (get-insert, (bytes_beq_iff k k).1 refl);
      same_txs = λ r i p. elim (appended_old (new_key k []) refl g.heap r (tx i) p) [
        | inl q ↦ q
        | inr (q, z) ↦ cc
      ];
    }
      where
        kept :
            (j : Key) (rc : Rc)
            → HashMap.get j g.keys_map ≡ some rc
            → HashMap.get j inserted.keys_map ≡ some rc
        kept j rc e = elim (Bool-cases (bytes_beq k j)) [
          | inl q ↦ absurd (
              clash
                (sym missing ∙ ap (λ i. HashMap.get i g.keys_map) ((bytes_beq_iff k j).0 q) ∙ e))
          | inr q ↦ rw (get-insert, q) e
        ]
          where
            clash : none ≡ some rc → ⊥
            clash e = cc

  pub entry_or_insert-Entered :
      (k : Key) (P : Rc → Type 0) (g : Graph)
      → Linking t P g
      → Entered k P g (entry_or_insert k g (HashMap.get k g.keys_map))
  entry_or_insert-Entered k P g l = go (HashMap.get k g.keys_map) refl
    where
      go :
          (found : Option Rc)
          → HashMap.get k g.keys_map ≡ found
          → Entered k P g (entry_or_insert k g found)
      go none e = inserted-Entered k P g l e
      go (some rc) e = record {
        linking = l;
        extends = Extends-refl g;
        there = e;
        same_txs = λ r i p. p;
      }
