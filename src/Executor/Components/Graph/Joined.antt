-- ===== src/Executor/Components/Graph/Joined.antt =====
-- executor/src/concurrent/tx_distribution.rs, `ConnectedComponents::distribute`: a transaction joins the
-- graph, next to the nodes of its keys.
use sonic_chain.Base.{
  ℕ, ◌≡◌, refl, ap, some, List, [], ◌∷◌, ◌++◌, ◌⊎◌, inl, inr, length, get_elem?, bytes_eq,
}
use sonic_chain.Base.HashMap
use sonic_chain.Base.HashMap.{get}
use sonic_chain.Primitives.{Key}
use sonic_chain.Executor.Types.{Transaction}
use sonic_chain.Executor.Components.{Rc, tx, new_tx}
use sonic_chain.Executor.Components.Graph.{Graph, link_keys, add_keys, add_transaction}
use sonic_chain.Executor.Components.Graph.Grows.{
  Unmarked, Grows, appended_only, appended_old, appended_there, appended-Unmarked, appended-Grows,
}
use sonic_chain.Executor.Components.Graph.Links.{
  IsIndexed, Linking, Extends, Extends-trans, IsIndexed-Grows,
}
use sonic_chain.Executor.Components.Graph.Symmetric.{
  Named, Linked, link_keys-Linked, Added, add_keys-Added,
}
use sonic_chain.Executor.Components.Search.{
  links_of, type_of, type_at, Present, Adjacent, IsSymmetric,
}

-- Between two transactions.
pub record IsGraph (g : Graph) : Type 0 where
  pub symmetric : IsSymmetric g.heap
  pub indexed : IsIndexed g
  pub unmarked : Unmarked g.heap

-- The node of a transaction, next to the nodes of its keys.
pub record Placed (keys : List Key) (t : Transaction) (g : Graph) (rc : Rc) : Type 0 where
  pub typed : type_at g.heap rc ≡ some (tx t.id)
  pub present : Present g.heap rc
  pub beside :
      (k : Key)
      → Named keys k
      → (i : Rc) × (HashMap.get k g.keys_map ≡ some i) × Adjacent g.heap rc i

pub Placed-Extends :
    (keys : List Key) (t : Transaction) (g g' : Graph) (rc : Rc)
    → Extends g g'
    → Placed keys t g rc
    → Placed keys t g' rc
Placed-Extends keys t g g' rc e p = record {
  typed = e.grows.types rc (tx t.id) p.typed;
  present = e.grows.present rc p.present;
  beside = λ k n. let (i, f, a) = p.beside k n in (i, e.keys k i f, e.grows.adjacent rc i a);
}

pub record Joined (keys : List Key) (t : Transaction) (g : Graph) (r : Rc × Graph) : Type 0 where
  pub graph : IsGraph r.1
  pub extends : Extends g r.1
  pub placed : Placed keys t r.1 r.0
  pub old :
      (j : Rc) (i : ℕ)
      → type_at r.1.heap j ≡ some (tx i)
      → (type_at g.heap j ≡ some (tx i)) ⊎ (j ≡ r.0)

module _ (keys : List Key) (t : Transaction) (g : Graph) (x : IsGraph g) where
  abbrev tx_rc : Rc
  tx_rc = length g.heap

  abbrev begun : Graph
  begun = record g { heap = g.heap ++ (new_tx t.id [] ∷ []) }

  Grows-begun : Grows g.heap begun.heap
  Grows-begun = appended-Grows (new_tx t.id []) refl g.heap

  begun-Linking : Linking tx_rc (λ i. ⊥) begun
  begun-Linking = record {
    indexed = IsIndexed-Grows g begun.heap Grows-begun x.indexed;
    unmarked = appended-Unmarked (new_tx t.id []) refl refl g.heap x.unmarked;
    almost = λ r y a. inl (
        Grows-begun.adjacent y r
          (x.symmetric r y (appended_only (new_tx t.id []) refl g.heap r y a)));
  }

  module _ (rcs : List Rc) (g1 : Graph) (l : Linked tx_rc keys (λ i. ⊥) begun (rcs, g1)) where
    there : get_elem? begun.heap tx_rc ≡ some (new_tx t.id [])
    there = appended_there (new_tx t.id []) refl g.heap

    typed_there : type_at g1.heap tx_rc ≡ some (tx t.id)
    typed_there = l.extends.grows.types tx_rc (tx t.id) (ap type_of there)

    Present-there : Present g1.heap tx_rc
    Present-there = l.extends.grows.present tx_rc ([], ap links_of there)

    finished : Added tx_rc g1.heap (add_keys tx_rc rcs g1.heap) rcs
    finished =
        add_keys-Added tx_rc t.id rcs g1.heap typed_there Present-there l.linking.unmarked
          (λ r y a. elim (l.linking.almost r y a) [
            | inl b ↦ inl b
            | inr (q, inl f) ↦ absurd f
            | inr (q, inr h) ↦ inr (q, h)
          ])
          l.back

    Joined-with : Joined keys t g (tx_rc, record g1 { heap = add_keys tx_rc rcs g1.heap })
    Joined-with =
        let grown : Extends g1 (record g1 { heap = add_keys tx_rc rcs g1.heap }) = record {
          grows = finished.grows;
          keys = λ k i e. e;
        } in
        record {
          graph = record {
            symmetric = finished.symmetric;
            indexed =
                IsIndexed-Grows g1 (add_keys tx_rc rcs g1.heap) finished.grows l.linking.indexed;
            unmarked = finished.unmarked;
          };
          extends =
              Extends-trans g begun _ (record { grows = Grows-begun; keys = λ k i e. e })
                (Extends-trans begun g1 _ l.extends grown);
          placed = record {
            typed = finished.grows.types tx_rc (tx t.id) typed_there;
            present = finished.grows.present tx_rc Present-there;
            beside = λ k n. let (i, f, h) = l.named k n in (i, f, finished.forth i h);
          };
          old = λ j i p.
              elim (appended_old (new_tx t.id []) refl g.heap j (tx i)
                (l.same_txs j i (finished.same_txs j i p))) [ inl q ↦ inl q | inr (q, z) ↦ inr q ];
        }

  pub add_transaction-Joined : Joined keys t g (add_transaction keys t g)
  unfolding add_transaction
  add_transaction-Joined =
      let l = link_keys-Linked tx_rc keys (λ i. ⊥) begun begun-Linking in
      let (rcs, g1) = link_keys tx_rc keys begun in Joined-with rcs g1 l
