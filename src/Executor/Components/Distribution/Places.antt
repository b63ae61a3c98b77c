-- ===== src/Executor/Components/Distribution/Places.antt =====
-- executor/src/concurrent/tx_distribution.rs, `ConnectedComponents::distribute`: what a distribution is to
-- achieve, and places in lists.
use sonic_chain.Base.{
  ℕ, zero, suc, ◌≡◌, refl, ap, sym, ◌∙◌, none, some, List, [], ◌∷◌, inl, inr, length, get_elem?,
  some-eq-some,
}
use sonic_chain.Primitives.{Key, ThreadId}
use sonic_chain.Executor.Types.{Transaction, set_done, done}
use sonic_chain.Executor.Components.{Rc, Heap, NodeType, tx, key}
use sonic_chain.Executor.Components.Graph.Symmetric.{Named}
use sonic_chain.Executor.Components.Search.{In, type_at}
use sonic_chain.Executor.Components.Search.Classes.{Member}
use sonic_chain.Executor.Components.Assign.{Workers, tx_id}
use sonic_chain.Executor.Components.Assign.Laws.{Listed, Apart, Owns, IsWorker}
use sonic_chain.Executor.Components.Assign.Tags.{DistinctIds}

-- Every transaction is tagged with a worker and is otherwise as it was, and transactions that name a common
-- key are tagged with the same worker.
pub record Distributes (keys_of : Transaction → List Key) (ids : List ThreadId)
    (pool tagged : List Transaction) : Type 0 where
  pub same_length : length tagged ≡ length pool
  pub designated :
      (n : ℕ) (t : Transaction)
      → get_elem? pool n ≡ some t
      → (w : ThreadId) × In w ids × (get_elem? tagged n ≡ some (set_done w t))
  pub together :
      (n m : ℕ) (t u : Transaction) (k : Key) (w : ThreadId)
      → get_elem? pool n ≡ some t
      → get_elem? pool m ≡ some u
      → Named (keys_of t) k
      → Named (keys_of u) k
      → get_elem? tagged n ≡ some (set_done w t)
      → get_elem? tagged m ≡ some (set_done w u)

pub Listed-at :
    (components : List (List Rc)) (c : List Rc)
    → Listed c components
    → (i : ℕ) × (get_elem? components i ≡ some c)
Listed-at [] c h = absurd h
Listed-at (d ∷ components) c (inl q) = (0, ap some (sym q))
Listed-at (d ∷ components) c (inr h) = let (i, e) = Listed-at components c h in (suc i, e)

pub at-Listed :
    (components : List (List Rc)) (i : ℕ) (c : List Rc)
    → get_elem? components i ≡ some c
    → Listed c components
at-Listed [] i c e = cc
at-Listed (d ∷ components) zero c e = inl (sym (some-eq-some e))
at-Listed (d ∷ components) (suc i) c e = inr (at-Listed components i c e)

pub Apart-at :
    (components : List (List Rc))
    → ((i j : ℕ) (r : Rc) → Member components i r → Member components j r → i ≡ j)
    → Apart components
Apart-at [] h = tt
Apart-at (c ∷ components) h = (
  λ r d m l n.
      let (i, e) = Listed-at components d l in zero_suc (h 0 (suc i) r (c, refl, m) (d, e, n)),
  Apart-at components (λ i j r m n. less (h (suc i) (suc j) r m n)),
)
  where
    zero_suc : {i : ℕ} → zero ≡ suc i → ⊥
    zero_suc e = cc

    less : {i j : ℕ} → suc i ≡ suc j → i ≡ j
    less e = cc

pub DistinctIds-at :
    (pool : List Transaction)
    → DistinctIds pool
    → (n m : ℕ) (t u : Transaction) → get_elem? pool n ≡ some t
    → get_elem? pool m ≡ some u
    → t.id ≡ u.id
    → n ≡ m
DistinctIds-at [] d n m t u e f q = cc
DistinctIds-at (v ∷ pool) d zero zero t u e f q = refl
DistinctIds-at (v ∷ pool) d zero (suc m) t u e f q =
    absurd (d.0 m u f (sym q ∙ ap (λ x. x.id) (sym (some-eq-some e))))
DistinctIds-at (v ∷ pool) d (suc n) zero t u e f q =
    absurd (d.0 n t e (q ∙ ap (λ x. x.id) (sym (some-eq-some f))))
DistinctIds-at (v ∷ pool) d (suc n) (suc m) t u e f q =
    ap suc (DistinctIds-at pool d.1 n m t u e f q)

pub id-type :
    (heap : Heap) (r : Rc) (i : ℕ)
    → type_at heap r ≡ some (tx i)
    → tx_id (get_elem? heap r) ≡ some i
id-type [] r i e = cc
id-type (n ∷ heap) zero i e = go n.node_type e
  where
    go : (t : NodeType) → some t ≡ some (tx i) → elim t [ tx id ↦ some id | key k ↦ none ] ≡ some i
    go (tx id) e = ap some (same (some-eq-some e))
      where
        same : tx id ≡ tx i → id ≡ i
        same e = cc
    go (key k) e = cc
id-type (n ∷ heap) (suc r) i e = id-type heap r i e

pub Owns-IsWorker :
    (w : ThreadId) (r : Rc) (workers : Workers) → Owns w r workers → IsWorker w workers
Owns-IsWorker w r [] o = o
Owns-IsWorker w r ((u, v) ∷ workers) (inl (p, i)) = inl p
Owns-IsWorker w r ((u, v) ∷ workers) (inr o) = inr (Owns-IsWorker w r workers o)

pub set_done-worker :
    (v w : ThreadId) (t : Transaction) → some (set_done v t) ≡ some (set_done w t) → v ≡ w
set_done-worker v w t e = same (ap (λ u. u.tag) (some-eq-some e))
  where
    same : done v ≡ done w → v ≡ w
    same e = cc
