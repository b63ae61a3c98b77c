-- ===== src/Executor/Components/Distribution.antt =====
-- executor/src/concurrent/tx_distribution.rs, `ConnectedComponents::distribute`, as a whole.
pub mod Places
use sonic_chain.Base.{
  ℕ, zero, suc, ◌≡◌, refl, ap, sym, ◌∙◌, none, some, List, [], ◌∷◌, inl, inr, subst, length,
  get_elem?, some-eq-some,
}
use sonic_chain.Primitives.{Key, ThreadId}
use sonic_chain.Staking.{Codecs}
use sonic_chain.Call.{validate}
use sonic_chain.Executor.Types.{Transaction, TransactionId, set_done, done}
use sonic_chain.Executor.Components.{Rc, Heap, NodeType, tx, key, ended, crashed}
use sonic_chain.Executor.Components.Graph.{empty, build, components_from}
use sonic_chain.Executor.Components.Graph.Symmetric.{Named}
use sonic_chain.Executor.Components.Graph.Shared.{Joins, ByKeys, components-ByKeys}
use sonic_chain.Executor.Components.Search.{In, type_at}
use sonic_chain.Executor.Components.Search.Classes.{Member}
use sonic_chain.Executor.Components.Assign.{
  Workers, assign_components, assign_loop, assign_largest, tx_id, tag_assigned, to_loop,
  assign_and_tag, distribute,
}
use sonic_chain.Executor.Components.Assign.Laws.{largest-there, Listed, Apart, Owns, IsWorker}
use sonic_chain.Executor.Components.Assign.Whole.{Sharing, assign_components-Sharing}
use sonic_chain.Executor.Components.Assign.Tags.{
  Allowed, DistinctIds, Tagging, Tagging-start, Tagging-at, Tagging-length, tag_all-Tagging, Given,
}
use sonic_chain.Executor.Components.Distribution.Places.{
  Distributes, Listed-at, at-Listed, Apart-at, DistinctIds-at, id-type, Owns-IsWorker,
  set_done-worker,
}

module _ (keys_of : Transaction → List Key) (ids : List ThreadId) (pool : List Transaction)
    (distinct : DistinctIds pool) (nodes : List Rc) (heap : Heap) (components : List (List Rc))
    (b : ByKeys keys_of pool nodes heap components) (workers : Workers)
    (s : Sharing (λ v. In v ids) components [] workers) where
  -- A worker may have a transaction whose node it has.
  abbrev May : ThreadId → TransactionId → Type 0
  May w i = (r : Rc) × Owns w r workers × (tx_id (get_elem? heap r) ≡ some i)

  place :
      (w : ThreadId) (r : Rc)
      → Owns w r workers
      → (n : ℕ) × (t : Transaction) × (get_elem? pool n ≡ some t) × (get_elem? nodes n ≡ some r)
  place w r o =
      let (c, l, i, has) = s.sound w r o in
      let (j, e) = Listed-at components c l in b.members j r (c, e, i)

  allowed : (w : ThreadId) (r : Rc) → Owns w r workers → Allowed May heap pool distinct w r
  allowed w r o =
      let (n, t, at, node) = place w r o in
      let id = id-type heap r t.id (b.typed n t r at node) in
      (t.id, id, (n, t, at, refl), (r, o, id))

  -- The node of a transaction is the only one with its id.
  only_node :
      (w : ThreadId) (r rc : Rc) (n : ℕ) (t : Transaction)
      → Owns w r workers
      → tx_id (get_elem? heap r) ≡ some t.id
      → get_elem? pool n ≡ some t
      → get_elem? nodes n ≡ some rc
      → r ≡ rc
  only_node w r rc n t o e at node =
      let (m, u, at', node') = place w r o in
      let same : u.id ≡ t.id =
        some-eq-some (sym (id-type heap r u.id (b.typed m u r at' node')) ∙ e) in
      let q : m ≡ n = DistinctIds-at pool distinct m n u t at' at same in
      some-eq-some (sym node' ∙ ap (get_elem? nodes) q ∙ node)

  given :
      (n : ℕ) (t : Transaction)
      → get_elem? pool n ≡ some t
      → Given May heap pool distinct (λ i. ⊥) workers t.id
  given n t at =
      let (i, (rc, node, (c, e, m))) = b.total n t at in
      elim (s.complete c (at-Listed components i c e)) [
        | inl f ↦ absurd f
        | inr (w, p, has) ↦ inr (w, rc, has rc m, id-type heap rc t.id (b.typed n t rc at node))
      ]

  module _ (tagged : List Transaction)
      (h : Tagging May (Given May heap pool distinct (λ i. ⊥) workers) pool tagged) where
    tag_at :
        (n : ℕ) (t : Transaction)
        → get_elem? pool n ≡ some t
        → (w : ThreadId) × (get_elem? tagged n ≡ some (set_done w t)) × May w t.id
    tag_at n t at =
        Tagging-at May (Given May heap pool distinct (λ i. ⊥) workers) pool tagged h n t at
          (given n t at)

    -- The worker of the tag has the node.
    owner :
        (n : ℕ) (t : Transaction) (rc : Rc) (w : ThreadId)
        → get_elem? pool n ≡ some t
        → get_elem? nodes n ≡ some rc
        → get_elem? tagged n ≡ some (set_done w t)
        → Owns w rc workers
    owner n t rc w at node e =
        let (v, f, (r, o, i)) = tag_at n t at in
        subst (λ x. Owns x rc workers) (set_done-worker v w t (sym f ∙ e))
          (subst (λ x. Owns v x workers) (only_node v r rc n t o i at node) o)

    together_tagged :
        (n m : ℕ) (t u : Transaction) (k : Key) (w : ThreadId)
        → get_elem? pool n ≡ some t
        → get_elem? pool m ≡ some u
        → Named (keys_of t) k
        → Named (keys_of u) k
        → get_elem? tagged n ≡ some (set_done w t)
        → get_elem? tagged m ≡ some (set_done w u)
    together_tagged n m t u k w at bt kt ku e =
        let (i0, (rc, node, member0)) = b.total n t at in
        let o : Owns w rc workers = owner n t rc w at node e in
        let (c, l, i, has) = s.sound w rc o in
        let (j, e') = Listed-at components c l in
        let (rd, node', (d, e'', i')) = b.shared n m t u k j at bt kt ku (rc, node, (c, e', i)) in
        let o' : Owns w rd workers = has rd (subst (In rd) (some-eq-some (sym e'' ∙ e')) i') in
        let (v, f, x) = tag_at m u bt in
        f ∙ ap (λ y. some (set_done y u)) (s.unique v w rd (owner m u rd v bt node' f) o')

    Distributes-with : Distributes keys_of ids pool tagged
    Distributes-with = record {
      same_length =
          Tagging-length May (Given May heap pool distinct (λ i. ⊥) workers) pool tagged h;
      designated = λ n t at.
          let (w, e, (r, o, i)) = tag_at n t at in (w, s.known w (Owns-IsWorker w r workers o), e);
      together = together_tagged;
    }

module _ (c : Codecs) where
  abbrev pub keys_of_call : Transaction → List Key
  keys_of_call t = validate c t.function t.origin

  with_components :
      (w : ThreadId) (ids : List ThreadId) (pool : List Transaction)
      → DistinctIds pool
      → (nodes : List Rc) (heap : Heap) (components : List (List Rc))
      → ByKeys keys_of_call pool nodes heap components
      → (n : ℕ) (t : Transaction) → get_elem? pool n ≡ some t
      → (tagged : List Transaction) × (assign_and_tag (w ∷ ids) pool (ended (heap, components))
          ≡ ended tagged)
        × Distributes keys_of_call (w ∷ ids) pool tagged
  with_components w ids pool distinct nodes heap [] b n t e = absurd (missing (b.total n t e))
    where
      missing : (i : ℕ) × Joins keys_of_call nodes [] i n → ⊥
      missing (i, (rc, at, (x, f, m))) = cc
  with_components w ids pool distinct nodes heap (x ∷ components) b n t e =
      let (workers, f, s) =
        assign_components-Sharing w ids x components
          (Apart-at (x ∷ components) (apart_members b)) in
      let (tagged, k, h) =
        tag_all-Tagging
          (May keys_of_call (w ∷ ids) pool distinct nodes heap (x ∷ components) b workers s) heap
          pool distinct workers (λ i. ⊥) pool
          (allowed keys_of_call (w ∷ ids) pool distinct nodes heap (x ∷ components) b workers s)
          (Tagging-start _ pool) in
      (
        tagged,
        ap (tag_assigned heap pool) f ∙ ap to_loop k,
        Distributes-with keys_of_call (w ∷ ids) pool distinct nodes heap (x ∷ components) b workers
            s tagged h,
      )
    where
      apart_members :
          ByKeys keys_of_call pool nodes heap (x ∷ components)
          → (i j : ℕ) (r : Rc) → Member (x ∷ components) i r
          → Member (x ∷ components) j r
          → i ≡ j
      apart_members b i j r m l =
          let (k, t, at, node) = b.members i r m in b.apart k i j (r, node, m) (r, node, l)

  -- With one worker at least, let a pool have one transaction at least, and let no two of them have one id.
  -- Then there is fuel on which the distribution ends, without a panic: it keeps the number of transactions,
  -- tags each with one of the workers and changes nothing else in it, and tags transactions that name a
  -- common key in advance with the same worker.
  pub distribute-Distributes :
      (w : ThreadId) (ids : List ThreadId) (t : Transaction) (pool : List Transaction)
      → DistinctIds (t ∷ pool)
      → (fuel : ℕ) × (tagged : List Transaction) × (distribute c fuel (w ∷ ids) (t ∷ pool)
          ≡ ended tagged)
        × Distributes keys_of_call (w ∷ ids) (t ∷ pool) tagged
  unfolding distribute
  distribute-Distributes w ids t pool distinct =
      let (fuel, heap, components, e, b) = components-ByKeys keys_of_call (t ∷ pool) in
      let (tagged, f, h) =
        with_components w ids (t ∷ pool) distinct (build keys_of_call (t ∷ pool) empty).0 heap
          components b 0 t refl in
      (fuel, tagged, ap (assign_and_tag (w ∷ ids) (t ∷ pool)) e ∙ f, h)

  abbrev pub no_workers : Workers
  no_workers = []

  -- With a component and no worker the second `unwrap` panics.
  assign_nobody :
      (x : List Rc) (components : List (List Rc))
      → assign_components (x ∷ components) no_workers ≡ crashed
  unfolding assign_components assign_loop
  assign_nobody x components =
      let (i, d, e, at) = largest-there 0 x components in
      ap (assign_largest (assign_loop (length (x ∷ components))) (x ∷ components) []) e

  distribute_nobody :
      (t : Transaction) (pool : List Transaction)
      → (fuel : ℕ) × (distribute c fuel [] (t ∷ pool) ≡ crashed)
  unfolding distribute
  distribute_nobody t pool =
      let (fuel, heap, components, e, b) = components-ByKeys keys_of_call (t ∷ pool) in
      (
        fuel,
        ap (assign_and_tag [] (t ∷ pool)) e
            ∙ some_component (build keys_of_call (t ∷ pool) empty).0 heap components b,
      )
    where
      some_component :
          (nodes : List Rc) (heap : Heap) (components : List (List Rc))
          → ByKeys keys_of_call (t ∷ pool) nodes heap components
          → assign_and_tag [] (t ∷ pool) (ended (heap, components)) ≡ crashed
      some_component nodes heap [] b = absurd (missing (b.total 0 t refl))
        where
          missing : (i : ℕ) × Joins keys_of_call nodes [] i 0 → ⊥
          missing (i, (rc, at, (x, f, m))) = cc
      some_component nodes heap (x ∷ components) b =
          ap (tag_assigned heap (t ∷ pool)) (assign_nobody x components)

  -- The distribution panics with an empty pool, whatever the workers and the fuel. With a pool that is not
  -- empty and no worker, there is fuel on which it panics.
  pub distribute-Panics :
      ((fuel : ℕ) (ids : List ThreadId) → distribute c fuel ids [] ≡ crashed)
      × ((t : Transaction) (pool : List Transaction)
          → (fuel : ℕ) × (distribute c fuel [] (t ∷ pool) ≡ crashed))
  unfolding distribute build components_from assign_components assign_loop
  distribute-Panics = (λ fuel ids. refl, distribute_nobody)
