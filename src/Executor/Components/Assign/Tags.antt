-- ===== src/Executor/Components/Assign/Tags.antt =====
-- executor/src/concurrent/tx_distribution.rs, `ConnectedComponents::distribute`: the tags of the transactions.
use sonic_chain.Base.{
  ℕ, zero, suc, ◌+◌, ◌≡◌, ◌≢◌, refl, ap, sym, ◌∙◌, false, Option, some, List, [], ◌∷◌, ◌⊎◌, inl,
  inr, subst, length, get_elem?, ◌==ℕ◌, ==ℕ_iff, Bool-cases, some-eq-some,
}
use sonic_chain.Primitives.{ThreadId}
use sonic_chain.Executor.Types.{Transaction, TransactionId, set_done}
use sonic_chain.Executor.Pool
use sonic_chain.Executor.Pool.{find_from}
use sonic_chain.Executor.Components.{Rc, Heap}
use sonic_chain.Executor.Components.Search.{In}
use sonic_chain.Executor.Components.Assign.{
  Workers, tx_id, tag_transaction, and_then, tag_nodes, tag_all,
}
use sonic_chain.Executor.Components.Assign.Laws.{Owns}

-- No two transactions have one id.
abbrev pub DistinctIds : List Transaction → Type 0
DistinctIds [] = Unit
DistinctIds (t ∷ pool) =
    ((n : ℕ) (u : Transaction) → get_elem? pool n ≡ some u → u.id ≢ t.id) × DistinctIds pool

abbrev pub InPool : List Transaction → TransactionId → Type 0
InPool pool tid = (n : ℕ) × (t : Transaction) × (get_elem? pool n ≡ some t) × (t.id ≡ tid)

abbrev id_at : Heap → Rc → Option TransactionId
id_at heap r = tx_id (get_elem? heap r)

module _ (A : ThreadId → TransactionId → Type 0) where
  abbrev pub Tagged : Transaction → Transaction → Type 0
  Tagged t u = (w : ThreadId) × (u ≡ set_done w t) × A w t.id

  -- With the ids in `Q` tagged, and only as `A` allows.
  abbrev pub Tagging : (TransactionId → Type 0) → List Transaction → List Transaction → Type 0
  Tagging Q [] [] = Unit
  Tagging Q [] (u ∷ tagged) = ⊥
  Tagging Q (t ∷ pool) [] = ⊥
  Tagging Q (t ∷ pool) (u ∷ tagged) = (((u ≡ t) × ¬ Q t.id) ⊎ Tagged t u) × Tagging Q pool tagged

  pub Tagging-start : (pool : List Transaction) → Tagging (λ i. ⊥) pool pool
  Tagging-start [] = tt
  Tagging-start (t ∷ pool) = (inl (refl, λ f. f), Tagging-start pool)

  pub Tagging-weaken :
      (Q R : TransactionId → Type 0) (pool tagged : List Transaction)
      → ((n : ℕ) (t : Transaction) → get_elem? pool n ≡ some t → R t.id → Q t.id)
      → Tagging Q pool tagged
      → Tagging R pool tagged
  Tagging-weaken Q R [] [] sub h = tt
  Tagging-weaken Q R [] (u ∷ tagged) sub h = absurd h
  Tagging-weaken Q R (t ∷ pool) [] sub h = absurd h
  Tagging-weaken Q R (t ∷ pool) (u ∷ tagged) sub (h, rest) = (
    elim h [ inl (e, n) ↦ inl (e, λ r. n (sub 0 t refl r)) | inr g ↦ inr g ],
    Tagging-weaken Q R pool tagged (λ n v e. sub (suc n) v e) rest,
  )

  same_id : (t u : Transaction) {B : Type 0} → ((u ≡ t) × B) ⊎ Tagged t u → u.id ≡ t.id
  same_id t u (inl (e, n)) = ap (λ v. v.id) e
  same_id t u (inr (w, e, a)) = ap (λ v. v.id) e

  retagged :
      (w : ThreadId) (t u : Transaction) {B : Type 0}
      → ((u ≡ t) × B) ⊎ Tagged t u
      → set_done w u ≡ set_done w t
  retagged w t u (inl (e, n)) = ap (set_done w) e
  retagged w t u (inr (v, e, a)) = ap (set_done w) e

  module _ (Q : TransactionId → Type 0) (w : ThreadId) (tid : TransactionId)
      (allowed : A w tid) where
    abbrev With : TransactionId → Type 0
    With i = Q i ⊎ (i ≡ tid)

    Tagging-step :
        (pool tagged : List Transaction)
        → DistinctIds pool
        → Tagging Q pool tagged
        → Tagging With pool (Pool.update_first (λ t. t.id ==ℕ tid) (set_done w) tagged)
    unfolding Pool.update_first
    Tagging-step [] [] d h = tt
    Tagging-step [] (u ∷ tagged) d h = absurd h
    Tagging-step (t ∷ pool) [] d h = absurd h
    Tagging-step (t ∷ pool) (u ∷ tagged) d (h, rest) = elim (Bool-cases (u.id ==ℕ tid)) [
      | inl q ↦
          let e : t.id ≡ tid = sym (same_id t u h) ∙ (==ℕ_iff u.id tid).0 q in
          rw q (
            inr (w, retagged w t u h, subst (A w) (sym e) allowed),
            Tagging-weaken Q With pool tagged
                (λ n v f r. elim r [ inl p ↦ p | inr p ↦ absurd (d.0 n v f (p ∙ sym e)) ]) rest,
          )
      | inr q ↦ rw q (
        elim h [
          | inl (e, n) ↦ inl (
            e,
            λ r. elim r [ inl p ↦ n p | inr p ↦ cc ((==ℕ_iff u.id tid).1 (ap (λ v. v.id) e ∙ p)) ],
          )
          | inr g ↦ inr g
        ],
        Tagging-step pool tagged d.1 rest,
      )
    ]

    there :
        (i : ℕ) (pool tagged : List Transaction)
        → Tagging Q pool tagged
        → InPool pool tid
        → (found : ℕ × Transaction) × (find_from i (λ t. t.id ==ℕ tid) tagged ≡ some found)
    unfolding find_from
    there i [] tagged h (n, v, e, f) = cc
    there i (t ∷ pool) [] h m = absurd h
    there i (t ∷ pool) (u ∷ tagged) (h, rest) (n, v, e, f) = elim (Bool-cases (u.id ==ℕ tid)) [
      | inl q ↦ ((i, u), rw q)
      | inr q ↦ let (found, g) = there (i + 1) pool tagged rest (later n e q) in (found, rw q g)
    ]
      where
        later : (n : ℕ) → get_elem? (t ∷ pool) n ≡ some v → (u.id ==ℕ tid) ≡ false → InPool pool tid
        later zero e q =
            cc ((==ℕ_iff u.id tid).1 (same_id t u h ∙ ap (λ x. x.id) (some-eq-some e) ∙ f))
        later (suc n) e q = (n, v, e, f)

    tag_transaction-Tagging :
        (pool tagged : List Transaction)
        → DistinctIds pool
        → InPool pool tid
        → Tagging Q pool tagged
        → (next : List Transaction) × (tag_transaction w tagged (some tid) ≡ some next)
          × Tagging With pool next
    unfolding Pool.get
    tag_transaction-Tagging pool tagged d m h =
        let (found, e) = there 0 pool tagged h m in
        (
          Pool.update_first (λ t. t.id ==ℕ tid) (set_done w) tagged,
          rw e,
          Tagging-step pool tagged d h,
        )

  module _ (heap : Heap) (pool : List Transaction) (distinct : DistinctIds pool) where
    -- A node of a transaction of the pool that `w` may have.
    abbrev pub Allowed : ThreadId → Rc → Type 0
    Allowed w r = (tid : TransactionId) × (id_at heap r ≡ some tid) × InPool pool tid × A w tid

    abbrev pub Within : (TransactionId → Type 0) → List Rc → TransactionId → Type 0
    Within Q rcs i = Q i ⊎ ((r : Rc) × In r rcs × (id_at heap r ≡ some i))

    tag_nodes-Tagging :
        (w : ThreadId) (rcs : List Rc) (Q : TransactionId → Type 0) (tagged : List Transaction)
        → ((r : Rc) → In r rcs → Allowed w r)
        → Tagging Q pool tagged
        → (next : List Transaction) × (tag_nodes heap w rcs tagged ≡ some next)
          × Tagging (Within Q rcs) pool next
    unfolding tag_nodes
    tag_nodes-Tagging w [] Q tagged ok h = (
      tagged,
      refl,
      Tagging-weaken Q (Within Q []) pool tagged
          (λ n t e r. elim r [ inl p ↦ p | inr p ↦ absurd p.1 ]) h,
    )
    tag_nodes-Tagging w (rc ∷ rcs) Q tagged ok h =
        let (tid, e, m, a) = ok rc (inl refl) in
        let (first, f, g) = tag_transaction-Tagging Q w tid a pool tagged distinct m h in
        let (next, k, l) = tag_nodes-Tagging w rcs (With Q w tid a) first (λ r i. ok r (inr i)) g in
        (
          next,
          ap (λ o. and_then (tag_nodes heap w rcs) (tag_transaction w tagged o)) e
              ∙ ap (and_then (tag_nodes heap w rcs)) f
              ∙ k,
          Tagging-weaken (Within (With Q w tid a) rcs) (Within Q (rc ∷ rcs)) pool next
              (λ n t at r. elim r [
                | inl p ↦ inl (inl p)
                | inr (x, inl q, y) ↦ inl (inr (some-eq-some (sym y ∙ ap (id_at heap) q ∙ e)))
                | inr (x, inr i, y) ↦ inr (x, i, y)
              ])
              l,
        )

    abbrev pub Given : (TransactionId → Type 0) → Workers → TransactionId → Type 0
    Given Q workers i =
        Q i ⊎ ((w : ThreadId) × (r : Rc) × Owns w r workers × (id_at heap r ≡ some i))

    pub tag_all-Tagging :
        (workers : Workers) (Q : TransactionId → Type 0) (tagged : List Transaction)
        → ((w : ThreadId) (r : Rc) → Owns w r workers → Allowed w r)
        → Tagging Q pool tagged
        → (next : List Transaction) × (tag_all heap workers tagged ≡ some next)
          × Tagging (Given Q workers) pool next
    unfolding tag_all
    tag_all-Tagging [] Q tagged ok h = (
      tagged,
      refl,
      Tagging-weaken Q (Given Q []) pool tagged
          (λ n t e r. elim r [ inl p ↦ p | inr p ↦ absurd p.2 ]) h,
    )
    tag_all-Tagging ((w, rcs) ∷ workers) Q tagged ok h =
        let (first, f, g) = tag_nodes-Tagging w rcs Q tagged (λ r i. ok w r (inl (refl, i))) h in
        let (next, k, l) =
          tag_all-Tagging workers (Within Q rcs) first (λ v r o. ok v r (inr o)) g in
        (
          next,
          ap (and_then (tag_all heap workers)) f ∙ k,
          Tagging-weaken (Given (Within Q rcs) workers) (Given Q ((w, rcs) ∷ workers)) pool next
              (λ n t at r. elim r [
                | inl p ↦ inl (inl p)
                | inr (v, x, inl q, y) ↦ inl (inr (x, q.1, y))
                | inr (v, x, inr o, y) ↦ inr (v, x, o, y)
              ])
              l,
        )

  pub Tagging-at :
      (Q : TransactionId → Type 0) (pool tagged : List Transaction)
      → Tagging Q pool tagged
      → (n : ℕ) (t : Transaction) → get_elem? pool n ≡ some t
      → Q t.id
      → (w : ThreadId) × (get_elem? tagged n ≡ some (set_done w t)) × A w t.id
  Tagging-at Q [] tagged h n t e q = cc
  Tagging-at Q (v ∷ pool) [] h n t e q = absurd h
  Tagging-at Q (v ∷ pool) (u ∷ tagged) (h, rest) (suc n) t e q =
      Tagging-at Q pool tagged rest n t e q
  Tagging-at Q (v ∷ pool) (u ∷ tagged) (h, rest) zero t e q =
      let same : v ≡ t = some-eq-some e in
      elim h [
        | inl (f, n) ↦ absurd (n (subst (λ x. Q x.id) (sym same) q))
        | inr (w, f, a) ↦
            (w, ap some f ∙ ap (λ x. some (set_done w x)) same, subst (λ x. A w x.id) same a)
      ]

  pub Tagging-length :
      (Q : TransactionId → Type 0) (pool tagged : List Transaction)
      → Tagging Q pool tagged
      → length tagged ≡ length pool
  Tagging-length Q [] [] h = refl
  Tagging-length Q [] (u ∷ tagged) h = absurd h
  Tagging-length Q (t ∷ pool) [] h = absurd h
  Tagging-length Q (t ∷ pool) (u ∷ tagged) h = ap suc (Tagging-length Q pool tagged h.1)
