-- ===== src/Executor/Components/Assign/Laws.antt =====
-- executor/src/concurrent/tx_distribution.rs, `ConnectedComponents::distribute`: each component goes to one
-- worker as a whole.
use sonic_chain.Base.{
  ℕ, zero, suc, ◌+◌, ◌≡◌, refl, ap, sym, ◌∙◌, some, List, [], ◌∷◌, ◌++◌, ◌⊎◌, inl, inr, subst,
  length, get_elem?, erase_idx, leb, ◌==ℕ◌, ==ℕ_iff, Bool-cases, some-eq-some, arith,
}
use sonic_chain.Primitives.{ThreadId}
use sonic_chain.Executor.Components.{Rc}
use sonic_chain.Executor.Components.Search.{In, In-left, In-right, In-append}
use sonic_chain.Executor.Components.Assign.{Workers, largest, smallest, extend}

abbrev pub Listed : List Rc → List (List Rc) → Type 0
Listed c [] = ⊥
Listed c (d ∷ components) = (c ≡ d) ⊎ Listed c components

-- No node is in two components.
abbrev pub Apart : List (List Rc) → Type 0
Apart [] = Unit
Apart (c ∷ components) =
    ((r : Rc) (d : List Rc) → In r c → Listed d components → ¬ In r d) × Apart components

-- The node is the worker's.
abbrev pub Owns : ThreadId → Rc → Workers → Type 0
Owns w r [] = ⊥
Owns w r ((u, v) ∷ workers) = ((u ≡ w) × In r v) ⊎ Owns w r workers

abbrev pub IsWorker : ThreadId → Workers → Type 0
IsWorker w [] = ⊥
IsWorker w ((u, v) ∷ workers) = (u ≡ w) ⊎ IsWorker w workers

-- Taking a component away.
pub record Erased (components rest : List (List Rc)) (c : List Rc) : Type 0 where
  pub listed : Listed c components
  pub fewer : suc (length rest) ≡ length components
  pub apart : Apart components → Apart rest
  pub alone : Apart components → (r : Rc) (d : List Rc) → In r c → Listed d rest → ¬ In r d
  pub others : (d : List Rc) → Listed d components → (d ≡ c) ⊎ Listed d rest
  pub within : (d : List Rc) → Listed d rest → Listed d components

pub erase_idx-Erased :
    (components : List (List Rc)) (i : ℕ) (c : List Rc)
    → get_elem? components i ≡ some c
    → Erased components (erase_idx components i) c
erase_idx-Erased [] i c e = cc
erase_idx-Erased (d ∷ components) zero c e =
    subst (Erased (d ∷ components) components) (some-eq-some e) (record {
      listed = inl refl;
      fewer = refl;
      apart = λ a. a.1;
      alone = λ a. a.0;
      others = λ x h. h;
      within = λ x h. inr h;
    })
erase_idx-Erased (d ∷ components) (suc i) c e =
    let ih = erase_idx-Erased components i c e in
    record {
      listed = inr ih.listed;
      fewer = ap suc ih.fewer;
      apart = λ a. (λ r x h l. a.0 r x h (ih.within x l), ih.apart a.1);
      alone = λ a r x h l m. elim l [
        | inl q ↦ a.0 r c (subst (In r) q m) ih.listed h
        | inr k ↦ ih.alone a.1 r x h k m
      ];
      others = λ x l. elim l [
        | inl q ↦ inr (inl q)
        | inr k ↦ elim (ih.others x k) [ inl q ↦ inl q | inr z ↦ inr (inr z) ]
      ];
      within = λ x l. elim l [ inl q ↦ inl q | inr k ↦ inr (ih.within x k) ];
    }

-- There is a largest component.
pub largest-there :
    (j : ℕ) (c : List Rc) (components : List (List Rc))
    → (i : ℕ) × (d : List Rc) × (largest j (c ∷ components) ≡ some (j + i, d))
      × (get_elem? (c ∷ components) i ≡ some d)
largest-there j c [] = (0, c, ap (λ n. some (n, c)) (omega arith), refl)
largest-there j c (d ∷ components) =
    let (i, x, e, h) = largest-there (j + 1) d components in
    elim (Bool-cases (leb (length c) (length x))) [
      | inl q ↦ (suc i, x, rw (e, q) (ap (λ n. some (n, x)) (omega arith)), h)
      | inr q ↦ (0, c, rw (e, q) (ap (λ n. some (n, c)) (omega arith)), refl)
    ]

-- There is a worker with the fewest nodes.
pub smallest-there :
    (u : ThreadId) (v : List Rc) (workers : Workers)
    → (w : ThreadId) × (x : List Rc) × (smallest ((u, v) ∷ workers) ≡ some (w, x))
      × IsWorker w ((u, v) ∷ workers)
smallest-there u v [] = (u, v, refl, inl refl)
smallest-there u v ((u', v') ∷ workers) =
    let (w, x, e, h) = smallest-there u' v' workers in
    elim (Bool-cases (leb (length v) (length x))) [
      | inl q ↦ (u, v, rw (e, q) refl, inl refl)
      | inr q ↦ (w, x, rw (e, q) refl, inr h)
    ]

pub extend-Owns :
    (w : ThreadId) (c : List Rc) (workers : Workers) (r : Rc)
    → IsWorker w workers
    → In r c
    → Owns w r (extend w c workers)
extend-Owns w c [] r h i = absurd h
extend-Owns w c ((u, v) ∷ workers) r h i = elim (Bool-cases (u ==ℕ w)) [
  | inl q ↦ rw q (inl ((==ℕ_iff u w).0 q, In-right r v c i))
  | inr q ↦
      rw q (elim h [ inl p ↦ cc ((==ℕ_iff u w).1 p) | inr k ↦ inr (extend-Owns w c workers r k i) ])
]

pub extend_keeps :
    (w : ThreadId) (c : List Rc) (workers : Workers) (u : ThreadId) (r : Rc)
    → Owns u r workers
    → Owns u r (extend w c workers)
extend_keeps w c [] u r h = h
extend_keeps w c ((x, v) ∷ workers) u r h = elim (Bool-cases (x ==ℕ w)) [
  | inl q ↦ rw q (elim h [ inl (p, i) ↦ inl (p, In-left r v c i) | inr k ↦ inr k ])
  | inr q ↦ rw q (elim h [ inl p ↦ inl p | inr k ↦ inr (extend_keeps w c workers u r k) ])
]

pub Owns-extend :
    (w : ThreadId) (c : List Rc) (workers : Workers) (u : ThreadId) (r : Rc)
    → Owns u r (extend w c workers)
    → Owns u r workers ⊎ ((u ≡ w) × In r c)
Owns-extend w c [] u r h = absurd h
Owns-extend w c ((x, v) ∷ workers) u r h = elim (Bool-cases (x ==ℕ w)) [
  | inl q ↦
      let k : ((x ≡ u) × In r (v ++ c)) ⊎ Owns u r workers = rw q at h in
      elim k [
        | inl (p, i) ↦ elim (In-append r v c i) [
          | inl j ↦ inl (inl (p, j))
          | inr j ↦ inr (sym p ∙ (==ℕ_iff x w).0 q, j)
        ]
        | inr j ↦ inl (inr j)
      ]
  | inr q ↦
      let k : ((x ≡ u) × In r v) ⊎ Owns u r (extend w c workers) = rw q at h in
      elim k [
        | inl p ↦ inl (inl p)
        | inr j ↦ elim (Owns-extend w c workers u r j) [ inl i ↦ inl (inr i) | inr i ↦ inr i ]
      ]
]

pub IsWorker-extend :
    (w : ThreadId) (c : List Rc) (workers : Workers) (u : ThreadId)
    → IsWorker u (extend w c workers)
    → IsWorker u workers
IsWorker-extend w c [] u h = h
IsWorker-extend w c ((x, v) ∷ workers) u h = elim (Bool-cases (x ==ℕ w)) [
  | inl q ↦ (rw q at h)
  | inr q ↦
      let k : (x ≡ u) ⊎ IsWorker u (extend w c workers) = rw q at h in
      elim k [ inl p ↦ inl p | inr j ↦ inr (IsWorker-extend w c workers u j) ]
]

pub extend-IsWorker :
    (w : ThreadId) (c : List Rc) (workers : Workers) (u : ThreadId)
    → IsWorker u workers
    → IsWorker u (extend w c workers)
extend-IsWorker w c [] u h = h
extend-IsWorker w c ((x, v) ∷ workers) u h = elim (Bool-cases (x ==ℕ w)) [
  | inl q ↦ rw q h
  | inr q ↦ rw q (elim h [ inl p ↦ inl p | inr j ↦ inr (extend-IsWorker w c workers u j) ])
]
