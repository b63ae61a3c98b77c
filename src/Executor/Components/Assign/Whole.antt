-- ===== src/Executor/Components/Assign/Whole.antt =====
-- executor/src/concurrent/tx_distribution.rs, `ConnectedComponents::distribute`: the loop that gives the
-- components to the workers.
use sonic_chain.Base.{
  ℕ, zero, suc, ◌≡◌, ◌≤◌, refl, ap, sym, ◌∙◌, some, List, [], ◌∷◌, ◌⊎◌, inl, inr, subst, length,
  erase_idx, ltb, ◌==ℕ◌, ==ℕ_iff, Bool-cases, arith,
}
use sonic_chain.Primitives.{ThreadId}
use sonic_chain.Executor.Components.{Rc, ended}
use sonic_chain.Executor.Components.Search.{In}
use sonic_chain.Executor.Components.Assign.{
  Workers, btree_insert, idle_workers, extend, give, go_on, assign_largest, assign_loop,
  assign_components,
}
use sonic_chain.Executor.Components.Assign.Laws.{
  Listed, Apart, Owns, IsWorker, Erased, erase_idx-Erased, largest-there, smallest-there,
  extend-Owns, extend_keeps, Owns-extend, IsWorker-extend, extend-IsWorker,
}

-- The worker has all of the component.
abbrev pub Has : ThreadId → List Rc → Workers → Type 0
Has w c workers = (x : Rc) → In x c → Owns w x workers

-- Of the components `all`, `left` are still to be given away.
pub record Sharing (P : ThreadId → Type 0) (all left : List (List Rc)) (workers : Workers)
    : Type 0 where
  pub sound :
      (w : ThreadId) (r : Rc)
      → Owns w r workers
      → (c : List Rc) × Listed c all × In r c × Has w c workers
  pub unique : (v w : ThreadId) (r : Rc) → Owns v r workers → Owns w r workers → v ≡ w
  pub pending : (w : ThreadId) (r : Rc) (c : List Rc) → Owns w r workers → Listed c left → ¬ In r c
  pub complete :
      (c : List Rc) → Listed c all → Listed c left ⊎ ((w : ThreadId) × P w × Has w c workers)
  pub apart : Apart left
  pub listed : (c : List Rc) → Listed c left → Listed c all
  pub known : (w : ThreadId) → IsWorker w workers → P w

module _ (P : ThreadId → Type 0) (all : List (List Rc)) where
  -- A round keeps this.
  module _ (left rest : List (List Rc)) (c : List Rc) (e : Erased left rest c) (workers : Workers)
      (w : ThreadId) (h : IsWorker w workers) (s : Sharing P all left workers) where
    abbrev given : Workers
    given = extend w c workers

    keeps : (v : ThreadId) (d : List Rc) → Has v d workers → Has v d given
    keeps v d g x i = extend_keeps w c workers v x (g x i)

    gets : Has w c given
    gets x i = extend-Owns w c workers x h i

    sound_given :
        (v : ThreadId) (r : Rc)
        → Owns v r given
        → (d : List Rc) × Listed d all × In r d × Has v d given
    sound_given v r o = elim (Owns-extend w c workers v r o) [
      | inl p ↦ let (d, l, i, g) = s.sound v r p in (d, l, i, keeps v d g)
      | inr (q, i) ↦ (c, s.listed c e.listed, i, subst (λ u. Has u c given) (sym q) gets)
    ]

    unique_given : (u v : ThreadId) (r : Rc) → Owns u r given → Owns v r given → u ≡ v
    unique_given u v r a b = elim (Owns-extend w c workers u r a) [
      | inl p ↦ elim (Owns-extend w c workers v r b) [
        | inl q ↦ s.unique u v r p q
        | inr (q, i) ↦ absurd (s.pending u r c p e.listed i)
      ]
      | inr (p, i) ↦ elim (Owns-extend w c workers v r b) [
        | inl q ↦ absurd (s.pending v r c q e.listed i)
        | inr (q, j) ↦ p ∙ sym q
      ]
    ]

    pending_given :
        (v : ThreadId) (r : Rc) (d : List Rc) → Owns v r given → Listed d rest → ¬ In r d
    pending_given v r d o l i = elim (Owns-extend w c workers v r o) [
      | inl p ↦ s.pending v r d p (e.within d l) i
      | inr (q, j) ↦ e.alone s.apart r d j l i
    ]

    complete_given :
        (d : List Rc) → Listed d all → Listed d rest ⊎ ((v : ThreadId) × P v × Has v d given)
    complete_given d l = elim (s.complete d l) [
      | inl k ↦ elim (e.others d k) [
        | inl q ↦ inr (w, s.known w h, subst (λ x. Has w x given) (sym q) gets)
        | inr z ↦ inl z
      ]
      | inr (v, p, g) ↦ inr (v, p, keeps v d g)
    ]

    Sharing-round : Sharing P all rest given
    Sharing-round = record {
      sound = sound_given;
      unique = unique_given;
      pending = pending_given;
      complete = complete_given;
      apart = e.apart s.apart;
      listed = λ d l. s.listed d (e.within d l);
      known = λ v k. s.known v (IsWorker-extend w c workers v k);
    }

  assign_loop-Sharing :
      (rounds : ℕ) (d : List Rc) (left : List (List Rc)) (workers : Workers) (w0 : ThreadId)
      → IsWorker w0 workers
      → length (d ∷ left) ≤ rounds
      → Sharing P all (d ∷ left) workers
      → (final : Workers) × (assign_loop rounds (d ∷ left) workers ≡ ended final)
        × Sharing P all [] final
  unfolding assign_loop
  assign_loop-Sharing rounds d left [] w0 h n s = absurd h
  assign_loop-Sharing zero d left ((u, v) ∷ workers) w0 h n s = absurd (omega (arith, n))
  assign_loop-Sharing (suc rounds) d left ((u, v) ∷ workers) w0 h n s =
      let (i, c, l, at) = largest-there 0 d left in
      let e : Erased (d ∷ left) (erase_idx (d ∷ left) i) c = erase_idx-Erased (d ∷ left) i c at in
      let (w, x, m, k) = smallest-there u v workers in
      let (final, f, t) =
        go (erase_idx (d ∷ left) i) (extend w c ((u, v) ∷ workers))
          (extend-IsWorker w c ((u, v) ∷ workers) w k) (omega (arith, e.fewer, n))
          (Sharing-round (d ∷ left) (erase_idx (d ∷ left) i) c e ((u, v) ∷ workers) w k s)
          (λ d' left' workers' h' n' s'. assign_loop-Sharing rounds d' left' workers' w h' n' s') in
      (
        final,
        ap (assign_largest (assign_loop rounds) (d ∷ left) ((u, v) ∷ workers))
              (l ∙ ap (λ j. some (j, c)) (omega arith))
            ∙ ap
                (λ o.
                  go_on (assign_loop rounds) (erase_idx (d ∷ left) i) (give ((u, v) ∷ workers) c o))
                m
            ∙ f,
        t,
      )
    where
      go :
          {w : ThreadId} (rest : List (List Rc)) (given : Workers)
          → IsWorker w given
          → length rest ≤ rounds
          → Sharing P all rest given
          → ((d' : List Rc) (left' : List (List Rc)) (workers' : Workers)
              → IsWorker w workers'
              → length (d' ∷ left') ≤ rounds
              → Sharing P all (d' ∷ left') workers'
              → (final : Workers) × (assign_loop rounds (d' ∷ left') workers' ≡ ended final)
                × Sharing P all [] final)
          → (final : Workers) × (go_on (assign_loop rounds) rest (some given) ≡ ended final)
            × Sharing P all [] final
      go [] given k n s ih = (given, refl, s)
      go (d' ∷ left') given k n s ih = ih d' left' given k n s

insert-IsWorker :
    (w : ThreadId) (v : List Rc) (workers : Workers) → IsWorker w (btree_insert w v workers)
insert-IsWorker w v [] = inl refl
insert-IsWorker w v ((x, old) ∷ workers) = elim (Bool-cases (w ==ℕ x)) [
  | inl q ↦ rw q (inl refl)
  | inr q ↦ elim (Bool-cases (ltb w x)) [
    | inl p ↦ rw (q, p) (inl refl)
    | inr p ↦ rw (q, p) (inr (insert-IsWorker w v workers))
  ]
]

insert_keeps :
    (w : ThreadId) (v : List Rc) (workers : Workers) (u : ThreadId)
    → IsWorker u workers
    → IsWorker u (btree_insert w v workers)
insert_keeps w v [] u h = absurd h
insert_keeps w v ((x, old) ∷ workers) u h = elim (Bool-cases (w ==ℕ x)) [
  | inl q ↦ rw q (elim h [ inl p ↦ inl ((==ℕ_iff w x).0 q ∙ p) | inr k ↦ inr k ])
  | inr q ↦ elim (Bool-cases (ltb w x)) [
    | inl p ↦ rw (q, p) (inr h)
    | inr p ↦ rw (q, p) (elim h [ inl k ↦ inl k | inr k ↦ inr (insert_keeps w v workers u k) ])
  ]
]

IsWorker-insert :
    (w : ThreadId) (v : List Rc) (workers : Workers) (u : ThreadId)
    → IsWorker u (btree_insert w v workers)
    → (u ≡ w) ⊎ IsWorker u workers
IsWorker-insert w v [] u h = elim h [ inl p ↦ inl (sym p) | inr f ↦ absurd f ]
IsWorker-insert w v ((x, old) ∷ workers) u h = elim (Bool-cases (w ==ℕ x)) [
  | inl q ↦
      let k : (w ≡ u) ⊎ IsWorker u workers = rw q at h in
      elim k [ inl p ↦ inl (sym p) | inr j ↦ inr (inr j) ]
  | inr q ↦ elim (Bool-cases (ltb w x)) [
    | inl p ↦
        let k : (w ≡ u) ⊎ IsWorker u ((x, old) ∷ workers) = rw (q, p) at h in
        elim k [ inl j ↦ inl (sym j) | inr j ↦ inr j ]
    | inr p ↦
        let k : (x ≡ u) ⊎ IsWorker u (btree_insert w v workers) = rw (q, p) at h in
        elim k [
          | inl j ↦ inr (inl j)
          | inr j ↦ elim (IsWorker-insert w v workers u j) [ inl i ↦ inl i | inr i ↦ inr (inr i) ]
        ]
  ]
]

insert-Owns :
    (w : ThreadId) (workers : Workers) (u : ThreadId) (r : Rc)
    → Owns u r (btree_insert w [] workers)
    → Owns u r workers
insert-Owns w [] u r h = elim h [ inl (p, f) ↦ absurd f | inr f ↦ absurd f ]
insert-Owns w ((x, old) ∷ workers) u r h = elim (Bool-cases (w ==ℕ x)) [
  | inl q ↦
      let k : ((w ≡ u) × ⊥) ⊎ Owns u r workers = rw q at h in
      elim k [ inl (p, f) ↦ absurd f | inr j ↦ inr j ]
  | inr q ↦ elim (Bool-cases (ltb w x)) [
    | inl p ↦
        let k : ((w ≡ u) × ⊥) ⊎ Owns u r ((x, old) ∷ workers) = rw (q, p) at h in
        elim k [ inl (j, f) ↦ absurd f | inr j ↦ j ]
    | inr p ↦
        let k : ((x ≡ u) × In r old) ⊎ Owns u r (btree_insert w [] workers) = rw (q, p) at h in
        elim k [ inl j ↦ inl j | inr j ↦ inr (insert-Owns w workers u r j) ]
  ]
]

idle_keeps :
    (ids : List ThreadId) (workers : Workers) (u : ThreadId)
    → IsWorker u workers
    → IsWorker u (idle_workers ids workers)
idle_keeps [] workers u h = h
idle_keeps (w ∷ ids) workers u h =
    idle_keeps ids (btree_insert w [] workers) u (insert_keeps w [] workers u h)

IsWorker-idle :
    (ids : List ThreadId) (workers : Workers) (u : ThreadId)
    → IsWorker u (idle_workers ids workers)
    → In u ids ⊎ IsWorker u workers
IsWorker-idle [] workers u h = inr h
IsWorker-idle (w ∷ ids) workers u h = elim (IsWorker-idle ids (btree_insert w [] workers) u h) [
  | inl i ↦ inl (inr i)
  | inr k ↦ elim (IsWorker-insert w [] workers u k) [ inl p ↦ inl (inl p) | inr j ↦ inr j ]
]

idle-Owns :
    (ids : List ThreadId) (workers : Workers) (u : ThreadId) (r : Rc)
    → Owns u r (idle_workers ids workers)
    → Owns u r workers
idle-Owns [] workers u r h = h
idle-Owns (w ∷ ids) workers u r h =
    insert-Owns w workers u r (idle-Owns ids (btree_insert w [] workers) u r h)

-- With one component at least, none of which shares a node with another, and with one worker at least, the
-- loop ends without a panic: every component is with a worker as a whole, every node that a worker has is
-- from a component that it has as a whole, and no node is with two workers.
pub assign_components-Sharing :
    (w : ThreadId) (ids : List ThreadId) (c : List Rc) (components : List (List Rc))
    → Apart (c ∷ components)
    → (workers : Workers) × (assign_components (c ∷ components) (idle_workers (w ∷ ids) [])
        ≡ ended workers)
      × Sharing (λ v. In v (w ∷ ids)) (c ∷ components) [] workers
unfolding assign_components
assign_components-Sharing w ids c components apart =
    assign_loop-Sharing (λ v. In v (w ∷ ids)) (c ∷ components) (suc (length (c ∷ components))) c
      components (idle_workers (w ∷ ids) []) w (idle_keeps ids (btree_insert w [] []) w (inl refl))
      (omega arith)
      (record {
        sound = λ v r o. absurd (nobody v r o);
        unique = λ u v r o p. absurd (nobody u r o);
        pending = λ v r d o l i. nobody v r o;
        complete = λ d l. inl l;
        apart = apart;
        listed = λ d l. l;
        known = λ v h. elim (IsWorker-idle (w ∷ ids) [] v h) [ inl i ↦ i | inr f ↦ absurd f ];
      })
  where
    nobody : (v : ThreadId) (r : Rc) → Owns v r (idle_workers (w ∷ ids) []) → ⊥
    nobody v r o = idle-Owns (w ∷ ids) [] v r o
