-- ===== src/State/Interference.antt =====
-- state/src/lib.rs: what the operations of one thread may do to an entry, as another thread sees it.
use sonic_chain.Base.{
  ◌≡◌, ◌≢◌, refl, Option, none, some, Eq, ◌==◌, Default, Option-cases, Bool-cases, ◌⊎◌, inl, inr,
  subst, ap, ◌∙◌,
}
use sonic_chain.Base.HashMap
use sonic_chain.Base.HashMap.{get-insert}
use sonic_chain.State.{StateValue, StateType, read, write}

-- The life of one entry while threads other than `t` run: nothing happens, it is created with a
-- taint, an untainted one is claimed, or its owner rewrites the data.
pub data Evolves {V T : Type 0} (t : T) (before after : Option (StateValue V T)) : Type 0 where
  same : after ≡ before → Evolves t before after
  created :
      (o : T) (e : StateValue V T)
      → before ≡ none
      → after ≡ some e
      → e.taint ≡ some o
      → o ≢ t
      → Evolves t before after
  claimed :
      (o : T) (e e' : StateValue V T)
      → before ≡ some e
      → e.taint ≡ none
      → after ≡ some e'
      → e'.taint ≡ some o
      → o ≢ t
      → Evolves t before after
  rewritten :
      (o : T) (e e' : StateValue V T)
      → before ≡ some e
      → e.taint ≡ some o
      → after ≡ some e'
      → e'.taint ≡ some o
      → o ≢ t
      → Evolves t before after

abbrev pub Interferes :
    {K V T : Type 0} ⦃ek : Eq K⦄ → T → StateType K V T → StateType K V T → Type 0
Interferes {K} t m m' = (k : K) → Evolves t (HashMap.get k m) (HashMap.get k m')

abbrev pub alone : {K V T : Type 0} → StateType K V T → StateType K V T
alone m = m

module _ {K V T : Type 0} ⦃ek : Eq K⦄ where
  insert-Interferes :
      (t : T) (key : K) (v : StateValue V T) (m : StateType K V T)
      → Evolves t (HashMap.get key m) (some v)
      → Interferes t m (HashMap.insert key v m)
  insert-Interferes t key v m h k = rw get-insert (elim (Bool-cases (key == k)) [
    | inl e ↦ rw e (subst (λ j. Evolves t (HashMap.get j m) (some v)) ((ek.beq_iff key k).0 e) h)
    | inr e ↦ rw e (same refl)
  ])

module _ {K V T : Type 0} ⦃ek : Eq K⦄ ⦃et : Eq T⦄ ⦃dv : Default V⦄ (t o : T) (other : o ≢ t) where
  -- An uninterrupted read of another thread does to each entry something that `Evolves` allows.
  pub read-Interferes : (key : K) (m : StateType K V T) → Interferes t m (read key o alone m).1
  unfolding read
  read-Interferes key m = elim (Option-cases (HashMap.get key m)) [
    | inl e ↦ rw (e, e) (insert-Interferes t key _ m (created o _ e refl refl other))
    | inr (entry, e) ↦ elim (Option-cases entry.taint) [
      | inl u ↦
          rw (e, u, e, u) (insert-Interferes t key _ m (claimed o entry _ e u refl refl other))
      | inr (w, u) ↦ elim (Bool-cases (w == o)) [
        | inl q ↦ rw (e, u, q) (λ k. same refl)
        | inr q ↦ rw (e, u, q) (λ k. same refl)
      ]
    ]
  ]

  -- To a thread, an uninterrupted write of another thread does to each entry only what other
  -- threads may do: nothing, to claim a key that is missing or untainted, or to rewrite a key of
  -- its own.
  pub write-Interferes :
      (key : K) (value : V) (m : StateType K V T) → Interferes t m (write key value o alone m).1
  unfolding write
  write-Interferes key value m = elim (Option-cases (HashMap.get key m)) [
    | inl e ↦ rw (e, e) (insert-Interferes t key _ m (created o _ e refl refl other))
    | inr (entry, e) ↦ elim (Option-cases entry.taint) [
      | inl u ↦
          rw (e, u, e, u) (insert-Interferes t key _ m (claimed o entry _ e u refl refl other))
      | inr (w, u) ↦ elim (Bool-cases (w == o)) [
        | inl q ↦
            rw (e, u, q)
              (insert-Interferes t key _ m (
                rewritten o entry _ e (u ∙ ap some ((et.beq_iff w o).0 q)) refl
                  (ap some ((et.beq_iff w o).0 q)) other))
        | inr q ↦ rw (e, u, q) (λ k. same refl)
      ]
    ]
  ]

module _ {K V T : Type 0} ⦃ek : Eq K⦄ (t : T) (m m' : StateType K V T) (k : K) where
  -- An entry of the thread itself is left as it is.
  pub owned-kept :
      (e : StateValue V T)
      → Evolves t (HashMap.get k m) (HashMap.get k m')
      → HashMap.get k m ≡ some e
      → e.taint ≡ some t
      → HashMap.get k m' ≡ some e
  owned-kept e (same p) g u = p ∙ g
  owned-kept e (created o e' p q r n) g u = cc
  owned-kept e (claimed o f f' p q r s n) g u = cc
  owned-kept e (rewritten o f f' p q r s n) g u = absurd (n (cc))

  -- An untainted entry stays as it is, or is claimed by another thread.
  pub untainted-next :
      (e : StateValue V T)
      → Evolves t (HashMap.get k m) (HashMap.get k m')
      → HashMap.get k m ≡ some e
      → e.taint ≡ none
      → (HashMap.get k m' ≡ some e)
        ⊎ ((o : T) × (e' : StateValue V T) × (HashMap.get k m' ≡ some e')
            × (e'.taint ≡ some o)
            × (o ≢ t))
  untainted-next e (same p) g u = inl (p ∙ g)
  untainted-next e (created o e' p q r n) g u = inr (o, e', q, r, n)
  untainted-next e (claimed o f f' p q r s n) g u = inr (o, f', r, s, n)
  untainted-next e (rewritten o f f' p q r s n) g u = inr (o, f', r, s, n)

  -- A missing entry stays missing, or is created by another thread.
  pub missing-next :
      Evolves t (HashMap.get k m) (HashMap.get k m')
      → HashMap.get k m ≡ none
      → (HashMap.get k m' ≡ none)
        ⊎ ((o : T) × (e' : StateValue V T) × (HashMap.get k m' ≡ some e')
            × (e'.taint ≡ some o)
            × (o ≢ t))
  missing-next (same p) g = inl (p ∙ g)
  missing-next (created o e' p q r n) g = inr (o, e', q, r, n)
  missing-next (claimed o f f' p q r s n) g = inr (o, f', r, s, n)
  missing-next (rewritten o f f' p q r s n) g = inr (o, f', r, s, n)
