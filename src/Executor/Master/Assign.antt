-- ===== src/Executor/Master/Assign.antt =====
-- executor/src/concurrent/master.rs, `validate_block`: who validates which transaction, in which order.
use sonic_chain.Base.{
  ◌≡◌, refl, ap, Option, none, some, List, [], ◌∷◌, ◌==ℕ◌, if◌then◌else◌, Bool-cases, inl, inr,
  subst, some-eq-some,
}
use sonic_chain.Primitives.{ThreadId}
use sonic_chain.Executor.Types.{
  Transaction, ExecutionTag, done, orphan, not_executed, MessagePayload, transaction,
}
use sonic_chain.Executor.Worker.{contains}
use sonic_chain.Executor.Master.{Assignment, assign_block, assign_tagged}

abbrev keep_orphan : ExecutionTag → Transaction → List Transaction → List Transaction
keep_orphan orphan tx rest = tx ∷ rest
keep_orphan _ tx rest = rest

-- The orphans of a block, in its order.
abbrev pub orphans_of : List Transaction → List Transaction
orphans_of [] = []
orphans_of (tx ∷ txs) = keep_orphan tx.tag tx (orphans_of txs)

abbrev keep_own : ThreadId → ExecutionTag → Transaction → List MessagePayload → List MessagePayload
keep_own w (done owner) tx rest = if owner ==ℕ w then transaction tx ∷ rest else rest
keep_own w _ tx rest = rest

-- The transactions of a block that its author's thread `w` executed, in its order.
abbrev pub payloads_of : ThreadId → List Transaction → List MessagePayload
payloads_of w [] = []
payloads_of w (tx ∷ txs) = keep_own w tx.tag tx (payloads_of w txs)

-- What worker `w` receives, in order.
abbrev pub sent_to : ThreadId → List (ThreadId × MessagePayload) → List MessagePayload
sent_to w [] = []
sent_to w ((owner, payload) ∷ sent) =
    let rest = sent_to w sent in if owner ==ℕ w then payload ∷ rest else rest

module _ (workers : List ThreadId) where
  abbrev Assigned : Assignment → List Transaction → ((ThreadId) → List MessagePayload) → Type 0
  Assigned a orphans payloads =
      (a.orphans ≡ orphans) × ((w : ThreadId) → sent_to w a.sent ≡ payloads w)

  assign_tagged-Assigned :
      (tx : Transaction) (txs : List Transaction) (a : Assignment) (tag : ExecutionTag)
      (found : Option Assignment)
      → ((b : Assignment) → found ≡ some b → Assigned b (orphans_of txs) (λ w. payloads_of w txs))
      → assign_tagged workers tx tag found ≡ some a
      → Assigned a
          (keep_orphan tag tx (orphans_of txs))
          (λ w. keep_own w tag tx (payloads_of w txs))
  assign_tagged-Assigned tx txs a tag none ih h = cc
  assign_tagged-Assigned tx txs a not_executed (some b) ih h = cc
  assign_tagged-Assigned tx txs a orphan (some b) ih h =
      let (o, s) = ih b refl in
      subst (λ x. Assigned x (tx ∷ orphans_of txs) (λ w. payloads_of w txs)) (some-eq-some h)
        (ap (λ r. tx ∷ r) o, s)
  assign_tagged-Assigned tx txs a (done owner) (some b) ih h =
      elim (Bool-cases (contains owner workers)) [
        | inl e ↦
            let (o, s) = ih b refl in
            subst
              (λ x.
                Assigned x (orphans_of txs) (λ w. keep_own w (done owner) tx (payloads_of w txs)))
              (some-eq-some (rw e at h)) (o, λ w. rw (s w))
        | inr e ↦ cc (rw e at h)
      ]

  -- If a block is assigned with no panic, the master keeps its orphans in their order, and every worker
  -- receives, in their order, the transactions that are tagged with its id, and nothing else.
  pub assign_block_lem :
      (txs : List Transaction) (a : Assignment)
      → assign_block workers txs ≡ some a
      → (a.orphans ≡ orphans_of txs) × ((w : ThreadId) → sent_to w a.sent ≡ payloads_of w txs)
  unfolding assign_block
  assign_block_lem [] a h = subst (λ x. Assigned x [] (λ w. [])) (some-eq-some h) (refl, λ w. refl)
  assign_block_lem (tx ∷ txs) a h =
      assign_tagged-Assigned tx txs a tx.tag (assign_block workers txs) (assign_block_lem txs) h
