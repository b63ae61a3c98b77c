-- ===== src/Executor/Master/Laws.antt =====
-- executor/src/concurrent/master.rs, `collection_phase`: no message makes the master lose or duplicate
-- a transaction.
use sonic_chain.Base.{
  ◌≡◌, refl, Bool, Option, none, some, List, ◌∷◌, ◌++◌, map, ◌==ℕ◌, Bool-cases, inl, inr, subst,
  some-eq-some,
}
use mathlib.Core.List.{append_assoc, map-append, Perm, perm_middle, perm_append_singleton}
use mathlib.Core.List.Perm
use sonic_chain.Primitives.{ThreadId}
use sonic_chain.Executor.Types.{
  Transaction, ExecutionTag, done, orphan, not_executed, TransactionId, MessagePayload, set_done,
  worker_executed, worker_orphan, authoring_report,
}
use sonic_chain.Executor.Pool
use sonic_chain.Executor.Pool.Laws.{take_first, remove_lem, take_first-IsFirst}
use sonic_chain.Executor.Master.{
  Collection, collect_payload, has_id, collect_orphan, collect_executed, retag,
}

abbrev pub ids : List Transaction → List TransactionId
ids txs = map (λ t. t.id) txs

-- The transactions that the master holds, by their ids.
abbrev pub held : Collection → List TransactionId
held s = ids s.tx_pool ++ ids s.orphan_pool

-- Taking a transaction out of the pool, by id.
taken-Perm :
    (search : Transaction → Bool) (pool : List Transaction) (t : Transaction)
    (rest : List Transaction)
    → take_first search pool ≡ some (t, rest)
    → Perm (t.id ∷ ids rest) (ids pool)
taken-Perm search pool t rest h =
    let (before, after, p, q, s, a) = take_first-IsFirst search pool t rest h in
    rw (p, q) (simp map-append (Perm.symm (perm_middle (ids before) (ids after))))

module _ (verify : Transaction → Bool) where
  -- An orphan that is reported leaves the pool for the orphan pool.
  orphan-Perm :
      (s s' : Collection) (tid : TransactionId) (found : Option (Transaction × List Transaction))
      → take_first (has_id tid) s.tx_pool ≡ found
      → collect_orphan verify s (some found) ≡ some s'
      → Perm (held s') (held s)
  orphan-Perm s s' tid none f h = cc
  orphan-Perm s s' tid (some (t, rest)) f h =
      subst (λ x. Perm (held x) (held s)) (some-eq-some h)
        (simp map-append (
          Perm.trans
            (rw (← append_assoc) (perm_append_singleton t.id (ids rest ++ ids s.orphan_pool)))
            (Perm.append_right (ids s.orphan_pool) (taken-Perm (has_id tid) s.tx_pool t rest f))))

  -- One that was executed elsewhere stays in the pool.
  executed-Perm :
      (s s' : Collection) (worker : ThreadId) (t : Transaction) (rest : List Transaction)
      (search : Transaction → Bool) (tag : ExecutionTag)
      → take_first search s.tx_pool ≡ some (t, rest)
      → retag verify s worker t rest tag ≡ some s'
      → Perm (held s') (held s)
  unfolding retag Pool.push_back
  executed-Perm s s' worker t rest search orphan f h = cc
  executed-Perm s s' worker t rest search not_executed f h = cc
  executed-Perm s s' worker t rest search (done v) f h = elim (Bool-cases (worker ==ℕ v)) [
    | inl e ↦ cc (rw e at h)
    | inr e ↦ elim (Bool-cases (verify (set_done worker t))) [
      | inr q ↦ cc (rw (e, q) at h)
      | inl q ↦
          subst (λ x. Perm (held x) (held s)) (some-eq-some (rw (e, q) at h))
            (simp map-append (
              Perm.append_right (ids s.orphan_pool) (
                Perm.trans (perm_append_singleton t.id (ids rest))
                  (taken-Perm search s.tx_pool t rest f))))
    ]
  ]

  -- No message makes the master lose or duplicate a transaction.
  pub collect_payload-Perm :
      (s s' : Collection) (worker : ThreadId) (payload : MessagePayload)
      → collect_payload verify s worker payload ≡ some s'
      → Perm (held s') (held s)
  unfolding collect_payload
  collect_payload-Perm s s' worker (authoring_report e f) h =
      subst (λ x. Perm (held x) (held s)) (some-eq-some h) (Perm.refl (held s))
  collect_payload-Perm s s' worker (worker_orphan tid) h =
      orphan-Perm s s' tid (take_first (has_id tid) s.tx_pool) refl
        (rw (remove_lem (has_id tid) s.tx_pool) at h)
  collect_payload-Perm s s' worker (worker_executed tid) h =
      on_found (take_first (has_id tid) s.tx_pool) refl
        (rw (remove_lem (has_id tid) s.tx_pool) at h)
    where
      on_found :
          (found : Option (Transaction × List Transaction))
          → take_first (has_id tid) s.tx_pool ≡ found
          → collect_executed verify s worker (some found) ≡ some s'
          → Perm (held s') (held s)
      on_found none f h = cc
      on_found (some (t, rest)) f h = executed-Perm s s' worker t rest (has_id tid) t.tag f h
  collect_payload-Perm s s' worker _ h = cc
