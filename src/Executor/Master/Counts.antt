-- ===== src/Executor/Master/Counts.antt =====
-- executor/src/concurrent/master.rs, `collection_phase`: what the messages add to its counters.
use sonic_chain.Base.{
  ℕ, suc, ◌+◌, ◌≡◌, Bool, Option, none, some, List, [], ◌∷◌, arith, ◌==ℕ◌, length, Bool-cases, inl,
  inr, subst, some-eq-some, length-append,
}
use sonic_chain.Primitives.{ThreadId}
use sonic_chain.Executor.Types.{
  Transaction, ExecutionTag, done, orphan, not_executed, MessagePayload, set_done, worker_executed,
  worker_orphan, authoring_report, Message,
}
use sonic_chain.Executor.Pool
use sonic_chain.Executor.Master.{
  Collection, collect_payload, has_id, collect_orphan, collect_executed, push_executed, retag,
}

-- The number of reports in the messages.
abbrev pub reports : List Message → ℕ
reports [] = 0
reports (msg ∷ msgs) =
    let rest = reports msgs in elim msg.payload [ authoring_report e f ↦ suc rest | _ ↦ rest ]

-- The transactions that the reports say were forwarded.
abbrev pub forwards : List Message → ℕ
forwards [] = 0
forwards (msg ∷ msgs) =
    let rest = forwards msgs in elim msg.payload [ authoring_report e f ↦ f + rest | _ ↦ rest ]

-- The messages that a forwarded transaction has been executed, or is an orphan.
abbrev pub settled : List Message → ℕ
settled [] = 0
settled (msg ∷ msgs) =
    let rest = settled msgs in
    elim msg.payload [ worker_executed tid ↦ suc rest | worker_orphan tid ↦ suc rest | _ ↦ rest ]

abbrev pub orphaned : List Message → ℕ
orphaned [] = 0
orphaned (msg ∷ msgs) =
    let rest = orphaned msgs in elim msg.payload [ worker_orphan tid ↦ suc rest | _ ↦ rest ]

-- What the counters have gained by some messages.
abbrev pub Gains : List Message → Collection → Collection → Type 0
Gains msgs s s' =
    (s'.reported ≡ s.reported + reports msgs)
    × (s'.forwarded ≡ s.forwarded + forwards msgs)
    × (s'.executed_local + length s'.orphan_pool
        ≡ s.executed_local + length s.orphan_pool + settled msgs)
    × (length s'.orphan_pool ≡ length s.orphan_pool + orphaned msgs)

module _ (verify : Transaction → Bool) where
  abbrev pub message : ThreadId → MessagePayload → List Message
  message worker payload = record { payload = payload; from = worker } ∷ []

  orphan-Gains :
      (s s' : Collection) (worker : ThreadId) (tid : ℕ)
      (found : Option (Option (Transaction × List Transaction)))
      → collect_orphan verify s found ≡ some s'
      → Gains (message worker (worker_orphan tid)) s s'
  orphan-Gains s s' worker tid none h = cc
  orphan-Gains s s' worker tid (some none) h = cc
  orphan-Gains s s' worker tid (some (some (t, pool))) h =
      subst (Gains (message worker (worker_orphan tid)) s) (some-eq-some h)
        (omega arith, omega arith, rw length-append (omega arith), rw length-append (omega arith))

  pushed-Gains :
      (s s' : Collection) (worker : ThreadId) (tid : ℕ) (found : Option (List Transaction))
      → push_executed verify s found ≡ some s'
      → Gains (message worker (worker_executed tid)) s s'
  pushed-Gains s s' worker tid none h = cc
  pushed-Gains s s' worker tid (some pool) h =
      subst (Gains (message worker (worker_executed tid)) s) (some-eq-some h)
        (omega arith, omega arith, omega arith, omega arith)

  retag-Gains :
      (s s' : Collection) (worker : ThreadId) (tid : ℕ) (t : Transaction) (pool : List Transaction)
      (tag : ExecutionTag)
      → retag verify s worker t pool tag ≡ some s'
      → Gains (message worker (worker_executed tid)) s s'
  unfolding retag
  retag-Gains s s' worker tid t pool orphan h = cc
  retag-Gains s s' worker tid t pool not_executed h = cc
  retag-Gains s s' worker tid t pool (done v) h = elim (Bool-cases (worker ==ℕ v)) [
    | inl e ↦ cc (rw e at h)
    | inr e ↦
        pushed-Gains s s' worker tid (Pool.push_back verify pool (set_done worker t)) (rw e at h)
  ]

  executed-Gains :
      (s s' : Collection) (worker : ThreadId) (tid : ℕ)
      (found : Option (Option (Transaction × List Transaction)))
      → collect_executed verify s worker found ≡ some s'
      → Gains (message worker (worker_executed tid)) s s'
  executed-Gains s s' worker tid none h = cc
  executed-Gains s s' worker tid (some none) h = cc
  executed-Gains s s' worker tid (some (some (t, pool))) h =
      retag-Gains s s' worker tid t pool t.tag h

  pub collect_payload-Gains :
      (s s' : Collection) (worker : ThreadId) (payload : MessagePayload)
      → collect_payload verify s worker payload ≡ some s'
      → Gains (message worker payload) s s'
  unfolding collect_payload
  collect_payload-Gains s s' worker (authoring_report e f) h =
      subst (Gains (message worker (authoring_report e f)) s) (some-eq-some h)
        (omega arith, omega arith, omega arith, omega arith)
  collect_payload-Gains s s' worker (worker_orphan tid) h =
      orphan-Gains s s' worker tid (Pool.remove (has_id tid) s.tx_pool) h
  collect_payload-Gains s s' worker (worker_executed tid) h =
      executed-Gains s s' worker tid (Pool.remove (has_id tid) s.tx_pool) h
  collect_payload-Gains s s' worker _ h = cc

  -- One message after another.
  pub Gains-cons :
      (s next s' : Collection) (worker : ThreadId) (payload : MessagePayload) (msgs : List Message)
      → Gains (message worker payload) s next
      → Gains msgs next s'
      → Gains (record { payload = payload; from = worker } ∷ msgs) s s'
  Gains-cons s next s' worker (authoring_report e f) msgs (a, b, d, g) (i, j, k, l) =
      (omega (arith, a, i), omega (arith, b, j), omega (arith, d, k), omega (arith, g, l))
  Gains-cons s next s' worker (worker_orphan tid) msgs (a, b, d, g) (i, j, k, l) =
      (omega (arith, a, i), omega (arith, b, j), omega (arith, d, k), omega (arith, g, l))
  Gains-cons s next s' worker (worker_executed tid) msgs (a, b, d, g) (i, j, k, l) =
      (omega (arith, a, i), omega (arith, b, j), omega (arith, d, k), omega (arith, g, l))
  Gains-cons s next s' worker _ msgs (a, b, d, g) (i, j, k, l) =
      (omega (arith, a, i), omega (arith, b, j), omega (arith, d, k), omega (arith, g, l))
