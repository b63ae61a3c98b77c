-- ===== src/Executor/Worker/Laws.antt =====
-- executor/src/concurrent/worker.rs: every transaction that a worker takes up is accounted for by exactly
-- one message or by the worker's own count.
use sonic_chain.Base.{
  ◌≡◌, ◌≢◌, refl, sym, ◌∙◌, Bool, true, false, some, List, [], ◌∷◌, Bool-cases, inl, inr, ◌⊎◌,
  subst, some-eq-some, returned, failed, panicked,
}
use sonic_chain.Primitives.{ThreadId}
use sonic_chain.Runtime.{RuntimeDispatchSuccess, RuntimeDispatchResult, tainted_by}
use sonic_chain.Runtime.Sequential.{RuntimeState}
use sonic_chain.Runtime.Dispatch.{dispatch-Follows, sequential-dispatch-ne-tainted}
use sonic_chain.Staking.{Codecs}
use sonic_chain.Call.{body}
use sonic_chain.Call.Discipline.{body-IsDisciplined, body-ChecksFirst}
use sonic_chain.Executor.Types.{
  Transaction, ExecutionStatus, initial, forwarded, transaction, worker_executed, worker_orphan,
}
use sonic_chain.Executor.Worker.{
  Execution, executed, forwarded_to, forwarded_to_master, to_master, to_worker, execute_or_forward,
  execute_transaction, route, contains, route_tainted, report_execution,
}

module _ (c : Codecs) (id : ThreadId) (to_others : List ThreadId) where
  -- A worker is refused only for the taint of another thread.
  refused_by_other :
      (tx : Transaction) (m : RuntimeState) (t : ThreadId) (b : Bool)
      → (execute_transaction c id to_others tx m).0 ≡ failed (tainted_by t b)
      → t ≢ id
  unfolding execute_transaction
  refused_by_other tx m t b e =
      elim (dispatch-Follows id (body c tx.function tx.origin) m
        (body-IsDisciplined c tx.function tx.origin) m (body-ChecksFirst c tx.function tx.origin)
        (λ k. refl)) [
          | inl (u, d, f, n, v) ↦ λ q. n (owner (sym f ∙ e) ∙ q)
          | inr (f, v) ↦ absurd (
              sequential-dispatch-ne-tainted id (body c tx.function tx.origin) m t b
                (body-IsDisciplined c tx.function tx.origin) (sym f ∙ e))
        ]
    where
      owner :
          {u : ThreadId} {d : Bool}
          → ◌≡◌ {A = RuntimeDispatchResult} (failed (tainted_by u d)) (failed (tainted_by t b))
          → u ≡ t
      owner e = cc

  -- What becomes of a transaction at its first worker.
  abbrev pub FirstTime : Transaction → Execution → Type 0
  FirstTime tx e =
      ((r : RuntimeDispatchSuccess) × (e.outcome ≡ executed r) × (e.sent ≡ []))
      ⊎ (((w : ThreadId) × (e.outcome ≡ forwarded_to w)
            × (e.sent ≡ to_worker w (transaction tx) ∷ [])
            × (w ≢ id)
            × (contains w to_others ≡ true))
          ⊎ ((e.outcome ≡ forwarded_to_master) × (e.sent ≡ to_master (worker_orphan tx.id) ∷ [])))

  -- And at the second: it is not forwarded again.
  abbrev pub SecondTime : Transaction → Execution → Type 0
  SecondTime tx e =
      ((r : RuntimeDispatchSuccess) × (e.outcome ≡ executed r)
        × (e.sent ≡ to_master (worker_executed tx.id) ∷ []))
      ⊎ ((e.outcome ≡ forwarded_to_master) × (e.sent ≡ to_master (worker_orphan tx.id) ∷ []))

  abbrev pub Accounts : ExecutionStatus → Transaction → Execution → Type 0
  Accounts initial tx e = FirstTime tx e
  Accounts forwarded tx e = SecondTime tx e

  tainted-Accounts :
      (status : ExecutionStatus) (tx : Transaction) (t : ThreadId) (b : Bool) (m : RuntimeState)
      (e : Execution)
      → t ≢ id
      → route_tainted c id to_others status b tx t m ≡ some e
      → Accounts status tx e
  unfolding route_tainted
  tainted-Accounts forwarded tx t b m e n h =
      subst (SecondTime tx) (some-eq-some h) (inr (refl, refl))
  tainted-Accounts initial tx t true m e n h =
      subst (FirstTime tx) (some-eq-some h) (inr (inr (refl, refl)))
  tainted-Accounts initial tx t false m e n h = elim (Bool-cases (contains t to_others)) [
    | inl p ↦ subst (FirstTime tx) (some-eq-some (rw p at h)) (inr (inl (t, refl, refl, n, p)))
    | inr p ↦ cc (rw p at h)
  ]

  returned-Accounts :
      (status : ExecutionStatus) (tx : Transaction) (x : RuntimeDispatchSuccess) (m : RuntimeState)
      → Accounts status tx (record {
        outcome = executed x;
        sent = report_execution c id to_others status tx.id;
        state = m;
      })
  returned-Accounts initial tx x m = inl (x, refl, refl)
  returned-Accounts forwarded tx x m = inl (x, refl, refl)

  route-Accounts :
      (tx : Transaction) (r : RuntimeDispatchResult) (m : RuntimeState) (e : Execution)
      → ((t : ThreadId) (b : Bool) → r ≡ failed (tainted_by t b) → t ≢ id)
      → route c id to_others tx (r, m) ≡ some e
      → Accounts tx.exec_status tx e
  unfolding route
  route-Accounts tx (returned x) m e n h =
      subst (Accounts tx.exec_status tx) (some-eq-some h) (returned-Accounts tx.exec_status tx x m)
  route-Accounts tx panicked m e n h = cc
  route-Accounts tx (failed (tainted_by t b)) m e n h =
      tainted-Accounts tx.exec_status tx t b m e (n t b refl) h

  -- Short of a panic, a transaction at its first worker is executed with nothing sent, or passed to
  -- another worker of the given ones, or reported to the master as an orphan; at its second worker
  -- it is reported as executed or as an orphan. In each case this is all that is sent.
  pub execute_or_forward-Accounts :
      (tx : Transaction) (m : RuntimeState) (e : Execution)
      → execute_or_forward c id to_others tx m ≡ some e
      → Accounts tx.exec_status tx e
  unfolding execute_or_forward
  execute_or_forward-Accounts tx m e h =
      route-Accounts tx (execute_transaction c id to_others tx m).0
        (execute_transaction c id to_others tx m).1 e (refused_by_other tx m) h
