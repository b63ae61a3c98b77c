-- ===== src/Executor/Worker/Counts.antt =====
-- executor/src/concurrent/worker.rs, `deplete_master_queue`: the counts of the authoring report.
use sonic_chain.Base.{
  ℕ, suc, ◌+◌, ◌≡◌, refl, ap, ◌++◌, Bool, true, false, Option, none, some, List, [], ◌∷◌, arith,
  length, length-append, count_if, count_if-append, inl, inr, ◌⊎◌, subst,
}
use sonic_chain.Primitives.{ThreadId}
use sonic_chain.Runtime.{RuntimeDispatchSuccess}
use sonic_chain.Runtime.Sequential.{RuntimeState}
use sonic_chain.Staking.{Codecs}
use sonic_chain.Executor.Types.{
  Transaction, ExecutionStatus, initial, forwarded, MessagePayload, transaction,
  transaction_distribution_done, worker_orphan, authoring_report,
}
use sonic_chain.Executor.Worker.{
  Execution, executed, forwarded_to, forwarded_to_master, Sent, to_master, to_worker,
  execute_or_forward, Tally, count_outcome, send_report, deplete_master_queue, count_or_crash,
  finished,
}
use sonic_chain.Executor.Worker.Laws.{Accounts, execute_or_forward-Accounts}

-- A transaction that leaves the worker: to another one, or to the master's orphan pool.
abbrev pub is_handover : Sent → Bool
is_handover (to_worker w (transaction tx)) = true
is_handover (to_master (worker_orphan tid)) = true
is_handover _ = false

abbrev pub handovers : List Sent → ℕ
handovers sent = count_if is_handover sent

-- The transactions that the master sends before it says that it is done.
abbrev pub received : List MessagePayload → ℕ
received (transaction tx ∷ queue) = suc (received queue)
received _ = 0

-- The counters are right for `n` transactions more.
abbrev pub Counted : ℕ → Tally → Tally → Type 0
Counted n t t' =
    (t'.executed_count + t'.forwarded_count ≡ t.executed_count + t.forwarded_count + n)
    × (length t'.outcomes + t.executed_count ≡ length t.outcomes + t'.executed_count)
    × (handovers t'.sent + t.forwarded_count ≡ handovers t.sent + t'.forwarded_count)

module _ (c : Codecs) (id : ThreadId) (to_others : List ThreadId) where
  -- An execution is a run with nothing handed over, or one handover and no run.
  abbrev HandsOver : Execution → Type 0
  HandsOver e =
      ((r : RuntimeDispatchSuccess) × (e.outcome ≡ executed r) × (handovers e.sent ≡ 0))
      ⊎ (((w : ThreadId) × (e.outcome ≡ forwarded_to w) × (handovers e.sent ≡ 1))
          ⊎ ((e.outcome ≡ forwarded_to_master) × (handovers e.sent ≡ 1)))

  Accounts-HandsOver :
      (status : ExecutionStatus) (tx : Transaction) (e : Execution)
      → Accounts c id to_others status tx e
      → HandsOver e
  Accounts-HandsOver initial tx e (inl (r, o, s)) = inl (r, o, rw s)
  Accounts-HandsOver initial tx e (inr (inl (w, o, s, n, p))) = inr (inl (w, o, rw s))
  Accounts-HandsOver initial tx e (inr (inr (o, s))) = inr (inr (o, rw s))
  Accounts-HandsOver forwarded tx e (inl (r, o, s)) = inl (r, o, rw s)
  Accounts-HandsOver forwarded tx e (inr (o, s)) = inr (inr (o, rw s))

  count_outcome-Counted :
      (t : Tally) (e : Execution) → HandsOver e → Counted 1 t (count_outcome c id to_others t e)
  unfolding count_outcome
  count_outcome-Counted t e (inl (r, o, h)) =
      rw (o, length-append, count_if-append) (omega arith, omega arith, omega (arith, h))
  count_outcome-Counted t e (inr (inl (w, o, h))) =
      rw (o, count_if-append) (omega arith, omega arith, omega (arith, h))
  count_outcome-Counted t e (inr (inr (o, h))) =
      rw (o, count_if-append) (omega arith, omega arith, omega (arith, h))

  send_report-Counted :
      (t t' : Tally) → finished (send_report c id to_others t) ≡ finished t' → Counted 0 t t'
  unfolding send_report
  send_report-Counted t t' h =
      subst (Counted 0 t) (report_of h) (omega arith, omega arith, rw count_if-append (omega arith))
    where
      report_of :
          finished (send_report c id to_others t) ≡ finished t' → send_report c id to_others t ≡ t'
      report_of h = cc

  Counted-trans : (n : ℕ) (t u v : Tally) → Counted 1 t u → Counted n u v → Counted (suc n) t v
  Counted-trans n t u v (a, b, d) (e, f, g) =
      (omega (arith, a, e), omega (arith, b, f), omega (arith, d, g))

  deplete_master_queue-Counted :
      (t t' : Tally) (queue : List MessagePayload)
      → deplete_master_queue c id to_others t queue ≡ finished t'
      → Counted (received queue) t t'
  unfolding deplete_master_queue
  deplete_master_queue-Counted t t' [] h = cc
  deplete_master_queue-Counted t t' (transaction_distribution_done ∷ queue) h =
      send_report-Counted t t' h
  deplete_master_queue-Counted t t' (transaction tx ∷ queue) h =
      on_execution (execute_or_forward c id to_others tx t.state) refl
        (λ u. deplete_master_queue-Counted u t' queue) h
    where
      on_execution :
          (found : Option Execution)
          → execute_or_forward c id to_others tx t.state ≡ found
          → ((u : Tally)
              → deplete_master_queue c id to_others u queue ≡ finished t'
              → Counted (received queue) u t')
          → count_or_crash c id to_others (λ u. deplete_master_queue c id to_others u queue) t found
            ≡ finished t'
          → Counted (suc (received queue)) t t'
      on_execution none f ih h = cc
      on_execution (some e) f ih h =
          let u : Tally = count_outcome c id to_others t e in
          Counted-trans (received queue) t u t'
            (count_outcome-Counted t e (
              Accounts-HandsOver tx.exec_status tx e
                (execute_or_forward-Accounts c id to_others tx t.state e f)))
            (ih u h)
  deplete_master_queue-Counted t t' (_ ∷ queue) h = cc

  -- The last that has been sent is the report of the counters.
  abbrev Reported : Tally → Type 0
  Reported t =
      (before : List Sent) × (t.sent
        ≡ before ++ (to_master (authoring_report t.executed_count t.forwarded_count) ∷ []))

  deplete_master_queue-Reported :
      (t t' : Tally) (queue : List MessagePayload)
      → deplete_master_queue c id to_others t queue ≡ finished t'
      → Reported t'
  unfolding deplete_master_queue send_report
  deplete_master_queue-Reported t t' [] h = cc
  deplete_master_queue-Reported t t' (transaction_distribution_done ∷ queue) h =
      subst Reported (tally_of h) (t.sent, refl)
    where
      tally_of : {u v : Tally} → finished u ≡ finished v → u ≡ v
      tally_of h = cc
  deplete_master_queue-Reported t t' (transaction tx ∷ queue) h =
      on_execution (execute_or_forward c id to_others tx t.state)
        (λ u. deplete_master_queue-Reported u t' queue) h
    where
      on_execution :
          (found : Option Execution)
          → ((u : Tally) → deplete_master_queue c id to_others u queue ≡ finished t' → Reported t')
          → count_or_crash c id to_others (λ u. deplete_master_queue c id to_others u queue) t found
            ≡ finished t'
          → Reported t'
      on_execution none ih h = cc
      on_execution (some e) ih h = ih (count_outcome c id to_others t e) h
  deplete_master_queue-Reported t t' (_ ∷ queue) h = cc

  -- The counters before the first transaction, as `run_author` starts with them.
  abbrev pub fresh_tally : RuntimeState → Tally
  fresh_tally m = record {
    executed_count = 0;
    forwarded_count = 0;
    outcomes = [];
    sent = [];
    state = m;
  }

  -- What the report of a tally says of `n` transactions.
  abbrev pub Reports : ℕ → Tally → Type 0
  Reports n t =
      (e : ℕ) × (f : ℕ) × (before : List Sent) × (t.sent
        ≡ before ++ (to_master (authoring_report e f) ∷ []))
      × (e ≡ length t.outcomes)
      × (f ≡ handovers before)
      × (e + f ≡ n)

  -- When `deplete_master_queue` ends, the last message that it has sent is a report to the master. The
  -- first count of the report is the number of the outcomes, the second is the number of transactions that
  -- have been handed to other workers or to the orphan pool in the messages before, and together they are
  -- the number of transactions that have been received.
  pub deplete_master_queue-Reports :
      (m : RuntimeState) (t : Tally) (queue : List MessagePayload)
      → deplete_master_queue c id to_others (fresh_tally m) queue ≡ finished t
      → Reports (received queue) t
  deplete_master_queue-Reports m t queue h =
      let (a, b, d) = deplete_master_queue-Counted (fresh_tally m) t queue h in
      let (before, sent) = deplete_master_queue-Reported (fresh_tally m) t queue h in
      (
        t.executed_count,
        t.forwarded_count,
        before,
        sent,
        omega (arith, b),
        omega (
          arith,
          d,
          ap handovers sent,
          count_if-append is_handover before
              (to_master (authoring_report t.executed_count t.forwarded_count) ∷ []),
        ),
        omega (arith, a),
      )
