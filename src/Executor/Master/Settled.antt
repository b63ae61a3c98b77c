-- ===== src/Executor/Master/Settled.antt =====
-- executor/src/concurrent/master.rs, `collection_phase`: the messages after which it ends.
use sonic_chain.Base.{
  ℕ, ◌+◌, ◌≡◌, refl, ap, Bool, true, Option, none, some, List, [], ◌∷◌, ◌++◌, arith, length,
  Bool-cases, inl, inr, subst,
}
use mathlib.Core.List.{Perm}
use mathlib.Core.List.Perm
use sonic_chain.Executor.Types.{Transaction, Message}
use sonic_chain.Executor.Master.{
  Collection, collect_payload, collection_phase, collection_done, collect_next,
}
use sonic_chain.Executor.Master.Laws.{held, collect_payload-Perm}
use sonic_chain.Executor.Worker.{finished}
use sonic_chain.Executor.Master.Counts.{
  reports, forwards, settled, orphaned, Gains, Gains-cons, collect_payload-Gains,
}

module _ (verify : Transaction → Bool) where
  -- The phase from `s` to `s'` has taken the messages `consumed`, and its test for the end has passed.
  abbrev Run : ℕ → Collection → List Message → Collection → Type 0
  Run workers_len s msgs s' =
      (consumed : List Message) × (rest : List Message) × (msgs ≡ consumed ++ rest)
      × Perm (held s') (held s)
      × Gains consumed s s'
      × (s'.reported ≡ workers_len)
      × (s'.forwarded ≡ s'.executed_local + length s'.orphan_pool)

  counts_agree :
      (workers_len : ℕ) (s : Collection)
      → collection_done verify workers_len s ≡ true
      → (s.reported ≡ workers_len) × (s.forwarded ≡ s.executed_local + length s.orphan_pool)
  unfolding collection_done
  counts_agree workers_len s e = (ground arith, ground arith)

  finished_here :
      (workers_len : ℕ) (s s' : Collection) (msgs : List Message)
      → collection_done verify workers_len s ≡ true
      → finished s ≡ finished s'
      → Run workers_len s msgs s'
  finished_here workers_len s s' msgs e h = subst (Run workers_len s msgs) (collection_of h) (
      let (a, b) = counts_agree workers_len s e in
      (
        [],
        msgs,
        refl,
        Perm.refl (held s),
        (omega arith, omega arith, omega arith, omega arith),
        a,
        b,
      ))
    where
      collection_of : finished s ≡ finished s' → s ≡ s'
      collection_of h = cc

  collection_phase-Run :
      (workers_len : ℕ) (s s' : Collection) (msgs : List Message)
      → collection_phase verify workers_len s msgs ≡ finished s'
      → Run workers_len s msgs s'
  unfolding collection_phase
  collection_phase-Run workers_len s s' [] h =
      elim (Bool-cases (collection_done verify workers_len s)) [
        | inl e ↦ finished_here workers_len s s' [] e (rw e at h)
        | inr e ↦ cc (rw e at h)
      ]
  collection_phase-Run workers_len s s' (msg ∷ msgs) h =
      elim (Bool-cases (collection_done verify workers_len s)) [
        | inl e ↦ finished_here workers_len s s' (msg ∷ msgs) e (rw e at h)
        | inr e ↦
            on_next (collect_payload verify s msg.from msg.payload) refl
              (λ next. collection_phase-Run workers_len next s' msgs) (rw e at h)
      ]
    where
      on_next :
          (found : Option Collection)
          → collect_payload verify s msg.from msg.payload ≡ found
          → ((next : Collection)
              → collection_phase verify workers_len next msgs ≡ finished s'
              → Run workers_len next msgs s')
          → collect_next verify (λ next. collection_phase verify workers_len next msgs) found
            ≡ finished s'
          → Run workers_len s (msg ∷ msgs) s'
      on_next none f ih h = cc
      on_next (some next) f ih h =
          let (consumed, rest, q, p, g, a, b) = ih next h in
          (
            msg ∷ consumed,
            rest,
            ap (λ xs. msg ∷ xs) q,
            Perm.trans p (collect_payload-Perm verify s next msg.from msg.payload f),
            Gains-cons verify s next s' msg.from msg.payload consumed
                (collect_payload-Gains verify s next msg.from msg.payload f) g,
            a,
            b,
          )

  -- What has come when the phase ends.
  abbrev pub Settles : ℕ → Collection → List Message → Collection → Type 0
  Settles workers_len s msgs s' =
      (consumed : List Message) × (rest : List Message) × (msgs ≡ consumed ++ rest)
      × Perm (held s') (held s)
      × (s.reported + reports consumed ≡ workers_len)
      × (s.forwarded + forwards consumed
          ≡ s.executed_local + length s.orphan_pool + settled consumed)
      × (length s'.orphan_pool ≡ length s.orphan_pool + orphaned consumed)

  -- If the collection phase ends, it ends after some first part of the messages, with every transaction
  -- that it began with in one of its two pools, each as often as before, and with one orphan more for each
  -- message of that part that names an orphan. With what was counted before, the part has as many reports
  -- as there are workers, and the forwarded transactions of its reports are as many as the orphans that the
  -- phase began with and the messages of the part that name a transaction executed elsewhere or an orphan.
  pub collection_phase-Settles :
      (workers_len : ℕ) (s s' : Collection) (msgs : List Message)
      → collection_phase verify workers_len s msgs ≡ finished s'
      → Settles workers_len s msgs s'
  collection_phase-Settles workers_len s s' msgs h =
      let (consumed, rest, q, p, (a, b, d, g), i, j) =
        collection_phase-Run workers_len s s' msgs h in
      (consumed, rest, q, p, omega (arith, a, i), omega (arith, b, d, j), g)
