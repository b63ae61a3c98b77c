-- ===== src/Executor/Sequential/Laws.antt =====
-- executor/src/sequential/mod.rs and executor/src/lib.rs: validating what was authored.
use sonic_chain.Base.{
  ◌≡◌, refl, ap, true, Option, none, some, List, [], ◌∷◌, subst, inl, inr, ◌⊎◌, returned, failed,
  panicked, nat_eq, bytes_eq, ok,
}
use sonic_chain.Base.HashMap.{IsMap, insert-IsMap}
use sonic_chain.Primitives.{ThreadId}
use sonic_chain.State.{unsafe_duplicate, unsafe_insert_genesis_value}
use sonic_chain.State.Compare.{unsafe_duplicate-IsMap, state_eq_refl}
use sonic_chain.Runtime.{
  Prog, done, fail, abort, read, write, run, RuntimeDispatchSuccess, RuntimeDispatchResult,
}
use sonic_chain.Runtime.Sequential
use sonic_chain.Runtime.Sequential.{RuntimeState, sequential_runtime}
use sonic_chain.Staking.{Codecs}
use sonic_chain.Call.{body}
use sonic_chain.Executor.Types.{Transaction}
use sonic_chain.Executor.Sequential.{
  apply_transactions, next_transaction, author_and_validate, prepend, authored, then_validate,
  validate_block,
}

run-IsMap :
    {A : Type 0} (id : ThreadId) (p : Prog A) (m : RuntimeState)
    → IsMap m
    → IsMap (run (sequential_runtime id) p m).1
unfolding run Sequential.read Sequential.write
run-IsMap id (done a) m h = h
run-IsMap id (fail e) m h = h
run-IsMap id abort m h = h
run-IsMap id (read k next) m h = run-IsMap id (next (ok _)) m h
run-IsMap id (write k v next) m h =
    unfold unsafe_insert_genesis_value in run-IsMap id (next (ok tt)) _ (insert-IsMap k _ m h)

module _ (c : Codecs) (id : ThreadId) where
  prepended-IsMap :
      (outcome : RuntimeDispatchSuccess)
      (found : Option (List RuntimeDispatchSuccess × RuntimeState)) (m' : RuntimeState)
      (outcomes : List RuntimeDispatchSuccess)
      → ((o : List RuntimeDispatchSuccess) (n : RuntimeState) → found ≡ some (o, n) → IsMap n)
      → prepend outcome found ≡ some (outcomes, m')
      → IsMap m'
  prepended-IsMap outcome none m' outcomes ih h = cc
  prepended-IsMap outcome (some (o, n)) m' outcomes ih h = subst IsMap (same_state h) (ih o n refl)
    where
      same_state :
          ◌≡◌ {A = Option (List RuntimeDispatchSuccess × RuntimeState)}
            (some (outcome ∷ o, n))
            (some (outcomes, m'))
          → n ≡ m'
      same_state h = cc

  next-IsMap :
      (next : RuntimeState → Option (List RuntimeDispatchSuccess × RuntimeState))
      (r : RuntimeDispatchResult) (m m' : RuntimeState) (outcomes : List RuntimeDispatchSuccess)
      → ((o : List RuntimeDispatchSuccess) (n : RuntimeState) → next m ≡ some (o, n) → IsMap n)
      → next_transaction c id next (r, m) ≡ some (outcomes, m')
      → IsMap m'
  next-IsMap next (failed e) m m' outcomes ih h = cc
  next-IsMap next panicked m m' outcomes ih h = cc
  next-IsMap next (returned x) m m' outcomes ih h = prepended-IsMap x (next m) m' outcomes ih h

  -- Transactions keep the state a map.
  pub apply_transactions-IsMap :
      (txs : List Transaction) (m m' : RuntimeState) (outcomes : List RuntimeDispatchSuccess)
      → IsMap m
      → apply_transactions c id txs m ≡ some (outcomes, m')
      → IsMap m'
  unfolding apply_transactions Sequential.dispatch
  apply_transactions-IsMap [] m m' outcomes h e = subst IsMap (same_state e) h
    where
      same_state :
          ◌≡◌ {A = Option (List RuntimeDispatchSuccess × RuntimeState)}
            (some ([], m))
            (some (outcomes, m'))
          → m ≡ m'
      same_state h = cc
  apply_transactions-IsMap (tx ∷ txs) m m' outcomes h e =
      next-IsMap (apply_transactions c id txs) _
        (run (sequential_runtime id) (body c tx.function tx.origin) m).1 m' outcomes
        (λ o n.
          apply_transactions-IsMap txs _ n o (run-IsMap id (body c tx.function tx.origin) m h))
        e

  -- From an initial state and an empty executor, the sequential executor reports that validation
  -- agrees with authoring, or applying the transactions panics, and so does the executor.
  pub author_and_validate_lem :
      (txs : List Transaction) (initial : RuntimeState)
      → ((apply_transactions c id txs (unsafe_duplicate initial []) ≡ none)
          × (author_and_validate c id txs (some initial) [] ≡ none))
        ⊎ (author_and_validate c id txs (some initial) [] ≡ some true)
  unfolding author_and_validate
  author_and_validate_lem txs initial =
      on_run (apply_transactions c id txs (unsafe_duplicate initial []))
        (λ outcomes m.
          apply_transactions-IsMap txs _ m outcomes (unsafe_duplicate-IsMap initial [] tt))
        refl
    where
      on_run :
          (found : Option (List RuntimeDispatchSuccess × RuntimeState))
          → ((outcomes : List RuntimeDispatchSuccess) (m : RuntimeState)
              → apply_transactions c id txs (unsafe_duplicate initial []) ≡ some (outcomes, m)
              → IsMap m)
          → apply_transactions c id txs (unsafe_duplicate initial []) ≡ found
          → ((found ≡ none) × (then_validate c id (some initial) (authored txs found) ≡ none))
            ⊎ (then_validate c id (some initial) (authored txs found) ≡ some true)
      on_run none good e = inl (refl, refl)
      on_run (some (outcomes, m)) good e =
          inr (unfold validate_block in rw e (ap some (state_eq_refl m (good outcomes m e))))
