-- ===== src/Executor/Pool/Laws.antt =====
-- executor/src/pool.rs: adding a batch, and taking out the first transaction that matches.
use sonic_chain.Base.{
  ℕ, suc, ◌+◌, ◌≡◌, refl, ◌∙◌, Bool, true, false, ◌&&◌, Option, none, some, List, [], ◌∷◌, ◌++◌,
  arith, if◌then◌else◌, get_elem?, All, Bool-cases, Option-cases, inl, inr, ◌⊎◌,
}
use mathlib.Core.List.{append-nil, append_assoc}
use sonic_chain.Executor.Pool.{
  push_batch, find_from, get, remove_at, remove, removed_at, remove_found,
}

module _ {Tx : Type 0} where
  -- Every transaction passes the test.
  abbrev pub all_verified : (Tx → Bool) → List Tx → Bool
  all_verified verify [] = true
  all_verified verify (tx ∷ txs) = verify tx && all_verified verify txs

  -- A batch is added behind the pool, in its order, if every transaction of it is valid; else there
  -- is a panic.
  pub push_batch_lem :
      (verify : Tx → Bool) (txs pool : List Tx)
      → push_batch verify pool txs ≡ (if all_verified verify txs then some (pool ++ txs) else none)
  unfolding push_batch
  push_batch_lem verify [] pool = rw append-nil
  push_batch_lem verify (tx ∷ txs) pool = elim (Bool-cases (verify tx)) [
    | inl e ↦ rw e (push_batch_lem verify txs (pool ++ (tx ∷ [])) ∙ rw append_assoc)
    | inr e ↦ rw e
  ]

  abbrev keep_head : Tx → Option (Tx × List Tx) → Option (Tx × List Tx)
  keep_head x none = none
  keep_head x (some (t, rest)) = some (t, x ∷ rest)

  -- Taking the first match out, by recursion on the pool.
  unfoldable pub take_first : (Tx → Bool) → List Tx → Option (Tx × List Tx)
  take_first search [] = none
  take_first search (x ∷ pool) =
      if search x then some (x, pool) else keep_head x (take_first search pool)

  take_first-none :
      (search : Tx → Bool) (pool : List Tx)
      → take_first search pool ≡ none
      → All (λ x. search x ≡ false) pool
  unfolding take_first
  take_first-none search [] h = tt
  take_first-none search (x ∷ pool) h = elim (Bool-cases (search x)) [
    | inl e ↦ cc (rw e at h)
    | inr e ↦ (e, take_first-none search pool (drop_head (take_first search pool) (rw e at h)))
  ]
    where
      drop_head : (found : Option (Tx × List Tx)) → keep_head x found ≡ none → found ≡ none
      drop_head none h = refl
      drop_head (some (t, r)) h = cc

  abbrev shift : ℕ → Option (ℕ × Tx) → Option (ℕ × Tx)
  shift i none = none
  shift i (some (j, x)) = some (i + j, x)

  find_from-shift :
      (i : ℕ) (search : Tx → Bool) (pool : List Tx)
      → find_from i search pool ≡ shift i (find_from 0 search pool)
  unfolding find_from
  find_from-shift i search [] = refl
  find_from-shift i search (x ∷ pool) =
      ground (arith, find_from-shift (i + 1) search pool, find_from-shift (0 + 1) search pool)

  TakeAt : List Tx → Option (ℕ × Tx) → Option (Tx × List Tx) → Type 0
  TakeAt pool found taken = remove_found pool found ≡ some taken

  TakeAt-shift :
      (x : Tx) (pool : List Tx) (found : Option (ℕ × Tx)) (taken : Option (Tx × List Tx))
      → TakeAt pool found taken
      → TakeAt (x ∷ pool) (shift 1 found) (keep_head x taken)
  unfolding TakeAt remove_at
  TakeAt-shift x pool none taken h = ground arith
  TakeAt-shift x pool (some (j, y)) taken h = rw (one_more j) (at_index (get_elem? pool j) taken h)
    where
      one_more : (j : ℕ) → 1 + j ≡ suc j
      one_more j = omega arith

      at_index :
          (o : Option Tx) (taken : Option (Tx × List Tx))
          → elim (removed_at j pool o) [ none ↦ none | some r ↦ some (some r) ] ≡ some taken
          → elim (removed_at (suc j) (x ∷ pool) o) [ none ↦ none | some r ↦ some (some r) ]
            ≡ some (keep_head x taken)
      at_index none taken h = cc
      at_index (some t) none h = cc
      at_index (some t) (some (u, rest)) h = cc

  TakeAt-find :
      (search : Tx → Bool) (pool : List Tx)
      → TakeAt pool (find_from 0 search pool) (take_first search pool)
  unfolding find_from take_first
  TakeAt-find search [] = unfold TakeAt in refl
  TakeAt-find search (x ∷ pool) = elim (Bool-cases (search x)) [
    | inl e ↦ rw e (unfold TakeAt remove_at in refl)
    | inr e ↦
        rw (e, find_from-shift (0 + 1) search pool)
          (TakeAt-shift x pool _ _ (TakeAt-find search pool))
  ]

  -- The two searches of `remove` agree with one recursion, and it never panics.
  pub remove_lem :
      (search : Tx → Bool) (pool : List Tx) → remove search pool ≡ some (take_first search pool)
  unfolding remove get TakeAt
  remove_lem search pool = TakeAt-find search pool

  -- `t` is the first match in `pool`, and `rest` is what is left without it.
  abbrev pub IsFirst : (Tx → Bool) → List Tx → Tx → List Tx → Type 0
  IsFirst search pool t rest =
      (before : List Tx) × (after : List Tx) × (pool ≡ before ++ (t ∷ after))
      × (rest ≡ before ++ after)
      × (search t ≡ true)
      × All (λ x. search x ≡ false) before

  IsFirst-in_tail :
      (search : Tx → Bool) (x : Tx) (pool : List Tx) (t : Tx) (rest : List Tx)
      → search x ≡ false
      → ((u : Tx) (r : List Tx) → take_first search pool ≡ some (u, r) → IsFirst search pool u r)
      → (found : Option (Tx × List Tx)) → take_first search pool ≡ found
      → keep_head x found ≡ some (t, rest)
      → IsFirst search (x ∷ pool) t rest
  IsFirst-in_tail search x pool t rest e ih none f h = cc
  IsFirst-in_tail search x pool t rest e ih (some (u, r)) f h =
      let (before, after, p, q, s, a) = ih u r f in (x ∷ before, after, cc, cc, cc, (e, a))

  -- What is taken out is the first match, and the others stay in order.
  pub take_first-IsFirst :
      (search : Tx → Bool) (pool : List Tx) (t : Tx) (rest : List Tx)
      → take_first search pool ≡ some (t, rest)
      → IsFirst search pool t rest
  unfolding take_first
  take_first-IsFirst search [] t rest h = cc
  take_first-IsFirst search (x ∷ pool) t rest h = elim (Bool-cases (search x)) [
    | inl e ↦ ([], rest, head_splits (rw e at h), refl, head_matches e (rw e at h), tt)
    | inr e ↦
        IsFirst-in_tail search x pool t rest e (take_first-IsFirst search pool)
          (take_first search pool) refl (rw e at h)
  ]
    where
      head_splits :
          ◌≡◌ {A = Option (Tx × List Tx)} (some (x, pool)) (some (t, rest)) → x ∷ pool ≡ t ∷ rest
      head_splits h = cc

      head_matches :
          search x ≡ true
          → ◌≡◌ {A = Option (Tx × List Tx)} (some (x, pool)) (some (t, rest))
          → search t ≡ true
      head_matches e h = cc

  -- The default `remove` panics nowhere: it gives the first match and the pool without it, in
  -- order, or nothing where nothing matches.
  pub remove-IsFirst :
      (search : Tx → Bool) (pool : List Tx)
      → ((remove search pool ≡ some none) × All (λ x. search x ≡ false) pool)
        ⊎ ((t : Tx) × (rest : List Tx) × (remove search pool ≡ some (some (t, rest)))
            × IsFirst search pool t rest)
  remove-IsFirst search pool = elim (Option-cases (take_first search pool)) [
    | inl e ↦ inl (rw (remove_lem, e), take_first-none search pool e)
    | inr ((t, rest), e) ↦
        inr (t, rest, rw (remove_lem, e), take_first-IsFirst search pool t rest e)
  ]
