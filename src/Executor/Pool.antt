-- ===== src/Executor/Pool.antt =====
-- executor/src/pool.rs: `VecPool`, an ordered pool. A panic is `none`.
pub mod Laws
use sonic_chain.Base.{
  ℕ, zero, suc, ◌+◌, ◌<◌, ◌≡◌, ◌≢◌, refl, ap, ◌∙◌, Bool, true, false, ◌&&◌, Option, none, some,
  List, [], ◌∷◌, ◌++◌, arith, if◌then◌else◌, length, get_elem?, erase_idx, All, Bool-cases, inl,
  inr,
}

module _ {Tx : Type 0} where
  module _ (verify : Tx → Bool) where
    unfoldable pub push_back : List Tx → Tx → Option (List Tx)
    push_back pool tx = if verify tx then some (pool ++ (tx ∷ [])) else none

    abbrev push_rest : (List Tx → Option (List Tx)) → Option (List Tx) → Option (List Tx)
    push_rest next none = none
    push_rest next (some pool) = next pool

    unfoldable pub push_batch : List Tx → List Tx → Option (List Tx)
    unfolding push_back
    push_batch pool [] = some pool
    push_batch pool (tx ∷ txs) = push_rest (λ p. push_batch p txs) (push_back pool tx)

    -- `Vec::insert`
    insert_at : ℕ → Tx → List Tx → Option (List Tx)
    insert_at zero tx pool = some (tx ∷ pool)
    insert_at (suc i) tx [] = none
    insert_at (suc i) tx (x ∷ pool) = elim (insert_at i tx pool) [
      | none ↦ none
      | some p ↦ some (x ∷ p)
    ]

    unfoldable pub insert : List Tx → ℕ → Tx → Option (List Tx)
    unfolding insert_at
    insert pool index tx = if verify tx then insert_at index tx pool else none

  -- `iter().enumerate().find(search)`
  unfoldable pub find_from : ℕ → (Tx → Bool) → List Tx → Option (ℕ × Tx)
  find_from i search [] = none
  find_from i search (x ∷ pool) =
      let rest = find_from (i + 1) search pool in if search x then some (i, x) else rest

  unfoldable pub get : (Tx → Bool) → List Tx → Option (ℕ × Tx)
  unfolding find_from
  get search pool = find_from 0 search pool

  -- What a write through `get_mut` leaves: the first match is changed.
  unfoldable pub update_first : (Tx → Bool) → (Tx → Tx) → List Tx → List Tx
  update_first search f [] = []
  update_first search f (x ∷ pool) = if search x then f x ∷ pool else x ∷ update_first search f pool

  abbrev pub removed_at : ℕ → List Tx → Option Tx → Option (Tx × List Tx)
  removed_at at pool none = none
  removed_at at pool (some tx) = some (tx, erase_idx pool at)

  -- `Vec::remove`
  unfoldable pub remove_at : ℕ → List Tx → Option (Tx × List Tx)
  remove_at at pool = removed_at at pool (get_elem? pool at)

  abbrev pub remove_found : List Tx → Option (ℕ × Tx) → Option (Option (Tx × List Tx))
  remove_found pool none = some none
  remove_found pool (some (index, _)) = elim (remove_at index pool) [
    | none ↦ none
    | some r ↦ some (some r)
  ]

  -- The default method `remove`: the outer option is a panic, the inner one the result.
  unfoldable pub remove : (Tx → Bool) → List Tx → Option (Option (Tx × List Tx))
  unfolding get remove_at
  remove search pool = remove_found pool (get search pool)

  abbrev pub clear : List Tx → List Tx
  clear pool = []

  abbrev pub all : List Tx → List Tx
  all pool = pool
