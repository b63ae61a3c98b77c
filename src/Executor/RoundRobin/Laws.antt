-- ===== src/Executor/RoundRobin/Laws.antt =====
-- executor/src/concurrent/tx_distribution.rs, `RoundRobin`: who gets which transaction.
use sonic_chain.Base.{
  ℕ, zero, suc, ◌+◌, ◌%◌, ◌<◌, ◌≡◌, refl, ap, Option, none, some, List, [], ◌∷◌, arith, length,
  get_elem?, ◌∙◌,
}
use native.Mathlib.Nat.{mod-lt}
use sonic_chain.Primitives.{ThreadId}
use sonic_chain.Executor.Types.{Transaction, set_done}
use sonic_chain.Executor.RoundRobin.{distribute_from, distribute}

get_elem?-Within :
    (xs : List ThreadId) (i : ℕ) → i < length xs → (w : ThreadId) × (get_elem? xs i ≡ some w)
get_elem?-Within [] i h = absurd (omega arith)
get_elem?-Within (x ∷ xs) zero h = (x, refl)
get_elem?-Within (x ∷ xs) (suc i) h = get_elem?-Within xs i (omega arith)

-- The transaction at place `n`, tagged with the worker whose turn it is.
abbrev designate : Option ThreadId → Transaction → Option Transaction
designate none tx = none
designate (some w) tx = some (set_done w tx)

abbrev pub designated : List ThreadId → ℕ → Option Transaction → Option Transaction
designated workers n none = none
designated workers n (some tx) = designate (get_elem? workers (n % length workers)) tx

add_zero : (i : ℕ) → i + 0 ≡ i
add_zero i = omega arith

zero_add : (n : ℕ) → 0 + n ≡ n
zero_add n = omega arith

shift : (i n : ℕ) → i + 1 + n ≡ i + suc n
shift i n = omega arith

module _ (workers : List ThreadId) (some_worker : 0 < length workers) where
  distribute_from_lem :
      (i : ℕ) (pool : List Transaction)
      → (pool' : List Transaction) × (distribute_from i workers pool ≡ some pool')
        × (length pool' ≡ length pool)
        × ((n : ℕ) → get_elem? pool' n ≡ designated workers (i + n) (get_elem? pool n))
  unfolding distribute_from
  distribute_from_lem i [] = ([], refl, refl, λ n. refl)
  distribute_from_lem i (tx ∷ pool) =
      let (w, q) = get_elem?-Within workers (i % length workers) (mod-lt i some_worker) in
      let (pool', p, l, at) = distribute_from_lem (i + 1) pool in
      (set_done w tx ∷ pool', rw (q, p), ap suc l, places w pool' q at)
    where
      places :
          (w : ThreadId) (pool' : List Transaction)
          → get_elem? workers (i % length workers) ≡ some w
          → ((n : ℕ) → get_elem? pool' n ≡ designated workers (i + 1 + n) (get_elem? pool n))
          → (n : ℕ)
          → get_elem? (set_done w tx ∷ pool') n
            ≡ designated workers (i + n) (get_elem? (tx ∷ pool) n)
      places w pool' q at zero = rw (add_zero i, q)
      places w pool' q at (suc n) = rw (at n, shift i n)

  -- With at least one worker the distribution succeeds, keeps the number of the transactions, and
  -- tags the one at place `n` with the worker at place `n` modulo the number of workers, changing
  -- nothing else.
  pub distribute_lem :
      (pool : List Transaction)
      → (pool' : List Transaction) × (distribute workers pool ≡ some pool')
        × (length pool' ≡ length pool)
        × ((n : ℕ) → get_elem? pool' n ≡ designated workers n (get_elem? pool n))
  unfolding distribute
  distribute_lem pool =
      let (pool', p, l, at) = distribute_from_lem 0 pool in
      (pool', p, l, λ n. at n ∙ ap (λ i. designated workers i (get_elem? pool n)) (zero_add n))
