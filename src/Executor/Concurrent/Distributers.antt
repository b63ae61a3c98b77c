-- ===== src/Executor/Concurrent/Distributers.antt =====
-- executor/src/concurrent/tx_distribution.rs: the connected-components distribution as the distributer of
-- executor/src/concurrent/mod.rs.
use sonic_chain.Base.{
  ℕ, ◌≡◌, refl, ap, sym, ◌∙◌, Bool, Option, none, some, List, [], ◌∷◌, inl, inr, Bool-cases,
  get_elem?, some-eq-some, ◌==ℕ◌,
}
use sonic_chain.Primitives.{ThreadId}
use sonic_chain.Staking.{Codecs}
use sonic_chain.Executor.Types.{Transaction, TransactionId, set_done}
use sonic_chain.Executor.Pool
use sonic_chain.Executor.Master.Laws.{ids}
use sonic_chain.Executor.Components.{Rc, Heap, Loop, ended, out_of_fuel, crashed}
use sonic_chain.Executor.Components.Graph.{empty, build, components_from}
use sonic_chain.Executor.Components.Assign.{
  Workers, idle_workers, assign_components, tx_id, tag_first, tag_transaction, and_then, tag_nodes,
  tag_all, to_loop, tag_assigned, assign_and_tag, distribute,
}
use sonic_chain.Executor.Components.Distribution.{keys_of_call}
use sonic_chain.Executor.Concurrent.{Distributer}
use sonic_chain.Executor.Concurrent.Laws.{KeepsIds}

abbrev Same : List Transaction → Option (List Transaction) → Type 0
Same pool found = (next : List Transaction) → found ≡ some next → ids next ≡ ids pool

ids-update_first :
    (p : Transaction → Bool) (w : ThreadId) (pool : List Transaction)
    → ids (Pool.update_first p (set_done w) pool) ≡ ids pool
unfolding Pool.update_first
ids-update_first p w [] = refl
ids-update_first p w (t ∷ pool) = elim (Bool-cases (p t)) [
  | inl e ↦ rw e
  | inr e ↦ rw e (ap (λ xs. t.id ∷ xs) (ids-update_first p w pool))
]

tag_transaction-Same :
    (w : ThreadId) (pool : List Transaction) (tid : Option TransactionId)
    → Same pool (tag_transaction w pool tid)
tag_transaction-Same w pool none next e = cc
tag_transaction-Same w pool (some tid) next e = go (Pool.get (λ t. t.id ==ℕ tid) pool) e
  where
    go :
        (found : Option (ℕ × Transaction))
        → tag_first w pool tid found ≡ some next
        → ids next ≡ ids pool
    go none e = cc
    go (some x) e = ap ids (sym (some-eq-some e)) ∙ ids-update_first (λ t. t.id ==ℕ tid) w pool

and_then-Same :
    (pool : List Transaction) (found : Option (List Transaction))
    (f : List Transaction → Option (List Transaction))
    → Same pool found
    → ((xs : List Transaction) → Same xs (f xs))
    → Same pool (and_then f found)
and_then-Same pool none f a b next e = cc
and_then-Same pool (some xs) f a b next e = b xs next e ∙ a xs refl

tag_nodes-Same :
    (heap : Heap) (w : ThreadId) (rcs : List Rc) (pool : List Transaction)
    → Same pool (tag_nodes heap w rcs pool)
unfolding tag_nodes
tag_nodes-Same heap w [] pool = λ next e. ap ids (sym (some-eq-some e))
tag_nodes-Same heap w (rc ∷ rcs) pool =
    and_then-Same pool (tag_transaction w pool (tx_id (get_elem? heap rc))) (tag_nodes heap w rcs)
      (tag_transaction-Same w pool (tx_id (get_elem? heap rc))) (λ xs. tag_nodes-Same heap w rcs xs)

tag_all-Same :
    (heap : Heap) (workers : Workers) (pool : List Transaction)
    → Same pool (tag_all heap workers pool)
unfolding tag_all
tag_all-Same heap [] pool = λ next e. ap ids (sym (some-eq-some e))
tag_all-Same heap ((w, rcs) ∷ workers) pool =
    and_then-Same pool (tag_nodes heap w rcs pool) (tag_all heap workers)
      (tag_nodes-Same heap w rcs pool) (λ xs. tag_all-Same heap workers xs)

abbrev result : Loop (List Transaction) → Option (List Transaction)
result (ended pool) = some pool
result out_of_fuel = none
result crashed = none

-- With fuel for each of the traversals; where it is not enough there is no pool.
abbrev pub connected_components : Codecs → ℕ → Distributer
connected_components c fuel workers pool = result (distribute c fuel workers pool)

-- `ConnectedComponents` keeps the transactions at their places.
pub connected_components-KeepsIds : (c : Codecs) (fuel : ℕ) → KeepsIds (connected_components c fuel)
unfolding distribute
connected_components-KeepsIds c fuel workers pool pool' e =
    by_components
      (components_from fuel 0 (build (keys_of_call c) pool empty).0
        (build (keys_of_call c) pool empty).1.heap)
      e
  where
    by_tags :
        (found : Option (List Transaction))
        → Same pool found
        → result (to_loop found) ≡ some pool'
        → ids pool' ≡ ids pool
    by_tags none same e = cc
    by_tags (some xs) same e = same pool' (ap some (some-eq-some e))

    by_workers :
        (heap : Heap) (found : Loop Workers)
        → result (tag_assigned heap pool found) ≡ some pool'
        → ids pool' ≡ ids pool
    by_workers heap out_of_fuel e = cc
    by_workers heap crashed e = cc
    by_workers heap (ended assigned) e =
        by_tags (tag_all heap assigned pool) (tag_all-Same heap assigned pool) e

    by_components :
        (found : Loop (Heap × List (List Rc)))
        → result (assign_and_tag workers pool found) ≡ some pool'
        → ids pool' ≡ ids pool
    by_components out_of_fuel e = cc
    by_components crashed e = cc
    by_components (ended (heap, components)) e =
        by_workers heap (assign_components components (idle_workers workers [])) e
