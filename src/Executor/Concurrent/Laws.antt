-- ===== src/Executor/Concurrent/Laws.antt =====
-- executor/src/concurrent/mod.rs, `ConcurrentExecutor::author_block`: what is in the block.
use sonic_chain.Base.{
  ℕ, ◌≡◌, refl, ap, sym, ◌∙◌, Bool, true, false, Option, none, some, List, [], ◌∷◌, ◌++◌, subst,
  length, get_elem?, ◌+◌, ◌%◌, some-eq-some, bytes_eq, nat_eq, if◌then◌else◌,
}
use mathlib.Core.List.{Perm, map-append}
use sonic_chain.Primitives.{ThreadId}
use sonic_chain.Runtime.{RuntimeDispatchSuccess}
use sonic_chain.Runtime.Sequential.{RuntimeState}
use sonic_chain.Staking.{Codecs}
use sonic_chain.Executor.Types.{Transaction, Message, task, authoring}
use sonic_chain.Executor.RoundRobin.{assign, distribute_from, distribute}
use sonic_chain.Executor.Pool.{push_batch}
use sonic_chain.Executor.Pool.Laws.{push_batch_lem, all_verified}
use sonic_chain.Executor.Worker.{Progress, finished, blocked, crashed}
use sonic_chain.Executor.Master.{
  Collection, collection_phase, broadcast, send_pool, send_all, finish_phase, execute_orphan_pool,
}
use sonic_chain.Executor.Master.Laws.{ids, held}
use sonic_chain.Executor.Master.Settled.{collection_phase-Settles}
use sonic_chain.Executor.Concurrent.{
  ConcurrentExecutor, Distributer, Workers, Sent, Authored, author_block, run_author, with_batch,
  after_distribution, after_collection, finish_author, collecting,
}

-- Distribution changes no id and no place.
abbrev pub KeepsIds : Distributer → Type 0
KeepsIds distribute =
    (workers : List ThreadId) (pool pool' : List Transaction)
    → distribute workers pool ≡ some pool'
    → ids pool' ≡ ids pool

abbrev pub Contents : ConcurrentExecutor → List Transaction → Authored → Type 0
Contents e pool r = Perm (ids r.block.transactions) (ids pool ++ ids e.orphan_pool)

finished-eq-finished : {A : Type 0} {a b : A} → finished a ≡ finished b → a ≡ b
finished-eq-finished e = cc

module _ (c : Codecs) (id : ThreadId) (workers : List ThreadId) (verify : Transaction → Bool)
    (distribute : Distributer) (keeps : KeepsIds distribute) (work : Workers Message) where
  finish_Contents :
      (e : ConcurrentExecutor) (pool : List Transaction) (s : Collection) (sent : Sent)
      (found : Option (List RuntimeDispatchSuccess × RuntimeState)) (r : Authored)
      → Perm (held s) (ids pool ++ ids e.orphan_pool)
      → finish_author c id workers s sent found ≡ finished r
      → Contents e pool r
  finish_Contents e pool s sent none r p h = cc
  finish_Contents e pool s sent (some (outcomes, m)) r p h =
      subst (Contents e pool) (finished-eq-finished h) (
        subst (λ xs. Perm xs (ids pool ++ ids e.orphan_pool))
          (sym (map-append (λ t. t.id) s.tx_pool s.orphan_pool)) p)

  collected_Contents :
      (e : ConcurrentExecutor) (pool pool' : List Transaction) (sent : Sent) (m : RuntimeState)
      (msgs : List Message) (found : Progress Collection) (r : Authored)
      → ids pool' ≡ ids pool
      → collection_phase verify (length workers) (collecting c id workers pool' e.orphan_pool) msgs
        ≡ found
      → after_collection c id workers sent m found ≡ finished r
      → Contents e pool r
  collected_Contents e pool pool' sent m msgs blocked r q f h = cc
  collected_Contents e pool pool' sent m msgs crashed r q f h = cc
  collected_Contents e pool pool' sent m msgs (finished s) r q f h =
      let (consumed, rest, came, p, i, j, o) =
        collection_phase-Settles verify (length workers)
          (collecting c id workers pool' e.orphan_pool) s msgs f in
      finish_Contents e pool s sent (execute_orphan_pool c id s.orphan_pool m) r
        (subst (λ xs. Perm (held s) (xs ++ ids e.orphan_pool)) q p) h

  sent_from :
      (pool pool' : List Transaction) (sent : Sent) (found : Option (List Transaction))
      → ((p : List Transaction) → found ≡ some p → ids p ≡ ids pool)
      → send_pool workers found ≡ some (pool', sent)
      → ids pool' ≡ ids pool
  sent_from pool pool' sent none keep h = cc
  sent_from pool pool' sent (some p) keep h = by_sent (send_all workers p) h
    where
      by_sent :
          (found : Option Sent)
          → finish_phase workers p found ≡ some (pool', sent)
          → ids pool' ≡ ids pool
      by_sent none h = cc
      by_sent (some xs) h = ap ids (sym (ap (λ r. r.0) (some-eq-some h))) ∙ keep p refl

  distributed_Contents :
      (e : ConcurrentExecutor) (pool : List Transaction) (found : Option (List Transaction × Sent))
      (r : Authored)
      → ((pool' : List Transaction) (sent : Sent)
          → found ≡ some (pool', sent)
          → ids pool' ≡ ids pool)
      → after_distribution c id workers verify distribute work e found ≡ finished r
      → Contents e pool r
  distributed_Contents e pool none r keep h = cc
  distributed_Contents e pool (some (pool', sent)) r keep h =
      let (msgs, m) = work (broadcast workers (task authoring) ++ sent) e.state in
      collected_Contents e pool pool' (broadcast workers (task authoring) ++ sent) m msgs
        (collection_phase verify (length workers) (collecting c id workers pool' e.orphan_pool)
          msgs)
        r (keep pool' sent refl) refl h

  run_author-Contents :
      (e : ConcurrentExecutor) (r : Authored)
      → run_author c id workers verify distribute work e ≡ finished r
      → Contents e e.tx_pool r
  unfolding run_author
  run_author-Contents e r h =
      distributed_Contents e e.tx_pool (send_pool workers (distribute workers e.tx_pool)) r
        (λ pool' sent f.
          sent_from e.tx_pool pool' sent (distribute workers e.tx_pool)
            (λ p g. keeps workers e.tx_pool p g) f)
        h

  -- Let the distribution keep the transactions at their places, and let the workers do anything: send any
  -- messages to the master, in any order, and leave any state. If authoring ends, the block has the
  -- transactions that were in the pool, the ones that are new, and the orphans that the master had before,
  -- each as often as they were there, and no other.
  pub author_block-Perm :
      (txs : List Transaction) (e : ConcurrentExecutor) (r : Authored)
      → author_block c id workers verify distribute work txs e ≡ finished r
      → Perm (ids r.block.transactions) ((ids e.tx_pool ++ ids txs) ++ ids e.orphan_pool)
  unfolding author_block
  author_block-Perm txs e r h =
      by_batch (push_batch verify e.tx_pool txs) (push_batch_lem verify txs e.tx_pool) h
    where
      by_batch :
          (found : Option (List Transaction))
          → found ≡ (if all_verified verify txs then some (e.tx_pool ++ txs) else none)
          → with_batch c id workers verify distribute work e found ≡ finished r
          → Perm (ids r.block.transactions) ((ids e.tx_pool ++ ids txs) ++ ids e.orphan_pool)
      by_batch none q h = cc
      by_batch (some pool) q h =
          subst (λ xs. Perm (ids r.block.transactions) (xs ++ ids e.orphan_pool))
            (ap ids (all_there (all_verified verify txs) q) ∙ map-append (λ t. t.id) e.tx_pool txs)
            (run_author-Contents (record e { tx_pool = pool }) r h)
        where
          all_there :
              (b : Bool)
              → some pool ≡ (if b then some (e.tx_pool ++ txs) else none)
              → pool ≡ e.tx_pool ++ txs
          all_there true q = some-eq-some q
          all_there false q = cc

distribute_from-KeepsIds :
    (i : ℕ) (workers : List ThreadId) (pool pool' : List Transaction)
    → distribute_from i workers pool ≡ some pool'
    → ids pool' ≡ ids pool
unfolding distribute_from
distribute_from-KeepsIds i workers [] pool' e = ap ids (sym (some-eq-some e))
distribute_from-KeepsIds i workers (t ∷ pool) pool' e =
    by_rest (get_elem? workers (i % length workers)) (distribute_from (i + 1) workers pool)
      (λ rest. distribute_from-KeepsIds (i + 1) workers pool rest) e
  where
    by_rest :
        (w : Option ThreadId) (found : Option (List Transaction))
        → ((rest : List Transaction) → found ≡ some rest → ids rest ≡ ids pool)
        → assign t w found ≡ some pool'
        → ids pool' ≡ ids (t ∷ pool)
    by_rest none found ih e = cc
    by_rest (some w) none ih e = cc
    by_rest (some w) (some rest) ih e =
        ap ids (sym (some-eq-some e)) ∙ ap (λ xs. t.id ∷ xs) (ih rest refl)

-- `RoundRobin` keeps the transactions at their places.
pub distribute-KeepsIds : KeepsIds distribute
unfolding distribute
distribute-KeepsIds workers pool pool' e = distribute_from-KeepsIds 0 workers pool pool' e
