-- ===== src/Runtime/Refinement.antt =====
-- runtime/src/lib.rs: a call on a `ConcurrentRuntime` is refused for a taint, or it does what the same
-- call does on a `SequentialRuntime`.
use sonic_chain.Base.{
  ◌≡◌, ◌≢◌, ◌∙◌, Option, none, some, bytes_eq, nat_eq, returned, failed, Option-cases, ◌⊎◌, inl,
  inr, List, [], ◌∷◌,
}
use sonic_chain.Base.HashMap
use sonic_chain.Base.HashMap.{HashMap, get-insert}
use sonic_chain.Primitives.{Key, Value, ThreadId, value_default}
use sonic_chain.State.{unsafe_read_taint}
use sonic_chain.Runtime.Sequential.{RuntimeState}
use sonic_chain.Runtime.Concurrent
use sonic_chain.Runtime.Concurrent.{ConcurrentState, concurrent_runtime}
use sonic_chain.Runtime.Frame.{Frame, Frame-refl, state_value, state_read-Frame}
use sonic_chain.Runtime.Discipline.{Known}

abbrev value_or : Option Value → Value → Value
value_or none v = v
value_or (some w) v = w

-- What the thread reads: its cache over the shared state.
unfoldable pub cached_value : ConcurrentState → Key → Value
cached_value s k = value_or (HashMap.get k s.cache) (state_value s.state k)

abbrev pub Owned : ThreadId → Key → ConcurrentState → Type 0
Owned id k s = unsafe_read_taint k s.state ≡ some id

abbrev pub AllOwned : ThreadId → List Key → ConcurrentState → Type 0
AllOwned id [] s = Unit
AllOwned id (k ∷ known) s = Owned id k s × AllOwned id known s

-- The thread's view is the state `m` of a sequential runtime, and it owns what it has cached.
pub record Linked (id : ThreadId) (s : ConcurrentState) (m : RuntimeState) : Type 0 where
  pub views : (k : Key) → cached_value s k ≡ state_value m k
  pub owned : (k : Key) (v : Value) → HashMap.get k s.cache ≡ some v → Owned id k s

module _ (id : ThreadId) where
  pub Owned-Frame :
      (k : Key) (m m' : RuntimeState)
      → Frame id m m'
      → unsafe_read_taint k m ≡ some id
      → unsafe_read_taint k m' ≡ some id
  Owned-Frame k m m' f h = elim (f.taints k) [ inl p ↦ p ∙ h | inr (p, q) ↦ q ]

  pub AllOwned-Frame :
      (known : List Key) (s s' : ConcurrentState)
      → Frame id s.state s'.state
      → AllOwned id known s
      → AllOwned id known s'
  AllOwned-Frame [] s s' f h = tt
  AllOwned-Frame (k ∷ known) s s' f h =
      (Owned-Frame k s.state s'.state f h.0, AllOwned-Frame known s s' f h.1)

  pub Known-Owned :
      (k : Key) (known : List Key) (s : ConcurrentState)
      → Known k known
      → AllOwned id known s
      → Owned id k s
  Known-Owned k [] s h own = absurd h
  Known-Owned k (j ∷ known) s (inl e) own = rw e own.0
  Known-Owned k (j ∷ known) s (inr h) own = Known-Owned k known s h own.1

  module _ (key : Key) (s : ConcurrentState) (m : RuntimeState) (linked : Linked id s m) where
    -- A read of the thread, by what its cache and the state say.
    pub read-Linked :
        ((m' : RuntimeState) × (Concurrent.read id key s
            ≡ (returned (state_value m key), record s { state = m' }))
          × Frame id s.state m'
          × (unsafe_read_taint key m' ≡ some id))
        ⊎ ((o : ThreadId) × (Concurrent.read id key s ≡ (failed o, s))
            × (unsafe_read_taint key s.state ≡ some o)
            × (o ≢ id))
    unfolding Concurrent.read
    read-Linked = elim (Option-cases (HashMap.get key s.cache)) [
      | inr (v, e) ↦ inl (
        s.state,
        rw (e, ← linked.views key) (rw (hit v e)),
        Frame-refl id s.state,
        linked.owned key v e,
      )
      | inl e ↦ elim (state_read-Frame id key s.state) [
        | inl (m', r, f, o) ↦ inl (m', rw (e, r, ← linked.views key) (rw (miss e)), f, o)
        | inr (o, r, u, n) ↦ inr (o, rw (e, r), u, n)
      ]
    ]
      where
        hit : (v : Value) → HashMap.get key s.cache ≡ some v → cached_value s key ≡ v
        hit v e = unfold cached_value in rw e

        miss : HashMap.get key s.cache ≡ none → cached_value s key ≡ state_value s.state key
        miss e = unfold cached_value in rw e
