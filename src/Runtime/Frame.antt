-- ===== src/Runtime/Frame.antt =====
-- runtime/src/lib.rs: what a call on a `ConcurrentRuntime` does to the shared state before its cache is
-- committed: it claims keys that nobody owned, and changes no value.
use sonic_chain.Base.{
  ◌≡◌, ◌≢◌, refl, ap, sym, ◌∙◌, false, none, some, arith, ◌==◌, bytes_eq, nat_eq, if◌then◌else◌,
  returned, failed, ==_refl, Option-cases, Bool-cases, ◌⊎◌, inl, inr, ==ℕ_iff, bytes_beq_iff, [],
  bytes_beq,
}
use sonic_chain.Base.HashMap
use sonic_chain.Base.HashMap.{HashMap, get-insert}
use sonic_chain.Primitives.{Key, Value, ThreadId, value_default}
use sonic_chain.State
use sonic_chain.State.{StateValue, unsafe_read_value, unsafe_read_taint, unsafe_insert}
use sonic_chain.State.Interference.{alone}
use sonic_chain.State.Access.{read_of_missing, read_of_untainted, read_of_owned, read_of_foreign}
use sonic_chain.Runtime.Sequential.{RuntimeState, value_or_default}

-- The value that a reader finds at a key, whoever owns it.
unfoldable pub state_value : RuntimeState → Key → Value
unfolding unsafe_read_value
state_value m k = value_or_default (unsafe_read_value k m)

pub state_value-insert :
    (k j : Key) (v : StateValue Value ThreadId) (m : RuntimeState)
    → state_value (HashMap.insert k v m) j ≡ (if k == j then v.data_value else state_value m j)
unfolding state_value
state_value-insert k j v m = ground (arith, get-insert k j v m)

pub state_taint-insert :
    (k j : Key) (v : StateValue Value ThreadId) (m : RuntimeState)
    → unsafe_read_taint j (HashMap.insert k v m)
      ≡ (if k == j then v.taint else unsafe_read_taint j m)
unfolding unsafe_read_taint
state_taint-insert k j v m = ground (arith, get-insert k j v m)

-- Values stay, and a taint changes only from nobody to `id`.
pub record Frame (id : ThreadId) (m m' : RuntimeState) : Type 0 where
  pub values : (k : Key) → state_value m' k ≡ state_value m k
  pub taints :
      (k : Key)
      → (unsafe_read_taint k m' ≡ unsafe_read_taint k m)
        ⊎ ((unsafe_read_taint k m ≡ none) × (unsafe_read_taint k m' ≡ some id))

pub Frame-refl : (id : ThreadId) (m : RuntimeState) → Frame id m m
Frame-refl id m = record { values = λ k. refl; taints = λ k. inl refl }

pub Frame-trans :
    (id : ThreadId) (a b c : RuntimeState) → Frame id a b → Frame id b c → Frame id a c
Frame-trans id a b c f g = record {
  values = λ k. g.values k ∙ f.values k;
  taints = λ k. join k (f.taints k) (g.taints k);
}
  where
    join :
        (k : Key)
        → (unsafe_read_taint k b ≡ unsafe_read_taint k a)
          ⊎ ((unsafe_read_taint k a ≡ none) × (unsafe_read_taint k b ≡ some id))
        → (unsafe_read_taint k c ≡ unsafe_read_taint k b)
          ⊎ ((unsafe_read_taint k b ≡ none) × (unsafe_read_taint k c ≡ some id))
        → (unsafe_read_taint k c ≡ unsafe_read_taint k a)
          ⊎ ((unsafe_read_taint k a ≡ none) × (unsafe_read_taint k c ≡ some id))
    join k (inl p) (inl q) = inl (q ∙ p)
    join k (inl p) (inr (q, r)) = inr (sym p ∙ q, r)
    join k (inr (p, r)) (inl q) = inr (p, q ∙ r)
    join k (inr (p, r)) (inr (q, s)) = cc

-- Putting in a value that is there already, under the thread's own taint.
claim-Frame :
    (id : ThreadId) (k : Key) (v : StateValue Value ThreadId) (m : RuntimeState)
    → v.data_value ≡ state_value m k
    → v.taint ≡ some id
    → unsafe_read_taint k m ≡ none
    → Frame id m (HashMap.insert k v m)
claim-Frame id k v m same mine free = record {
  values = λ j. rw state_value-insert (elim (Bool-cases (bytes_beq k j)) [
    | inl e ↦ rw (e, ← (bytes_beq_iff k j).0 e) same
    | inr e ↦ rw e
  ]);
  taints = λ j. elim (Bool-cases (bytes_beq k j)) [
    | inl e ↦ inr (rw (← (bytes_beq_iff k j).0 e) free, rw (state_taint-insert, e) mine)
    | inr e ↦ inl (rw (state_taint-insert, e))
  ];
}

module _ (id : ThreadId) (key : Key) (m : RuntimeState) where
  value_of_missing : HashMap.get key m ≡ none → state_value m key ≡ []
  unfolding state_value
  value_of_missing e = ground arith

  taint_of_missing : HashMap.get key m ≡ none → unsafe_read_taint key m ≡ none
  unfolding unsafe_read_taint
  taint_of_missing e = ground arith

  value_of :
      (entry : StateValue Value ThreadId)
      → HashMap.get key m ≡ some entry
      → state_value m key ≡ entry.data_value
  unfolding state_value
  value_of entry e = ground arith

  taint_of :
      (entry : StateValue Value ThreadId)
      → HashMap.get key m ≡ some entry
      → unsafe_read_taint key m ≡ entry.taint
  unfolding unsafe_read_taint
  taint_of entry e = ground arith

  -- Reading the shared state: success gives the value and the ownership, failure the owner.
  pub state_read-Frame :
      ((m' : RuntimeState) × (State.read key id alone m ≡ (returned (state_value m key), m'))
        × Frame id m m'
        × (unsafe_read_taint key m' ≡ some id))
      ⊎ ((o : ThreadId) × (State.read key id alone m ≡ (failed o, m))
          × (unsafe_read_taint key m ≡ some o)
          × (o ≢ id))
  state_read-Frame = elim (Option-cases (HashMap.get key m)) [
    | inl e ↦ inl (
      _,
      rw (value_of_missing e) (read_of_missing key id m e),
      claim-Frame id key _ m (sym (value_of_missing e)) refl (taint_of_missing e),
      rw (state_taint-insert, ==_refl key),
    )
    | inr (entry, e) ↦ elim (Option-cases entry.taint) [
      | inl u ↦ inl (
        _,
        rw (value_of entry e) (read_of_untainted key id m entry e u),
        claim-Frame id key _ m (sym (value_of entry e)) refl (taint_of entry e ∙ u),
        rw (state_taint-insert, ==_refl key),
      )
      | inr (w, u) ↦ elim (Bool-cases (w == id)) [
        | inl q ↦
            let own : entry.taint ≡ some id = u ∙ ap some ((==ℕ_iff w id).0 q) in
            inl (
              m,
              rw (value_of entry e) (read_of_owned key id m entry e own),
              Frame-refl id m,
              taint_of entry e ∙ own,
            )
        | inr q ↦
            inr (w, read_of_foreign key id m entry e w u q, taint_of entry e ∙ u, ne_of_test w q)
      ]
    ]
  ]
    where
      ne_of_test : (w : ThreadId) → (w == id) ≡ false → w ≢ id
      ne_of_test w q p = cc ((==ℕ_iff w id).1 p)
