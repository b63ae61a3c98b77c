-- ===== src/State/Compare.antt =====
-- state/src/lib.rs: states as maps, and `state_eq`.
use sonic_chain.Base.{
  ◌≡◌, ◌≢◌, refl, ap, true, false, none, some, [], ◌∷◌, arith, Eq, ◌==◌, length, suc, ==_refl,
  ==ℕ_iff, Bool-cases, inl, inr,
}
use sonic_chain.Base.HashMap
use sonic_chain.Base.HashMap.{HashMap, IsMap, insert-IsMap}
use sonic_chain.State.{StateValue, StateType, unsafe_duplicate, same_data, all_in, state_eq}

module _ {K V T : Type 0} ⦃ek : Eq K⦄ where
  pub unsafe_duplicate-IsMap :
      (initial m : StateType K V T) → IsMap m → IsMap (unsafe_duplicate initial m)
  unfolding unsafe_duplicate
  unsafe_duplicate-IsMap [] m h = h
  unsafe_duplicate-IsMap ((k, v) ∷ initial) m h =
      unsafe_duplicate-IsMap initial (HashMap.insert k v m) (insert-IsMap k v m h)

  -- A new key makes the map longer by one.
  pub length-insert :
      (k : K) (v : StateValue V T) (m : StateType K V T)
      → HashMap.get k m ≡ none
      → length (HashMap.insert k v m) ≡ suc (length m)
  unfolding HashMap.get HashMap.insert
  length-insert k v [] h = refl
  length-insert k v ((j, w) ∷ m) h = elim (Bool-cases (j == k)) [
    | inl e ↦ cc (rw e at h)
    | inr e ↦ rw e (ap suc (length-insert k v m (rw e at h)))
  ]

module _ {K V T : Type 0} ⦃ek : Eq K⦄ ⦃ev : Eq V⦄ where
  -- The entries of `m` are found in `other`.
  abbrev Within : StateType K V T → StateType K V T → Type 0
  Within m other =
      (k : K) (v : StateValue V T) → HashMap.get k m ≡ some v → HashMap.get k other ≡ some v

  all_in_lem : (m other : StateType K V T) → IsMap m → Within m other → all_in m other ≡ true
  unfolding all_in same_data HashMap.get
  all_in_lem [] other h w = refl
  all_in_lem ((k, v) ∷ m) other (absent, h) w =
      rw (w k v (rw (==_refl k)), ==_refl v.data_value, all_in_lem m other h tail_within)
    where
      tail_within : Within m other
      tail_within j u g = elim (Bool-cases (k == j)) [
        | inl e ↦ cc ((ek.beq_iff k j).0 e)
        | inr e ↦ w j u (rw (e, g))
      ]

  -- A state that lists no key twice is equal to itself by `state_eq`.
  pub state_eq_refl : (m : StateType K V T) → IsMap m → state_eq m m ≡ true
  unfolding state_eq
  state_eq_refl m h = rw (all_in_lem m m h (λ k v e. e), (==ℕ_iff (length m) (length m)).1 refl)

  -- States with different numbers of keys are not equal.
  pub state_eq_lengths :
      (m other : StateType K V T) → length m ≢ length other → state_eq m other ≡ false
  unfolding state_eq
  state_eq_lengths m other n = ground arith
