-- ===== src/State.antt =====
-- state/src/lib.rs: the tainted key-value state. `TaintState` is the map behind the `RwLock`; the
-- taint of an entry is the id of the thread that owns its key.
pub mod Interference
pub mod Races
pub mod Access
pub mod Claims
pub mod Compare
use sonic_chain.Base.{
  ◌≡◌, Bool, true, false, ◌&&◌, Option, none, some, List, [], ◌∷◌, arith, Eq, ◌==◌, Default,
  default, if◌then◌else◌, Outcome, returned, failed, panicked, length, ℕ, ==_refl, ◌==ℕ◌,
}
use sonic_chain.Base.HashMap
use sonic_chain.Base.HashMap.{HashMap}

pub record StateValue (V T : Type 0) : Type 0 where
  pub data_value : V
  pub taint : Option T

abbrev pub StateType : Type 0 → Type 0 → Type 0 → Type 0
StateType K V T = HashMap K (StateValue V T)

module _ {V T : Type 0} where
  -- `StateValue::new`
  abbrev pub new : V → T → StateValue V T
  new value taint = record { data_value = value; taint = some taint }

  -- `StateValue::new_taint`
  abbrev pub new_taint : ⦃d : Default V⦄ → T → StateValue V T
  new_taint taint = record { data_value = default; taint = some taint }

  -- `StateValue::new_data`
  abbrev pub new_data : V → StateValue V T
  new_data value = record { data_value = value; taint = none }

module _ {K V T : Type 0} ⦃ek : Eq K⦄ where
  unfoldable pub unsafe_insert : K → StateValue V T → StateType K V T → StateType K V T
  unsafe_insert at value m = HashMap.insert at value m

  unfoldable pub unsafe_taint : ⦃d : Default V⦄ → K → T → StateType K V T → StateType K V T
  unsafe_taint at taint m = HashMap.insert at (new_taint taint) m

  unfoldable pub unsafe_insert_genesis_value : K → V → StateType K V T → StateType K V T
  unsafe_insert_genesis_value at value m = HashMap.insert at (new_data value) m

  -- `dump` is a copy of the map.
  abbrev pub dump : StateType K V T → StateType K V T
  dump m = m

  -- Inserting the entries of `initial` one by one, as `unsafe_duplicate` and `apply_state` do.
  unfoldable pub unsafe_duplicate : StateType K V T → StateType K V T → StateType K V T
  unfolding unsafe_insert
  unsafe_duplicate [] m = m
  unsafe_duplicate ((k, v) ∷ initial) m = unsafe_duplicate initial (unsafe_insert k v m)

  abbrev pub unsafe_clean : StateType K V T → StateType K V T
  unsafe_clean m = []

  abbrev pub unsafe_len : StateType K V T → ℕ
  unsafe_len m = length m

  unfoldable pub unsafe_read : K → StateType K V T → Option (StateValue V T)
  unsafe_read key m = HashMap.get key m

  unfoldable pub unsafe_read_value : K → StateType K V T → Option V
  unfolding unsafe_read
  unsafe_read_value key m = elim (unsafe_read key m) [ none ↦ none | some e ↦ some e.data_value ]

  unfoldable pub unsafe_read_taint : K → StateType K V T → Option T
  unfolding unsafe_read
  unsafe_read_taint key m = elim (unsafe_read key m) [ none ↦ none | some e ↦ e.taint ]

module _ {V T : Type 0} ⦃ev : Eq V⦄ where
  same_data : Option (StateValue V T) → StateValue V T → Bool
  same_data none v = false
  same_data (some w) v = v.data_value == w.data_value

module _ {K V T : Type 0} ⦃ek : Eq K⦄ ⦃ev : Eq V⦄ where
  all_in : StateType K V T → StateType K V T → Bool
  all_in [] other = true
  all_in ((k, v) ∷ m) other = same_data (HashMap.get k other) v && all_in m other

  -- `StateEq::state_eq`: every entry has the same data in the other dump, and the counts agree.
  unfoldable pub state_eq : StateType K V T → StateType K V T → Bool
  unfolding same_data all_in
  state_eq m other = all_in m other && (length m ==ℕ length other)

abbrev pub Access : Type 0 → Type 0 → Type 0 → Type 0 → Type 0
Access K V T A = Outcome T A × StateType K V T

-- Under the write lock: an entry that was missing under the read lock must have a taint by now.
newly_created : {A V T : Type 0} ⦃et : Eq T⦄ → T → StateValue V T → Outcome T A
newly_created current entry = elim entry.taint [
  | none ↦ panicked
  | some owner ↦ if owner == current then panicked else failed owner
]

-- `gap` is what the other threads do between the release of the read lock and the acquisition of the
-- write lock. It happens only where the code drops its read guard.
module _ {K V T : Type 0} ⦃ek : Eq K⦄ ⦃et : Eq T⦄ ⦃dv : Default V⦄ where
  -- Under the write lock, where the entry was seen without a taint.
  read_untainted : K → T → StateType K V T → Option (StateValue V T) → Access K V T V
  read_untainted key current m none = (panicked, m)
  read_untainted key current m (some entry) = elim entry.taint [
    | some owner ↦ if owner == current then (panicked, m) else (failed owner, m)
    | none ↦
        (returned entry.data_value, HashMap.insert key (record entry { taint = some current }) m)
  ]

  read_missing : K → T → StateType K V T → Option (StateValue V T) → Access K V T V
  unfolding newly_created
  read_missing key current m (some entry) = (newly_created current entry, m)
  read_missing key current m none = (returned default, HashMap.insert key (new_taint current) m)

  read_locked :
      K
      → T
      → (StateType K V T → StateType K V T)
      → StateType K V T
      → Option (StateValue V T)
      → Access K V T V
  unfolding read_untainted read_missing
  read_locked key current gap m (some entry) = elim entry.taint [
    | some owner ↦ if owner == current then (returned entry.data_value, m) else (failed owner, m)
    | none ↦ read_untainted key current (gap m) (HashMap.get key (gap m))
  ]
  read_locked key current gap m none = read_missing key current (gap m) (HashMap.get key (gap m))

  -- `GenericState::read`
  unfoldable pub read :
      K → T → (StateType K V T → StateType K V T) → StateType K V T → Access K V T V
  unfolding read_locked
  read key current gap m = read_locked key current gap m (HashMap.get key m)

  write_untainted : K → V → T → StateType K V T → Option (StateValue V T) → Access K V T Unit
  write_untainted key value current m none = (panicked, m)
  write_untainted key value current m (some entry) = elim entry.taint [
    | some owner ↦ if owner == current then (panicked, m) else (failed owner, m)
    | none ↦ (returned tt, HashMap.insert key (new value current) m)
  ]

  write_missing : K → V → T → StateType K V T → Option (StateValue V T) → Access K V T Unit
  unfolding newly_created
  write_missing key value current m (some entry) = (newly_created current entry, m)
  write_missing key value current m none = (returned tt, HashMap.insert key (new value current) m)

  write_locked :
      K
      → V
      → T
      → (StateType K V T → StateType K V T)
      → StateType K V T
      → Option (StateValue V T)
      → Access K V T Unit
  unfolding write_untainted write_missing
  write_locked key value current gap m (some entry) = elim entry.taint [
    | some owner ↦
        if owner == current
        then (returned tt, HashMap.insert key (record entry { data_value = value }) m)
        else (failed owner, m)
    | none ↦ write_untainted key value current (gap m) (HashMap.get key (gap m))
  ]
  write_locked key value current gap m none =
      write_missing key value current (gap m) (HashMap.get key (gap m))

  -- `GenericState::write`
  unfoldable pub write :
      K → V → T → (StateType K V T → StateType K V T) → StateType K V T → Access K V T Unit
  unfolding write_locked
  write key value current gap m = write_locked key value current gap m (HashMap.get key m)

  abbrev mutate_read :
      K → (V → V) → T → (StateType K V T → StateType K V T) → Access K V T V → Access K V T Unit
  mutate_read key update current gap (returned val, m) = write key (update val) current gap m
  mutate_read key update current gap (failed owner, m) = (failed owner, m)
  mutate_read key update current gap (panicked, m) = (panicked, m)

  -- `GenericState::mutate`: a read, then a write.
  unfoldable pub mutate :
      K → (V → V) → T → (StateType K V T → StateType K V T) → StateType K V T → Access K V T Unit
  mutate key update current gap m = mutate_read key update current gap (read key current gap m)
