-- ===== src/State/Claims.antt =====
-- state/src/lib.rs, `read` with no interruption: what it does to every entry of the map.
use sonic_chain.Base.{
  ◌≡◌, refl, Option, none, some, Eq, ◌==◌, Default, default, if◌then◌else◌, Outcome, returned,
  failed, Option-cases, Bool-cases, inl, inr, subst,
}
use sonic_chain.Base.HashMap
use sonic_chain.Base.HashMap.{get-insert}
use sonic_chain.State.{StateValue, StateType, read, new_taint}
use sonic_chain.State.Interference.{alone}

-- An entry after a read of `t`: the taint is set if there was none, and the data stays.
abbrev pub claim : {V T : Type 0} ⦃d : Default V⦄ → T → Option (StateValue V T) → StateValue V T
claim t none = new_taint t
claim t (some e) = elim e.taint [ none ↦ record e { taint = some t } | some o ↦ e ]

-- What a read of `t` returns.
abbrev pub seen :
    {V T : Type 0} ⦃et : Eq T⦄ ⦃d : Default V⦄ → T → Option (StateValue V T) → Outcome T V
seen t none = returned default
seen t (some e) = elim e.taint [
  | none ↦ returned e.data_value
  | some o ↦ if o == t then returned e.data_value else failed o
]

module _ {K V T : Type 0} ⦃ek : Eq K⦄ ⦃et : Eq T⦄ ⦃dv : Default V⦄ (key : K) (t : T)
    (m : StateType K V T) where
  -- A map in which `key` has the entry `v` and all else is as in `m`.
  abbrev Sets : StateValue V T → StateType K V T → Type 0
  Sets v m' = (k : K) → HashMap.get k m' ≡ (if key == k then some v else HashMap.get k m)

  insert-Sets : (v : StateValue V T) → Sets v (HashMap.insert key v m)
  insert-Sets v k = rw get-insert refl

  kept-Sets : (e : StateValue V T) → HashMap.get key m ≡ some e → Sets e m
  kept-Sets e h k = elim (Bool-cases (key == k)) [
    | inl q ↦ rw q (subst (λ j. HashMap.get j m ≡ some e) ((ek.beq_iff key k).0 q) h)
    | inr q ↦ rw q refl
  ]

  -- An uninterrupted read of a thread returns the default for a missing key, the data of an entry without a
  -- taint or with its own, and the owner of any other. It leaves every other entry as it was. A missing
  -- entry becomes the default with the reader's taint, one without a taint gets the reader's taint and keeps
  -- its data, and one with a taint stays as it was, data and owner.
  pub read-Claims :
      ((read key t alone m).0 ≡ seen t (HashMap.get key m))
      × ((k : K)
          → HashMap.get k (read key t alone m).1
            ≡ (if key == k then some (claim t (HashMap.get key m)) else HashMap.get k m))
  unfolding read
  read-Claims = elim (Option-cases (HashMap.get key m)) [
    | inl e ↦ rw (e, e) (refl, insert-Sets (new_taint t))
    | inr (entry, e) ↦ elim (Option-cases entry.taint) [
      | inl u ↦ rw (e, u, e, u) (refl, insert-Sets (record entry { taint = some t }))
      | inr (w, u) ↦ elim (Bool-cases (w == t)) [
        | inl q ↦ rw (e, u, q) (refl, kept-Sets entry e)
        | inr q ↦ rw (e, u, q) (refl, kept-Sets entry e)
      ]
    ]
  ]
