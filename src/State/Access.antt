-- ===== src/State/Access.antt =====
-- state/src/lib.rs, `read` with no interruption: one equation for each state of the entry.
use sonic_chain.Base.{
  ◌≡◌, ◌≢◌, false, none, some, arith, Eq, ◌==◌, Default, default, returned, failed, ==_refl,
  Option-cases, Bool-cases, ◌⊎◌, inl, inr, ap, ◌∙◌,
}
use sonic_chain.Base.HashMap
use sonic_chain.Base.HashMap.{get-insert}
use sonic_chain.State.{StateValue, StateType, read, unsafe_read_taint, new_taint}
use sonic_chain.State.Interference.{alone}

pub read_of_missing :
    {K V T : Type 0} ⦃ek : Eq K⦄ ⦃et : Eq T⦄ ⦃dv : Default V⦄ (key : K) (t : T)
    (m : StateType K V T)
    → HashMap.get key m ≡ none
    → read key t alone m ≡ (returned default, HashMap.insert key (new_taint t) m)
unfolding read
read_of_missing key t m e = rw (e, e)

module _ {K V T : Type 0} ⦃ek : Eq K⦄ ⦃et : Eq T⦄ ⦃dv : Default V⦄ (key : K) (t : T)
    (m : StateType K V T) (entry : StateValue V T) (e : HashMap.get key m ≡ some entry) where
  pub read_of_untainted :
      entry.taint ≡ none
      → read key t alone m
        ≡ (returned entry.data_value, HashMap.insert key (record entry { taint = some t }) m)
  unfolding read
  read_of_untainted u = rw (e, u, e, u)

  pub read_of_owned : entry.taint ≡ some t → read key t alone m ≡ (returned entry.data_value, m)
  unfolding read
  read_of_owned u = rw (e, u, ==_refl t)

  pub read_of_foreign :
      (o : T) → entry.taint ≡ some o → (o == t) ≡ false → read key t alone m ≡ (failed o, m)
  unfolding read
  read_of_foreign o u n = rw (e, u, n)

module _ {K V T : Type 0} ⦃ek : Eq K⦄ ⦃et : Eq T⦄ ⦃dv : Default V⦄ (key : K) (t : T)
    (m : StateType K V T) where
  taint-insert : (v : StateValue V T) → unsafe_read_taint key (HashMap.insert key v m) ≡ v.taint
  unfolding unsafe_read_taint
  taint-insert v = ground (arith, get-insert key key v m, ==_refl key)

  -- An uninterrupted read succeeds and leaves the key with the reader, or the key has another owner,
  -- who is named, and nothing changes.
  pub read-Owns :
      ((v : V) × ((read key t alone m).0 ≡ returned v)
        × (unsafe_read_taint key (read key t alone m).1 ≡ some t))
      ⊎ ((o : T) × (read key t alone m ≡ (failed o, m))
          × (unsafe_read_taint key m ≡ some o)
          × (o ≢ t))
  read-Owns = elim (Option-cases (HashMap.get key m)) [
    | inl e ↦
        inl
          (default, rw (read_of_missing key t m e), rw (read_of_missing key t m e) (taint-insert _))
    | inr (entry, e) ↦ elim (Option-cases entry.taint) [
      | inl u ↦ inl (
        entry.data_value,
        rw (read_of_untainted key t m entry e u),
        rw (read_of_untainted key t m entry e u) (taint-insert _),
      )
      | inr (w, u) ↦ elim (Bool-cases (w == t)) [
        | inl q ↦
            let own : entry.taint ≡ some t = u ∙ ap some ((et.beq_iff w t).0 q) in
            inl (
              entry.data_value,
              rw (read_of_owned key t m entry e own),
              rw (read_of_owned key t m entry e own) (taint_of entry e ∙ own),
            )
        | inr q ↦
            inr (w, read_of_foreign key t m entry e w u q, taint_of entry e ∙ u, ne_of_test w q)
      ]
    ]
  ]
    where
      taint_of :
          (entry : StateValue V T)
          → HashMap.get key m ≡ some entry
          → unsafe_read_taint key m ≡ entry.taint
      taint_of entry e = unfold unsafe_read_taint in ground arith

      ne_of_test : (w : T) → (w == t) ≡ false → w ≢ t
      ne_of_test w q p = cc ((et.beq_iff w t).1 p)
