-- ===== src/State/Races.antt =====
-- state/src/lib.rs, `read` and `write` with other threads between the two locks.
use sonic_chain.Base.{
  ◌≡◌, ◌≢◌, false, some, Eq, ◌==◌, Default, returned, failed, Option-cases, Bool-cases, ◌⊎◌, inl,
  inr,
}
use sonic_chain.Base.HashMap
use sonic_chain.Base.HashMap.{get-insert}
use sonic_chain.State.{StateValue, StateType, read, write, unsafe_read_taint, Access}
use sonic_chain.State.Access.{read-Owns}
use sonic_chain.State.Interference.{Interferes, alone, untainted-next, missing-next}

==_ne : {T : Type 0} ⦃et : Eq T⦄ (a b : T) → a ≢ b → (a == b) ≡ false
==_ne ⦃et⦄ a b h = elim (Bool-cases (a == b)) [
  | inl e ↦ absurd (h ((et.beq_iff a b).0 e))
  | inr e ↦ e
]

module _ {K V T : Type 0} ⦃ek : Eq K⦄ ⦃et : Eq T⦄ ⦃dv : Default V⦄ (key : K) (t : T)
    (gap : StateType K V T → StateType K V T) (m : StateType K V T)
    (others : Interferes t m (gap m)) where
  taken_read :
      (o : T) (e' : StateValue V T)
      → HashMap.get key (gap m) ≡ some e'
      → e'.taint ≡ some o
      → o ≢ t
      → read key t alone (gap m) ≡ (failed o, gap m)
  unfolding read
  taken_read o e' g u n = rw (g, u, ==_ne o t n)

  -- A read during which other threads run is the read with no interruption, before or after they
  -- ran.
  pub read-linearizable :
      (read key t gap m ≡ read key t alone m) ⊎ (read key t gap m ≡ read key t alone (gap m))
  unfolding read
  read-linearizable = elim (Option-cases (HashMap.get key m)) [
    | inl e ↦ elim (missing-next t m (gap m) key (others key) e) [
      | inl g ↦ inr (rw (e, g, g))
      | inr (o, e', g, u, n) ↦ inr (rw (e, g, u, ==_ne o t n))
    ]
    | inr (entry, e) ↦ elim (Option-cases entry.taint) [
      | inl u ↦ elim (untainted-next t m (gap m) key entry (others key) e u) [
        | inl g ↦ inr (rw (e, u, g, u, g, u))
        | inr (o, e', g, v, n) ↦ inr (rw (e, u, g, v, ==_ne o t n))
      ]
      | inr (w, u) ↦ inl (rw (e, u))
    ]
  ]

  -- A write during which other threads run is the write with no interruption, before or after they
  -- ran.
  pub write-linearizable :
      (value : V)
      → (write key value t gap m ≡ write key value t alone m)
        ⊎ (write key value t gap m ≡ write key value t alone (gap m))
  unfolding write
  write-linearizable value = elim (Option-cases (HashMap.get key m)) [
    | inl e ↦ elim (missing-next t m (gap m) key (others key) e) [
      | inl g ↦ inr (rw (e, g, g))
      | inr (o, e', g, u, n) ↦ inr (rw (e, g, u, ==_ne o t n))
    ]
    | inr (entry, e) ↦ elim (Option-cases entry.taint) [
      | inl u ↦ elim (untainted-next t m (gap m) key entry (others key) e u) [
        | inl g ↦ inr (rw (e, u, g, u, g, u))
        | inr (o, e', g, v, n) ↦ inr (rw (e, u, g, v, ==_ne o t n))
      ]
      | inr (w, u) ↦ inl (rw (e, u))
    ]
  ]

module _ {K V T : Type 0} ⦃ek : Eq K⦄ ⦃et : Eq T⦄ ⦃dv : Default V⦄ (key : K) (t : T) where
  -- The key is the reader's, who has its value, or it is another thread's, who is named.
  abbrev pub Settled : Access K V T V → Type 0
  Settled r =
      ((v : V) × (r.0 ≡ returned v) × (unsafe_read_taint key r.1 ≡ some t))
      ⊎ ((o : T) × (r.0 ≡ failed o) × (unsafe_read_taint key r.1 ≡ some o) × (o ≢ t))

  alone-Settled : (m : StateType K V T) → Settled (read key t alone m)
  alone-Settled m = elim (read-Owns key t m) [
    | inl r ↦ inl r
    | inr (o, e, u, n) ↦ inr (o, rw e, rw e u, n)
  ]

  -- Whatever other threads do between its two locks, a read never panics: it succeeds and leaves
  -- the key with the reader, or it names another thread that owns the key.
  pub read-Settled :
      (gap : StateType K V T → StateType K V T) (m : StateType K V T)
      → Interferes t m (gap m)
      → Settled (read key t gap m)
  read-Settled gap m others = elim (read-linearizable key t gap m others) [
    | inl e ↦ rw e (alone-Settled m)
    | inr e ↦ rw e (alone-Settled (gap m))
  ]
