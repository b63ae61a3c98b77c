-- ===== src/Executor/Components/Search/Classes.antt =====
-- executor/src/concurrent/tx_distribution.rs, `ConnectedComponents::distribute`: components as the nodes of
-- transactions with one mark.
use sonic_chain.Base.{
  ℕ, zero, suc, ◌≤◌, ◌≡◌, refl, ap, sym, ◌∙◌, true, some, List, [], ◌∷◌, subst, get_elem?,
  some-eq-some, arith,
}
use sonic_chain.Executor.Components.{Rc, Heap}
use sonic_chain.Executor.Components.Search.{In, component_at}
use sonic_chain.Executor.Components.Search.Explored.{is_tx_at}

-- The nodes of transactions with this mark.
abbrev pub IsClass : Heap → ℕ → List Rc → Type 0
IsClass heap j component =
    (r : Rc)
    → (In r component → (is_tx_at heap r ≡ true) × (component_at heap r ≡ some j))
      × (is_tx_at heap r ≡ true → component_at heap r ≡ some j → In r component)

-- One class after the other, with growing marks.
abbrev pub Classes : Heap → ℕ → List (List Rc) → Type 0
Classes heap id [] = Unit
Classes heap id (c ∷ components) =
    (j : ℕ) × (id ≤ j) × IsClass heap j c × Classes heap (suc j) components

pub Classes-mono :
    (heap : Heap) (id more : ℕ) (components : List (List Rc))
    → id ≤ more
    → Classes heap more components
    → Classes heap id components
Classes-mono heap id more [] le h = tt
Classes-mono heap id more (c ∷ components) le (j, h, cls, rest) =
    (j, omega (arith, le, h), cls, rest)

abbrev pub Member : List (List Rc) → ℕ → Rc → Type 0
Member components i r = (c : List Rc) × (get_elem? components i ≡ some c) × In r c

-- A member of a class has its mark, which is not below the first, and all transactions with the mark are
-- in the class.
pub Classes-mark :
    (heap : Heap) (id : ℕ) (components : List (List Rc)) (i : ℕ) (r : Rc)
    → Classes heap id components
    → Member components i r
    → (j : ℕ) × (id ≤ j)
      × (is_tx_at heap r ≡ true)
      × (component_at heap r ≡ some j)
      × ((x : Rc) → is_tx_at heap x ≡ true → component_at heap x ≡ some j → Member components i x)
Classes-mark heap id [] i r h (c, e, m) = cc
Classes-mark heap id (c ∷ components) zero r (j, le, k, rest) (d, e, m) =
    let found : In r c = subst (In r) (sym (some-eq-some e)) m in
    (j, le, ((k r).0 found).0, ((k r).0 found).1, λ x t s. (c, refl, (k x).1 t s))
Classes-mark heap id (c ∷ components) (suc i) r (j, le, k, rest) m =
    let (l, le', t, s, all) = Classes-mark heap (suc j) components i r rest m in
    (l, omega (arith, le, le'), t, s, all)

pub Classes-apart :
    (heap : Heap) (id : ℕ) (components : List (List Rc)) (i j : ℕ) (r : Rc)
    → Classes heap id components
    → Member components i r
    → Member components j r
    → i ≡ j
Classes-apart heap id [] i j r h (c, e, m) n = cc
Classes-apart heap id (c ∷ components) zero zero r h m n = refl
Classes-apart heap id (c ∷ components) zero (suc j) r (k, le, cls, rest) (d, e, m) n =
    let (l, le', t, s, all) = Classes-mark heap (suc k) components j r rest n in
    absurd (
      omega
        (arith, le', some-eq-some (sym ((cls r).0 (subst (In r) (sym (some-eq-some e)) m)).1 ∙ s)))
Classes-apart heap id (c ∷ components) (suc i) zero r (k, le, cls, rest) m (d, e, n) =
    let (l, le', t, s, all) = Classes-mark heap (suc k) components i r rest m in
    absurd (
      omega
        (arith, le', some-eq-some (sym ((cls r).0 (subst (In r) (sym (some-eq-some e)) n)).1 ∙ s)))
Classes-apart heap id (c ∷ components) (suc i) (suc j) r (k, le, cls, rest) m n =
    ap suc (Classes-apart heap (suc k) components i j r rest m n)
