-- ===== src/Base/Results.antt =====
-- What a call comes to: `Result`, and the third way out, a panic.
pub data Result {ℓ} (E A : Type ℓ) : Type ℓ where
  ok : A → Result E A
  err : E → Result E A

pub data Outcome {ℓ} (E A : Type ℓ) : Type ℓ where
  returned : A → Outcome E A
  failed : E → Outcome E A
  panicked : Outcome E A

abbrev pub to_outcome {ℓ} : {E A : Type ℓ} → Result E A → Outcome E A
to_outcome (ok a) = returned a
to_outcome (err e) = failed e
