-- ===== src/Common/Results.antt =====
-- A result or an error, for the functions that return `(T, error)`.

pub data Result {ℓ κ} (E : Type ℓ) (A : Type κ) : Type (ℓ ⊔ κ) where
  ok : A → Result E A
  err : E → Result E A
