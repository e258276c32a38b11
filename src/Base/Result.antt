-- ===== src/Base/Result.antt =====
-- Functions that may raise.
pub data Result {ℓ} (E A : Type ℓ) : Type ℓ where
  ok : A → Result E A
  raise : E → Result E A
