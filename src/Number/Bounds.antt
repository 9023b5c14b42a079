-- ===== src/Number/Bounds.antt =====
-- What the comparisons say of an integer.
use nestjs_microservice_boil.Base.{ℕ, true, ◌≡◌, ◌<◌, arith, refl}
use nestjs_microservice_boil.Number.{ℤ, pos, negsuc, integer, exceeds}

-- An integer that is greater than a natural number is a natural number.
exceeds-pos : (z : ℤ) (n : ℕ) → exceeds (integer z) n ≡ true → (k : ℕ) × (z ≡ pos k) × (n < k)
exceeds-pos (pos k) n h = (k, refl, ground arith)
exceeds-pos (negsuc k) n h = absurd (ground arith)
