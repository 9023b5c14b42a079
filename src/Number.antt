-- ===== src/Number.antt =====
-- JavaScript numbers as far as the program looks at them: the comparisons with integers, `isNaN`,
-- `Number.isInteger` and rounding. The two zeros are one.
pub mod Bounds
use nestjs_microservice_boil.Base.{ℕ, Bool, true, false, leb, suc}

pub data ℤ : Type 0 where
  pos negsuc : ℕ → ℤ

-- `fraction n` is any number strictly between `n` and the next integer.
pub data Number : Type 0 where
  nan : Number
  infinite : (negative : Bool) → Number
  integer fraction : ℤ → Number

abbrev pub is_nan : Number → Bool
is_nan nan = true
is_nan _ = false

-- `Number.isInteger`
abbrev pub is_integer : Number → Bool
is_integer (integer _) = true
is_integer _ = false

-- `x > n`, for a literal `n`
abbrev pub exceeds : Number → ℕ → Bool
exceeds nan n = false
exceeds (infinite true) n = false
exceeds (infinite false) n = true
exceeds (integer (pos x)) n = leb (suc n) x
exceeds (integer (negsuc _)) n = false
exceeds (fraction (pos x)) n = leb n x
exceeds (fraction (negsuc _)) n = false

-- `x <= n` on an integer
abbrev pub at_most : ℤ → ℕ → Bool
at_most (pos x) n = leb x n
at_most (negsuc _) n = true

abbrev pub non_negative : ℤ → Bool
non_negative (pos _) = true
non_negative (negsuc _) = false
