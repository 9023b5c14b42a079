-- ===== src/Pagination.antt =====
-- utils/pagination.ts: the schema of a page request, and the arithmetic of pages.
pub mod Laws
use nestjs_microservice_boil.Base.{
  ℕ, zero, suc, Text, Bool, true, false, Option, none, some, List, ◌+◌, ◌*◌, ◌/◌, ◌%◌, ◌==◌,
  if◌then◌else◌,
}
use nestjs_microservice_boil.Exception.{Result, ok, err, zod_error, ◌>>=◌, ◌>>◌}
use nestjs_microservice_boil.Entity.{check, or_else}
use nestjs_microservice_boil.Number.{
  ℤ, pos, negsuc, Number, nan, infinite, integer, is_nan, is_integer, exceeds,
}

-- A query parameter: a number (the schema takes NaN, but no infinity) or a text.
pub data Parameter : Type 0 where
  number : Number → Parameter
  string : Text → Parameter

pub record Pagination : Type 0 where
  pub page : Number
  pub limit : Number

unfoldable pub max_limit : Number → Number
max_limit limit = if exceeds limit 100 then integer (pos 100) else limit

-- the `transform`
unfoldable pub transform : (page limit : Number) → Pagination
unfolding max_limit
transform page limit =
    let limit' = if is_nan limit then integer (pos 10) else limit in
    let page' = if is_nan page then integer (pos 1) else page in
    record {
      page = if exceeds page' 0 then page' else integer (pos 1);
      limit = if exceeds limit' 0 then max_limit limit' else integer (pos 10);
    }

-- `Number(text)` is the runtime's.
module _ (to_number : Text → Number) where
  unfoldable pub parse_parameter : Parameter → Result Number
  parse_parameter (number (infinite _)) = err zod_error
  parse_parameter (number x) = ok x
  parse_parameter (string s) = ok (to_number s)

  -- `PaginationSchema`
  unfoldable pub pagination_schema : (page limit : Option Parameter) → Result Pagination
  unfolding parse_parameter transform
  pagination_schema page limit = do
    p ← parse_parameter (or_else (number (integer (pos 1))) page)
    l ← parse_parameter (or_else (number (integer (pos 10))) limit)
    check (is_integer (transform p l).page)
    check (is_integer (transform p l).limit)
    ok (transform p l)

abbrev negated : ℕ → ℤ
negated zero = pos 0
negated (suc n) = negsuc n

-- `(page - 1) * limit`
unfoldable pub calculate_skip : (page limit : ℕ) → ℤ
calculate_skip zero limit = negated limit
calculate_skip (suc page) limit = pos (page * limit)

-- `Math.ceil(total / limit)`, on numbers that doubles hold exactly
unfoldable pub calculate_total_pages : (limit total : ℕ) → Number
calculate_total_pages zero zero = nan
calculate_total_pages zero (suc _) = infinite false
calculate_total_pages (suc l) total =
    integer (pos (total / suc l + (if total % suc l == 0 then 0 else 1)))
