-- ===== src/Pagination/Laws.antt =====
-- The bounds of an accepted page request, and that the pages make up the whole result.
use nestjs_microservice_boil.Base.{
  ℕ, zero, suc, Text, true, false, Option, List, [], ◌∷◌, ◌++◌, ◌≡◌, refl, ap, ◌∙◌, sym, ◌+◌, ◌*◌,
  ◌≤◌, arith, length, take, drop, ◌==◌, if◌then◌else◌, ◌%◌, ◌/◌, Bool-cases, inl, inr, leb,
}
use nestjs_microservice_boil.Exception.{◌>>◌, bind-eq-ok, ok}
use nestjs_microservice_boil.Number.{
  nan, infinite, fraction, negsuc, is_integer, ℤ, pos, Number, integer,
}
use nestjs_microservice_boil.Pagination.{
  transform, parse_parameter, Pagination, Parameter, pagination_schema, calculate_skip,
  calculate_total_pages, number,
}
use nestjs_microservice_boil.Entity.{check, or_else}
use native.Mathlib.Nat.{mod-add-div', mod-lt}

abbrev page_of : Number → Number
page_of page = (transform page page).page

abbrev limit_of : Number → Number
limit_of limit = (transform limit limit).limit

page_of-positive :
    (x : Number) → is_integer (page_of x) ≡ true → (k : ℕ) × (page_of x ≡ integer (pos k)) × (1 ≤ k)
unfolding transform
page_of-positive nan h = (1, refl, omega arith)
page_of-positive (infinite true) h = (1, refl, omega arith)
page_of-positive (infinite false) h = absurd (ground arith)
page_of-positive (integer (pos zero)) h = (1, refl, omega arith)
page_of-positive (integer (pos (suc k))) h = (suc k, ground arith, omega arith)
page_of-positive (integer (negsuc k)) h = (1, refl, omega arith)
page_of-positive (fraction (pos n)) h = absurd (ground arith)
page_of-positive (fraction (negsuc n)) h = (1, refl, omega arith)

limit_of-bounds :
    (x : Number)
    → is_integer (limit_of x) ≡ true
    → (n : ℕ) × (limit_of x ≡ integer (pos n)) × (1 ≤ n) × (n ≤ 100)
unfolding transform
limit_of-bounds nan h = (10, refl, omega arith, omega arith)
limit_of-bounds (infinite true) h = (10, refl, omega arith, omega arith)
limit_of-bounds (infinite false) h = (100, refl, omega arith, omega arith)
limit_of-bounds (integer (pos zero)) h = (10, refl, omega arith, omega arith)
limit_of-bounds (integer (pos (suc k))) h = elim (Bool-cases (leb 101 (suc k))) [
  | inl e ↦ (100, ground (arith, e), omega arith, omega arith)
  | inr e ↦ (suc k, ground (arith, e), omega arith, ground arith)
]
limit_of-bounds (integer (negsuc k)) h = (10, refl, omega arith, omega arith)
limit_of-bounds (fraction (pos n)) h = elim (Bool-cases (leb 100 n)) [
  | inl e ↦ (100, ground (arith, e), omega arith, omega arith)
  | inr e ↦ absurd (ground (arith, e))
]
limit_of-bounds (fraction (negsuc n)) h = (10, refl, omega arith, omega arith)

checked :
    (t out : Pagination)
    → (check (is_integer t.page) >> (check (is_integer t.limit) >> ok t)) ≡ ok out
    → (out ≡ t) × (is_integer t.page ≡ true) × (is_integer t.limit ≡ true)
checked t out h = ground arith

pagination_schema-transform :
    (to_number : Text → Number) (page limit : Option Parameter) (out : Pagination)
    → pagination_schema to_number page limit ≡ ok out
    → (x y : Number) × (out ≡ transform x y)
      × (is_integer (page_of x) ≡ true)
      × (is_integer (limit_of y) ≡ true)
unfolding pagination_schema transform
pagination_schema-transform to_number page limit out h =
    let (x, first, rest) =
      bind-eq-ok (parse_parameter to_number (or_else (number (integer (pos 1))) page)) _ h in
    let (y, second, last) =
      bind-eq-ok (parse_parameter to_number (or_else (number (integer (pos 10))) limit)) _ rest in
    let (made, page_ok, limit_ok) = checked (transform x y) out last in
    (x, y, made, page_ok, limit_ok)

-- Whatever the two parameters are, a request that the schema accepts asks for a page from 1 on and
-- for between 1 and 100 documents.
pub pagination_schema-bounds :
    (to_number : Text → Number) (page limit : Option Parameter) (out : Pagination)
    → pagination_schema to_number page limit ≡ ok out
    → (k n : ℕ) × (out.page ≡ integer (pos k))
      × (1 ≤ k)
      × (out.limit ≡ integer (pos n))
      × (1 ≤ n)
      × (n ≤ 100)
unfolding transform
pagination_schema-bounds to_number page limit out h =
    let (x, y, made, page_ok, limit_ok) = pagination_schema-transform to_number page limit out h in
    let (k, page_eq, positive) = page_of-positive x page_ok in
    let (n, limit_eq, low, high) = limit_of-bounds y limit_ok in
    (
      k,
      n,
      ap (λ (r : Pagination). r.page) made ∙ page_eq,
      positive,
      ap (λ (r : Pagination). r.limit) made ∙ limit_eq,
      low,
      high,
    )

-- The documents of page `page`: `findAndCount` with `skip` and `take`.
abbrev pub slice_at : {A : Type 0} → ℤ → ℕ → List A → List A
slice_at (pos skip) limit docs = take limit (drop skip docs)
slice_at _ limit docs = take limit docs

-- The documents of the first `n` pages, one page after the other.
abbrev pub pages : {A : Type 0} → ℕ → ℕ → List A → List A
pages zero limit docs = []
pages (suc n) limit docs = pages n limit docs ++ slice_at (calculate_skip (suc n) limit) limit docs

take-nil : {A : Type 0} (n : ℕ) → take {A = A} n [] ≡ []
take-nil zero = refl
take-nil (suc n) = refl

pub take-add :
    {A : Type 0} (m n : ℕ) (xs : List A) → take m xs ++ take n (drop m xs) ≡ take (m + n) xs
take-add zero n xs = ap (λ k. take k xs) omega arith
take-add (suc m) zero [] = sym (take-nil (suc m + 0))
take-add (suc m) (suc n) [] = sym (take-nil (suc m + suc n))
take-add (suc m) n (x ∷ xs) =
    let same : suc (m + n) ≡ suc m + n = omega arith in
    ap (λ r. x ∷ r) (take-add m n xs) ∙ ap (λ k. take k (x ∷ xs)) same

pub take-all : {A : Type 0} (n : ℕ) (xs : List A) → length xs ≤ n → take n xs ≡ xs
take-all zero [] h = refl
take-all (suc n) [] h = refl
take-all zero (x ∷ xs) h = absurd (omega arith)
take-all (suc n) (x ∷ xs) h = ap (λ r. x ∷ r) (take-all n xs (omega arith))

pages-take : {A : Type 0} (n limit : ℕ) (docs : List A) → pages n limit docs ≡ take (n * limit) docs
unfolding calculate_skip
pages-take zero limit docs = let same : 0 ≡ 0 * limit = omega arith in ap (λ k. take k docs) same
pages-take (suc n) limit docs =
    ap (λ ps. ps ++ take limit (drop (n * limit) docs)) (pages-take n limit docs)
    ∙ take-add (n * limit) limit docs
    ∙ ap (λ k. take k docs) omega arith

-- Enough pages for `total`.
enough : (l total : ℕ) → total ≤ (total / suc l + (if total % suc l == 0 then 0 else 1)) * suc l
enough l total =
    let split = mod-add-div' total (suc l) in
    let small = mod-lt total {m = suc l} (omega arith) in ground (arith, split, small)

-- The last of the pages is not empty.
needed : (l total : ℕ) → (total / suc l + (if total % suc l == 0 then 0 else 1)) * suc l ≤ total + l
needed l total =
    let split = mod-add-div' total (suc l) in
    let small = mod-lt total {m = suc l} (omega arith) in ground (arith, split, small)

-- The pages from the first to the last, whose number is what `calculateTotalPages` returns, are all
-- the documents, each once and in their order; and there is no page too many: all pages but the last
-- hold fewer documents than there are.
pub pages-total :
    {A : Type 0} (limit : ℕ) (docs : List A)
    → 1 ≤ limit
    → (n : ℕ) × (calculate_total_pages limit (length docs) ≡ integer (pos n))
      × (pages n limit docs ≡ docs)
      × (n * limit + 1 ≤ length docs + limit)
unfolding calculate_total_pages
pages-total zero docs h = absurd (omega arith)
pages-total (suc l) docs h =
    let total = length docs in
    let n = total / suc l + (if total % suc l == 0 then 0 else 1) in
    let none_spare = needed l total in
    (
      n,
      refl,
      pages-take n (suc l) docs ∙ take-all (n * suc l) docs (enough l total),
      omega (arith, none_spare),
    )
