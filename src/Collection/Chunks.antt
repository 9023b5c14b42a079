-- ===== src/Collection/Chunks.antt =====
-- `chunk` cuts an array into pieces and loses nothing.
use nestjs_microservice_boil.Base.{
  ℕ, zero, suc, Bool, true, false, List, [], ◌∷◌, ◌++◌, ◌+◌, ◌-◌, ◌%◌, ◌==◌, ◌≡◌, ◌<◌, refl, arith,
  if◌then◌else◌, take, drop, length, ap, sym, ◌∙◌, Bool-cases, inl, inr, ◌⊎◌,
}
use mathlib.Core.List.{append_assoc, append-nil}
use native.Mathlib.Nat.{zero-mod, mod-lt, suc-mod, mod_self, mod-eq_of_lt}
use nestjs_microservice_boil.Exception.{ok}
use nestjs_microservice_boil.Collection.{chunk, chunk_from, chunk_step}
use nestjs_microservice_boil.Pagination.Laws.{take-add, take-all}

-- How far the pieces reach once the indices below `i` are done: to the next multiple of the size.
abbrev reach : ℕ → ℕ → ℕ
reach s i = i + (if i % suc s == 0 then 0 else suc s - i % suc s)

mod-suc_cases :
    (s i : ℕ)
    → ((i % suc s < s) × (suc i % suc s ≡ suc (i % suc s)))
      ⊎ ((i % suc s ≡ s) × (suc i % suc s ≡ 0))
mod-suc_cases s i = elim (Bool-cases (i % suc s == s)) [
  | inl e ↦
      let full : i % suc s ≡ s = ground (arith, e) in
      inr (full, suc-mod i (suc s) ∙ ap (λ m. suc m % suc s) full ∙ mod_self (suc s))
  | inr e ↦
      let small = mod-lt i {m = suc s} (omega arith) in
      let less : i % suc s < s = ground (arith, e, small) in
      inl (less, suc-mod i (suc s) ∙ mod-eq_of_lt {n = suc (i % suc s)} {m = suc s} (omega arith))
]

reach-zero : (s i : ℕ) → i % suc s ≡ 0 → reach s i ≡ i
reach-zero s i e = ground (arith, e)

reach-suc_zero : (s i : ℕ) → i % suc s ≡ 0 → reach s (suc i) ≡ i + suc s
reach-suc_zero s i e = ground (arith, mod-suc_cases s i)

reach-suc : (s i : ℕ) → 0 < i % suc s → reach s (suc i) ≡ reach s i
reach-suc s i h = ground (arith, mod-suc_cases s i)

module _ {A : Type 0} where
  abbrev concat : List (List A) → List A
  concat [] = []
  concat (xs ∷ xss) = xs ++ concat xss

  concat-append : (xss yss : List (List A)) → concat (xss ++ yss) ≡ concat xss ++ concat yss
  concat-append [] yss = refl
  concat-append (xs ∷ xss) yss =
      ap (λ r. xs ++ r) (concat-append xss yss) ∙ sym (append_assoc xs (concat xss) (concat yss))

  chunk_step-reach :
      (s i : ℕ) (arr : List A) (chunks : List (List A)) (first : Bool)
      → (i % suc s == 0) ≡ first
      → concat chunks ≡ take (reach s i) arr
      → concat (chunk_step arr (suc s) chunks i) ≡ take (reach s (suc i)) arr
  chunk_step-reach s i arr chunks true e h =
      let start : i % suc s ≡ 0 = ground (arith, e) in
      let whole : concat chunks ≡ take i arr = h ∙ ap (λ n. take n arr) (reach-zero s i start) in
      rw (e, reach-suc_zero s i start)
        (concat-append chunks (take (suc s) (drop i arr) ∷ [])
          ∙ ap (λ r. concat chunks ++ r) (append-nil (take (suc s) (drop i arr)))
          ∙ ap (λ r. r ++ take (suc s) (drop i arr)) whole
          ∙ take-add i (suc s) arr)
  chunk_step-reach s i arr chunks false e h =
      let later : 0 < i % suc s = ground (arith, e) in
      rw e (h ∙ ap (λ n. take n arr) (sym (reach-suc s i later)))

  concat-chunk_from :
      (s i : ℕ) (arr rest : List A) (chunks : List (List A))
      → concat chunks ≡ take (reach s i) arr
      → length arr ≡ i + length rest
      → concat (chunk_from arr (suc s) chunks i rest) ≡ arr
  concat-chunk_from s i arr [] chunks h k = h ∙ take-all (reach s i) arr omega arith
  concat-chunk_from s i arr (x ∷ rest) chunks h k =
      concat-chunk_from s (suc i) arr rest (chunk_step arr (suc s) chunks i)
        (chunk_step-reach s i arr chunks (i % suc s == 0) refl h) (omega arith)

  -- The pieces of `chunk`, one after the other, are the array.
  concat-chunk :
      (arr : List A) (size : ℕ) (chunks : List (List A))
      → chunk arr size ≡ ok chunks
      → concat chunks ≡ arr
  unfolding chunk
  concat-chunk arr zero chunks h = absurd (ground arith)
  concat-chunk arr (suc s) chunks h =
      let start : [] ≡ take (reach s 0) arr =
        ap (λ n. take n arr) (sym (reach-zero s 0 (zero-mod (suc s)))) in
      let whole : concat (chunk_from arr (suc s) [] 0 arr) ≡ arr =
        concat-chunk_from s 0 arr arr [] start omega arith in
      ground (arith, whole)
