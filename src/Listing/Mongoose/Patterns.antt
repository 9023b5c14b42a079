-- ===== src/Listing/Mongoose/Patterns.antt =====
-- The patterns of a search on cats.
use nestjs_microservice_boil.Base.{
  Bool-cases, inl, inr, ℕ, Text, if◌then◌else◌, ◌==◌, ◌++◌, ◌∷◌, [], ◌≡◌, ap, sym, ◌∙◌, refl, arith,
}
use mathlib.Core.List.{append_assoc}
use nestjs_microservice_boil.Listing.Mongoose.{
  replace_all, bracket, letters_a, letters_e, letters_i, letters_o, letters_c, letters_u,
  diacritic_sensitive_regex,
}

-- A letter that may have a mark, as the class of its forms; any other code unit as itself.
abbrev pub any_mark : ℕ → Text
any_mark c =
    if c == 0x61
    then bracket letters_a
    else if c == 0x65
    then bracket letters_e
    else if c == 0x69
    then bracket letters_i
    else if c == 0x6f
    then bracket letters_o
    else if c == 0x63
    then bracket letters_c
    else if c == 0x75
    then bracket letters_u
    else c ∷ []

abbrev pub any_marks : Text → Text
any_marks [] = []
any_marks (c ∷ s) = any_mark c ++ any_marks s

replace_all-append :
    (c : ℕ) (by s t : Text) → replace_all c by (s ++ t) ≡ replace_all c by s ++ replace_all c by t
unfolding replace_all
replace_all-append c by [] t = refl
replace_all-append c by (x ∷ s) t = elim (Bool-cases (x == c)) [
  | inl e ↦ rw e (
      ap (λ r. by ++ r) (replace_all-append c by s t)
      ∙ sym (append_assoc by (replace_all c by s) (replace_all c by t)))
  | inr e ↦ rw e (ap (λ r. x ∷ r) (replace_all-append c by s t))
]

-- A function that treats the parts of a text apart.
abbrev IsAdditive : (Text → Text) → Type 0
IsAdditive f = (s t : Text) → f (s ++ t) ≡ f s ++ f t

replace_all-IsAdditive :
    (c : ℕ) (by : Text) (f : Text → Text) → IsAdditive f → IsAdditive (λ s. replace_all c by (f s))
replace_all-IsAdditive c by f h s t =
    ap (replace_all c by) (h s t) ∙ replace_all-append c by (f s) (f t)

diacritic_sensitive_regex-IsAdditive : IsAdditive diacritic_sensitive_regex
unfolding diacritic_sensitive_regex
diacritic_sensitive_regex-IsAdditive =
    let a = λ (s : Text). replace_all 0x61 (bracket letters_a) s in
    let e = λ (s : Text). replace_all 0x65 (bracket letters_e) (a s) in
    let i = λ (s : Text). replace_all 0x69 (bracket letters_i) (e s) in
    let o = λ (s : Text). replace_all 0x6f (bracket letters_o) (i s) in
    let c = λ (s : Text). replace_all 0x63 (bracket letters_c) (o s) in
    replace_all-IsAdditive 0x75 (bracket letters_u) c (
      replace_all-IsAdditive 0x63 (bracket letters_c) o (
        replace_all-IsAdditive 0x6f (bracket letters_o) i (
          replace_all-IsAdditive 0x69 (bracket letters_i) e (
            replace_all-IsAdditive 0x65 (bracket letters_e) a
              (replace_all-append 0x61 (bracket letters_a))))))

diacritic_sensitive_regex-letter : (c : ℕ) → diacritic_sensitive_regex (c ∷ []) ≡ any_mark c
unfolding diacritic_sensitive_regex replace_all
diacritic_sensitive_regex-letter c = ground arith

-- The six replacements, one after the other, are one: each letter that may have a mark becomes the
-- class of its forms, and no later replacement touches what an earlier one has put there.
pub diacritic_sensitive_regex-any_marks : (s : Text) → diacritic_sensitive_regex s ≡ any_marks s
unfolding diacritic_sensitive_regex replace_all
diacritic_sensitive_regex-any_marks [] = refl
diacritic_sensitive_regex-any_marks (c ∷ s) =
    diacritic_sensitive_regex-IsAdditive (c ∷ []) s
    ∙ ap (λ r. r ++ diacritic_sensitive_regex s) (diacritic_sensitive_regex-letter c)
    ∙ ap (λ r. any_mark c ++ r) (diacritic_sensitive_regex-any_marks s)
