-- ===== src/Base/Trimming.antt =====
-- Trimmed texts, and trimming after spaces have been replaced.
use nestjs_microservice_boil.Base.{
  refl, [], map, ◌≡◌, Bool-cases, ap, arith, false, if◌then◌else◌, ◌==◌, ◌∙◌, inl, ◌∷◌, inr,
}
use nestjs_microservice_boil.Base.Strings.{
  Text, is_space, trim_start, trim_end, keep_before, trim, underscores,
}
use Prim.Native.Nat.{ℕ}

abbrev underscore : ℕ → ℕ
underscore c = if c == 0x20 then 0x5f else c

abbrev StartsInk : Text → Type 0
StartsInk [] = Unit
StartsInk (x ∷ s) = is_space x ≡ false

underscore-ink : (c : ℕ) → is_space c ≡ false → is_space (underscore c) ≡ false
unfolding is_space
underscore-ink c h = ground arith

trim_start-StartsInk : (s : Text) → StartsInk (trim_start s)
trim_start-StartsInk [] = tt
trim_start-StartsInk (x ∷ s) = elim (Bool-cases (is_space x)) [
  | inl e ↦ rw e (trim_start-StartsInk s)
  | inr e ↦ rw e e
]

trim_start_of_StartsInk : (s : Text) → StartsInk s → trim_start s ≡ s
trim_start_of_StartsInk [] h = refl
trim_start_of_StartsInk (x ∷ s) h = rw h refl

keep_before-StartsInk : (x : ℕ) (t : Text) → is_space x ≡ false → StartsInk (keep_before x t)
keep_before-StartsInk x [] h = rw h h
keep_before-StartsInk x (y ∷ t) h = h

trim_end-StartsInk : (s : Text) → StartsInk s → StartsInk (trim_end s)
trim_end-StartsInk [] h = tt
trim_end-StartsInk (x ∷ s) h = keep_before-StartsInk x (trim_end s) h

map-StartsInk : (s : Text) → StartsInk s → StartsInk (map underscore s)
map-StartsInk [] h = tt
map-StartsInk (x ∷ s) h = underscore-ink x h

trim_end-keep_before :
    (x : ℕ) (t : Text)
    → trim_end (map underscore t) ≡ map underscore t
    → trim_end (map underscore (keep_before x t)) ≡ map underscore (keep_before x t)
trim_end-keep_before x [] h = elim (Bool-cases (is_space x)) [
  | inl e ↦ rw e refl
  | inr e ↦ rw e (rw (underscore-ink x e) refl)
]
trim_end-keep_before x (y ∷ t) h = ap (keep_before (underscore x)) h

trim_end-underscores :
    (s : Text) → trim_end (map underscore (trim_end s)) ≡ map underscore (trim_end s)
trim_end-underscores [] = refl
trim_end-underscores (x ∷ s) = trim_end-keep_before x (trim_end s) (trim_end-underscores s)

-- Replacing the spaces inside a trimmed text gives a trimmed text.
pub trim-underscores-trim : (s : Text) → trim (underscores (trim s)) ≡ underscores (trim s)
unfolding trim underscores
trim-underscores-trim s =
    let t = trim_end (trim_start s) in
    ap trim_end (
      trim_start_of_StartsInk (map underscore t)
        (map-StartsInk t (trim_end-StartsInk (trim_start s) (trim_start-StartsInk s))))
    ∙ trim_end-underscores (trim_start s)

underscore-underscore : (c : ℕ) → underscore (underscore c) ≡ underscore c
underscore-underscore c = ground arith

pub underscores-underscores : (s : Text) → underscores (underscores s) ≡ underscores s
unfolding underscores
underscores-underscores [] = refl
underscores-underscores (x ∷ s) = λ i. underscore-underscore x i ∷ underscores-underscores s i

trim_end-keep : (x : ℕ) (t : Text) → trim_end t ≡ t → trim_end (keep_before x t) ≡ keep_before x t
trim_end-keep x [] h = elim (Bool-cases (is_space x)) [
  | inl e ↦ rw e refl
  | inr e ↦ rw e (rw e refl)
]
trim_end-keep x (y ∷ t) h = ap (keep_before x) h

trim_end-trim_end : (s : Text) → trim_end (trim_end s) ≡ trim_end s
trim_end-trim_end [] = refl
trim_end-trim_end (x ∷ s) = trim_end-keep x (trim_end s) (trim_end-trim_end s)

pub trim-trim : (s : Text) → trim (trim s) ≡ trim s
unfolding trim
trim-trim s =
    let t = trim_start s in
    ap trim_end
      (trim_start_of_StartsInk (trim_end t) (trim_end-StartsInk t (trim_start-StartsInk s)))
    ∙ trim_end-trim_end t
