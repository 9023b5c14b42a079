-- ===== src/Base/Splitting.antt =====
-- `split` undoes `join`, where no piece has the separator.
use Prim.Native.Nat.{ℕ}
use mathlib.Core.Path.{◌≡◌, refl, ap, ◌∙◌}
use mathlib.Core.Bool.{false}
use mathlib.Core.List.{List, [], ◌∷◌, ◌++◌, append_assoc}
use native.Mathlib.Omega.{arith}
use nestjs_microservice_boil.Base.Lists.{All}
use nestjs_microservice_boil.Base.Strings.{Text, split, join, includes}

pub split-absent : (c : ℕ) (s : Text) → includes c s ≡ false → split c s ≡ s ∷ []
unfolding split
split-absent c [] h = refl
split-absent c (x ∷ s) h = ground (arith, split-absent c s)

pub split-append :
    (c : ℕ) (s t : Text) → includes c s ≡ false → split c (s ++ c ∷ t) ≡ s ∷ split c t
unfolding split
split-append c [] t h = ground arith
split-append c (x ∷ s) t h = ground (arith, split-append c s t)

pub split-join :
    (c : ℕ) (s : Text) (texts : List Text)
    → All (λ t. includes c t ≡ false) (s ∷ texts)
    → split c (join (c ∷ []) (s ∷ texts)) ≡ s ∷ texts
split-join c s [] (h, _) = split-absent c s h
split-join c s (t ∷ texts) (h, k) =
    ap (split c) (append_assoc s (c ∷ []) (join (c ∷ []) (t ∷ texts)))
    ∙ split-append c s (join (c ∷ []) (t ∷ texts)) h
    ∙ ap (λ r. s ∷ r) (split-join c t texts k)
