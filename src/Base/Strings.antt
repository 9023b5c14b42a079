-- ===== src/Base/Strings.antt =====
-- JavaScript strings as the list of their UTF-16 code units, and the string methods that the
-- program calls. A literal is written `codes "..."`; all of the program's literals are ASCII.
use Prim.Native.Nat.{ℕ}
use Prim.Native.Char.{code}
use Prim.Native.String.{String}
use mathlib.Core.Path.{◌≡◌, refl}
use mathlib.Core.Logic.{◌↔◌}
use mathlib.Core.Bool.{Bool, true, false, ◌&&◌, ◌||◌}
use mathlib.Core.List.{List, [], ◌∷◌, ◌++◌, map}
use native.Mathlib.Omega.{arith}
use nestjs_microservice_boil.Base.Tests.{leb, ◌==◌, if◌then◌else◌}
use nestjs_microservice_boil.Base.Lists.{any}

abbrev pub Text : Type 0
Text = List ℕ

abbrev pub codes : String → Text
codes String.[] = []
codes (String.◌∷◌ c s) = code c ∷ codes s

-- `===` on strings
infix 50 ◌===◌
unfoldable pub ◌===◌ : Text → Text → Bool
[] === [] = true
[] === (_ ∷ _) = false
(_ ∷ _) === [] = false
(x ∷ s) === (y ∷ t) = x == y && s === t

pub ===_sound : (s t : Text) → (s === t) ≡ true → s ≡ t
unfolding ◌===◌
===_sound [] [] h = refl
===_sound [] (y ∷ t) h = cc
===_sound (x ∷ s) [] h = cc
===_sound (x ∷ s) (y ∷ t) h = ground (arith, ===_sound s t)

pub ===_refl : (s : Text) → (s === s) ≡ true
unfolding ◌===◌
===_refl [] = refl
===_refl (x ∷ s) = ground (arith, ===_refl s)

===_complete : (s t : Text) → s ≡ t → (s === t) ≡ true
===_complete s t e = ground (arith, e, ===_refl s)

pub ===_iff : (s t : Text) → ((s === t) ≡ true) ↔ (s ≡ t)
===_iff s t = (===_sound s t, ===_complete s t)

-- the truth value of a string
abbrev pub truthy : Text → Bool
truthy [] = false
truthy (_ ∷ _) = true

-- `s.includes(c)` for a text of one code unit
abbrev pub includes : ℕ → Text → Bool
includes c = any (λ x. x == c)

abbrev pub starts_with : ℕ → Text → Bool
starts_with c [] = false
starts_with c (x ∷ _) = x == c

-- `s.split(c)` for a separator of one code unit
abbrev onto_first : ℕ → List Text → List Text
onto_first x [] = (x ∷ []) ∷ []
onto_first x (w ∷ ws) = (x ∷ w) ∷ ws

unfoldable pub split : ℕ → Text → List Text
split c [] = [] ∷ []
split c (x ∷ s) = let rest = split c s in if x == c then [] ∷ rest else onto_first x rest

-- The white space and line ends that `trim` removes.
unfoldable pub is_space : ℕ → Bool
is_space c =
    (leb 0x9 c && leb c 0xd)
    || c == 0x20
    || c == 0xa0
    || c == 0x1680
    || (leb 0x2000 c && leb c 0x200a)
    || c == 0x2028
    || c == 0x2029
    || c == 0x202f
    || c == 0x205f
    || c == 0x3000
    || c == 0xfeff

abbrev pub trim_start : Text → Text
trim_start [] = []
trim_start (x ∷ s) = let rest = trim_start s in if is_space x then rest else x ∷ s

abbrev pub keep_before : ℕ → Text → Text
keep_before x [] = if is_space x then [] else x ∷ []
keep_before x (y ∷ s) = x ∷ y ∷ s

abbrev pub trim_end : Text → Text
trim_end [] = []
trim_end (x ∷ s) = keep_before x (trim_end s)

unfoldable pub trim : Text → Text
unfolding is_space
trim s = trim_end (trim_start s)

-- `s.replace(/ /g, '_')`
unfoldable pub underscores : Text → Text
underscores s = map (λ c. if c == 0x20 then 0x5f else c) s

-- `texts.join(separator)`
abbrev pub join : Text → List Text → Text
join separator [] = []
join separator (s ∷ []) = s
join separator (s ∷ t ∷ texts) = s ++ separator ++ join separator (t ∷ texts)
