-- ===== src/Breaker/Keys.antt =====
-- Which calls share a breaker.
use nestjs_microservice_boil.Base.{
  ℕ, Text, false, [], ◌∷◌, ◌++◌, includes, ◌≡◌, refl, arith, sym, ◌∙◌,
}
use mathlib.Core.List.{append_assoc}
use nestjs_microservice_boil.Breaker.{instance_key}

-- What stands before the first separator, and after it.
cut :
    (c : ℕ) (s t a b : Text)
    → includes c s ≡ false
    → includes c t ≡ false
    → s ++ c ∷ a ≡ t ++ c ∷ b
    → (s ≡ t) × (a ≡ b)
cut c [] [] a b h k e = (refl, ground (arith, e))
cut c [] (y ∷ t) a b h k e = absurd (ground (arith, e, k))
cut c (x ∷ s) [] a b h k e = absurd (ground (arith, e, h))
cut c (x ∷ s) (y ∷ t) a b h k e = ground (arith, e, h, k, cut c s t a b)

-- Class and method names hold no ":", so two calls share a breaker only if their classes, their
-- methods and their groups are the same.
instance_key-injective :
    (c m g c' m' g' : Text)
    → includes 0x3a c ≡ false
    → includes 0x3a c' ≡ false
    → includes 0x3a m ≡ false
    → includes 0x3a m' ≡ false
    → instance_key c m g ≡ instance_key c' m' g'
    → (c ≡ c') × (m ≡ m') × (g ≡ g')
unfolding instance_key
instance_key-injective c m g c' m' g' h h' k k' e =
    let (one, rest) = cut 0x3a c c' (m ++ 0x3a ∷ g) (m' ++ 0x3a ∷ g') h h' (
      sym (append_assoc c (0x3a ∷ m) (0x3a ∷ g)) ∙ (e ∙ append_assoc c' (0x3a ∷ m') (0x3a ∷ g'))) in
    let (two, three) = cut 0x3a m m' g g' k k' rest in (one, two, three)
