-- ===== src/Identifier/Laws.antt =====
-- The length and the characters of a `nanoid`.
use nestjs_microservice_boil.Base.{
  ap, ℕ, zero, suc, Text, true, List, [], ◌∷◌, ◌++◌, ◌%◌, ◌≡◌, ◌≤◌, ◌<◌, length, All, includes,
  arith, refl,
}
use native.Mathlib.Nat.{mod-lt}
use nestjs_microservice_boil.Identifier.{nanoid, nanoid_loop, char_at}

char_at_lem :
    (s : Text) (i : ℕ) → i < length s → (c : ℕ) × (char_at s i ≡ c ∷ []) × (includes c s ≡ true)
char_at_lem [] i h = absurd (omega arith)
char_at_lem (c ∷ s) zero h = (c, refl, ground arith)
char_at_lem (c ∷ s) (suc i) h =
    let (d, e, k) = char_at_lem s i (omega arith) in (d, e, ground (arith, k))

nanoid_loop_lem :
    (alphabet : Text) (bytes : List ℕ)
    → 1 ≤ length alphabet
    → (length (nanoid_loop alphabet bytes) ≡ length bytes)
      × All (λ c. includes c alphabet ≡ true) (nanoid_loop alphabet bytes)
unfolding nanoid_loop
nanoid_loop_lem alphabet [] h = (refl, tt)
nanoid_loop_lem alphabet (byte ∷ bytes) h =
    let (c, e, k) =
      char_at_lem alphabet (byte % length alphabet)
        (mod-lt byte {m = length alphabet} (omega arith)) in
    let (n, all) = nanoid_loop_lem alphabet bytes h in rw e (ap suc n, (k, all))

-- Between its prefix and its suffix a `nanoid` has one character for each byte that was drawn, each
-- of them one of the alphabet, if the alphabet is not empty.
nanoid_lem :
    (prefix suffix alphabet : Text) (bytes : List ℕ)
    → 1 ≤ length alphabet
    → (id : Text) × (nanoid prefix suffix alphabet bytes ≡ prefix ++ id ++ suffix)
      × (length id ≡ length bytes)
      × All (λ c. includes c alphabet ≡ true) id
unfolding nanoid
nanoid_lem prefix suffix alphabet bytes h =
    let (n, all) = nanoid_loop_lem alphabet bytes h in (nanoid_loop alphabet bytes, refl, n, all)
