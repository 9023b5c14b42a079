-- ===== src/Store/Filter/Keys.antt =====
-- What `flattenKeys` leaves alone.
use nestjs_microservice_boil.Base.{
  ◌==◌, codes, Text, Bool, true, false, List, [], ◌∷◌, ◌++◌, Option, none, some, if◌then◌else◌,
  truthy, ◌≡◌, refl, arith, ◌===◌, ===_iff, ===_sound, Bool-cases, inl, inr, includes, any-append,
  ap, sym, ◌∙◌,
}
use nestjs_microservice_boil.Value.{
  Value, null, bool, number, text, opaque, array, object, Fields, end, field, get, set,
}
use nestjs_microservice_boil.Value.Paths.{get-set}
use nestjs_microservice_boil.Store.Filter.{full_key, flatten_keys, flatten_value}

abbrev pub is_dotted : Text → Bool
is_dotted = includes 0x2e

pub full_key-dotted :
    (prefix key : Text) → truthy prefix ≡ true → is_dotted (full_key prefix key) ≡ true
unfolding full_key
full_key-dotted [] key h = cc
full_key-dotted (c ∷ prefix) key h =
    ground (arith, any-append (λ x. nestjs_microservice_boil.Base.◌==◌ x 0x2e) prefix (0x2e ∷ key))

pub truthy_of_dotted : (s : Text) → is_dotted s ≡ true → truthy s ≡ true
truthy_of_dotted [] h = h
truthy_of_dotted (c ∷ s) h = refl

-- A key with a dot is not one without.
pub dotted-ne : (s q : Text) → is_dotted s ≡ true → is_dotted q ≡ false → (s === q) ≡ false
dotted-ne s q h k = elim (Bool-cases (s === q)) [
  | inl e ↦ let same = ===_sound s q e in ground (arith, ap is_dotted same)
  | inr e ↦ e
]

module _ (q : Text) (undotted : is_dotted q ≡ false) where
  mutual
    unfolding flatten_keys flatten_value

    -- Nothing below a key reaches a key without a dot.
    pub get-flatten_below :
        (fs target : Fields) (prefix : Text)
        → truthy prefix ≡ true
        → get q (flatten_keys fs target prefix) ≡ get q target
    get-flatten_below end target prefix h = refl
    get-flatten_below (field key v fs) target prefix h =
        get-flatten_below fs (flatten_value v target (full_key prefix key)) prefix h
        ∙ get-flatten_value v target (full_key prefix key) (full_key-dotted prefix key h)

    get-flatten_value :
        (v : Value) (target : Fields) (key : Text)
        → is_dotted key ≡ true
        → get q (flatten_value v target key) ≡ get q target
    get-flatten_value (object fs) target key h =
        get-flatten_below fs target key (truthy_of_dotted key h)
    get-flatten_value (opaque o) target key h = refl
    get-flatten_value null target key h = rw (get-set q key null target, dotted-ne key q h undotted)
    get-flatten_value (bool b) target key h =
        rw (get-set q key (bool b) target, dotted-ne key q h undotted)
    get-flatten_value (number x) target key h =
        rw (get-set q key (number x) target, dotted-ne key q h undotted)
    get-flatten_value (text s) target key h =
        rw (get-set q key (text s) target, dotted-ne key q h undotted)
    get-flatten_value (array xs) target key h =
        rw (get-set q key (array xs) target, dotted-ne key q h undotted)

-- A value that `flattenKeys` stores as it is.
abbrev pub is_leaf : Value → Bool
is_leaf (object _) = false
is_leaf (opaque _) = false
is_leaf _ = true

pub flatten_leaf :
    (v : Value) (target : Fields) (key : Text)
    → is_leaf v ≡ true
    → flatten_value v target key ≡ set key v target
unfolding flatten_value
flatten_leaf (object fs) target key h = cc
flatten_leaf (opaque o) target key h = cc
flatten_leaf null target key h = refl
flatten_leaf (bool b) target key h = refl
flatten_leaf (number x) target key h = refl
flatten_leaf (text s) target key h = refl
flatten_leaf (array xs) target key h = refl

-- A value under one key does not change another key without a dot.
pub get-flatten_other :
    (q : Text) (v : Value) (target : Fields) (c : _) (key : Text)
    → is_dotted q ≡ false
    → (c ∷ key === q) ≡ false
    → get q (flatten_value v target (c ∷ key)) ≡ get q target
unfolding flatten_value
get-flatten_other q (object fs) target c key u h = get-flatten_below q u fs target (c ∷ key) refl
get-flatten_other q (opaque o) target c key u h = refl
get-flatten_other q null target c key u h = rw (get-set q (c ∷ key) null target, h)
get-flatten_other q (bool b) target c key u h = rw (get-set q (c ∷ key) (bool b) target, h)
get-flatten_other q (number x) target c key u h = rw (get-set q (c ∷ key) (number x) target, h)
get-flatten_other q (text s) target c key u h = rw (get-set q (c ∷ key) (text s) target, h)
get-flatten_other q (array xs) target c key u h = rw (get-set q (c ∷ key) (array xs) target, h)

pub no_empty_key : (v : Value) (fs : Fields) → get [] (field [] v fs) ≡ none → ⊥
unfolding get ◌===◌
no_empty_key v fs h = cc

-- Each entry of a key holds one value; an object has one entry.
abbrev pub OnlyIs : Text → Value → Fields → Type 0
OnlyIs q v end = Unit
OnlyIs q v (field key w fs) = ((key === q) ≡ true → w ≡ v) × OnlyIs q v fs
