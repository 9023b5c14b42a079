-- ===== src/Query/Crashes.antt =====
-- A parameter that passes both refinements, and on which the transformation throws.
use nestjs_microservice_boil.Base.{
  put, codes, Text, Bool, true, not, some, List, [], ◌∷◌, truthy, includes, split, any, ◌≡◌, refl,
  ap, arith, Bool-cases, inl, inr, ◌⊎◌,
}
use nestjs_microservice_boil.Base.Splitting.{split-absent}
use nestjs_microservice_boil.Exception.{ok, err, foreign}
use nestjs_microservice_boil.Query.{
  is_format, is_valued, is_ordered, SearchValue, SortValue, search_http_schema, search_entries,
  search_entry, put_own, sort_http_schema, sort_entries, sort_entry, sort_transform, type_error,
  includes_text,
}

-- A part of the text that has no colon.
abbrev pub lacks_colon : Text → Bool
lacks_colon part = not (includes 0x3a part)

search_entry-cases :
    (parts : List Text)
    → (search_entry parts ≡ err (foreign type_error))
      ⊎ ((e : Text × SearchValue) × (search_entry parts ≡ ok e))
search_entry-cases [] = inl refl
search_entry-cases (_ ∷ []) = inl refl
search_entry-cases (field ∷ value ∷ _) = inr (_, refl)

sort_entry-cases :
    (lower : Text → Text) (parts : List Text)
    → (sort_entry lower parts ≡ err (foreign type_error))
      ⊎ ((e : Text × SortValue) × (sort_entry lower parts ≡ ok e))
sort_entry-cases lower [] = inl refl
sort_entry-cases lower (_ ∷ []) = inl refl
sort_entry-cases lower (field ∷ value ∷ _) = inr (_, refl)

search_entries-crash :
    (parts : List Text) (entries : List (Text × SearchValue))
    → any lacks_colon parts ≡ true
    → search_entries parts entries ≡ err (foreign type_error)
unfolding search_entries
search_entries-crash [] entries h = absurd (ground (arith, h))
search_entries-crash (s ∷ parts) entries h = elim (search_entry-cases (split 0x3a s)) [
  | inl e ↦ rw e refl
  | inr (x, e) ↦ rw e (elim (Bool-cases (includes 0x3a s)) [
    | inl c ↦ search_entries-crash parts (put_own x.0 x.1 entries) (ground (arith, c, h))
    | inr c ↦ absurd (ground (arith, e, ap search_entry (split-absent 0x3a s c)))
  ])
]

sort_entries-crash :
    (lower : Text → Text) (parts : List Text) (entries : List (Text × SortValue))
    → any lacks_colon parts ≡ true
    → sort_entries lower parts entries ≡ err (foreign type_error)
unfolding sort_entries
sort_entries-crash lower [] entries h = absurd (ground (arith, h))
sort_entries-crash lower (s ∷ parts) entries h = elim (sort_entry-cases lower (split 0x3a s)) [
  | inl e ↦ rw e refl
  | inr (x, e) ↦ rw e (elim (Bool-cases (includes 0x3a s)) [
    | inl c ↦ sort_entries-crash lower parts (put x.0 x.1 entries) (ground (arith, c, h))
    | inr c ↦ absurd (ground (arith, e, ap (sort_entry lower) (split-absent 0x3a s c)))
  ])
]

truthy_of_format : (s : Text) → is_format s ≡ true → truthy s ≡ true
truthy_of_format [] h = absurd (ground (arith, h))
truthy_of_format (c ∷ s) h = refl

-- A text that passes the refinements of both schemas, and has a part with no colon, is not refused:
-- either schema throws the runtime's TypeError on it.
pub schemas-crash :
    (lower : Text → Text) (s : Text)
    → is_format s ≡ true
    → is_valued s ≡ true
    → is_ordered lower s ≡ true
    → any lacks_colon (split 0x2c s) ≡ true
    → (search_http_schema (some s) ≡ err (foreign type_error))
      × (sort_http_schema lower (some s) ≡ err (foreign type_error))
unfolding search_http_schema sort_http_schema sort_transform
schemas-crash lower s f v o h =
    let t = truthy_of_format s f in
    (
      rw (t, f, v) (rw (search_entries-crash (split 0x2c s) [] h) refl),
      elim (Bool-cases (not (includes_text (codes "createdAt") s))) [
        | inl b ↦ rw (t, f, o, b) (sort_entries-crash lower (split 0x2c s) [] h)
        | inr b ↦ rw (t, f, o, b, t) (sort_entries-crash lower (split 0x2c s) [] h)
      ],
    )
