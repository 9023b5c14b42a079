-- ===== src/Query/Printing.antt =====
-- Query parameters that are written out and read again.
use nestjs_microservice_boil.Base.{
  put, Bool-cases, inl, inr, ◌==◌, codes, ℕ, Text, Bool, true, false, not, ◌&&◌, ◌||◌, Option, none,
  some, List, [], ◌∷◌, ◌++◌, map, truthy, includes, starts_with, split, trim, every, join, ◌===◌,
  if◌then◌else◌, All, ◌≡◌, refl, ap, sym, ◌∙◌, arith, any-append,
}
use mathlib.Core.Path.{subst}
use mathlib.Core.List.{append-nil, append_assoc}
use nestjs_microservice_boil.Base.Splitting.{split-absent, split-append, split-join}
use nestjs_microservice_boil.Exception.{ok}
use nestjs_microservice_boil.Store.Page.{SortOrder, asc, desc}
use nestjs_microservice_boil.Query.{
  normalized, is_format, is_ordered, last_part, sort_entry, sort_entries, sort_http_schema,
  sort_transform, SortValue, order, sort_enum, includes_text,
}

abbrev pub comma : ℕ
comma = 0x2c

abbrev pub colon : ℕ
colon = 0x3a

abbrev pub piece : Text → Text → Text
piece field value = field ++ colon ∷ value

-- A text that stands in one piece.
abbrev pub IsPlain : Text → Type 0
IsPlain s = (includes comma s ≡ false) × (includes colon s ≡ false)

pub split-piece :
    (field value : Text)
    → IsPlain field
    → IsPlain value
    → split colon (piece field value) ≡ field ∷ value ∷ []
split-piece field value (_, f) (_, v) =
    split-append colon field value f ∙ ap (λ r. field ∷ r) (split-absent colon value v)

piece-IsWhole :
    (field value : Text)
    → IsPlain field
    → IsPlain value
    → includes comma (piece field value) ≡ false
piece-IsWhole field value (f, _) (v, _) =
    any-append (λ x. nestjs_microservice_boil.Base.◌==◌ x comma) field (colon ∷ value)
    ∙ ground (arith, f, v)

piece-format :
    (field value rest : Text)
    → IsPlain field
    → truthy field ≡ true
    → is_format (piece field value ++ rest) ≡ true
piece-format [] value rest p t = cc
piece-format (c ∷ field) value rest p t = ground (
  arith,
  any-append (λ x. nestjs_microservice_boil.Base.◌==◌ x colon) (field ++ colon ∷ value) rest,
  any-append (λ x. nestjs_microservice_boil.Base.◌==◌ x colon) field (colon ∷ value),
)

-- `field:value,field:value`, from entries with a text each
abbrev pub print_pieces : List (Text × Text) → Text
print_pieces entries = join (comma ∷ []) (map (λ (e : Text × Text). piece e.0 e.1) entries)

abbrev pub IsEntry : Text × Text → Type 0
IsEntry (field, value) = IsPlain field × IsPlain value × (truthy field ≡ true)

pieces-AreWhole :
    (entries : List (Text × Text))
    → All IsEntry entries
    → All (λ t. includes comma t ≡ false) (map (λ (e : Text × Text). piece e.0 e.1) entries)
pieces-AreWhole [] h = tt
pieces-AreWhole ((field, value) ∷ entries) ((f, v, t), h) =
    (piece-IsWhole field value f v, pieces-AreWhole entries h)

pub split-pieces :
    (e : Text × Text) (entries : List (Text × Text))
    → All IsEntry (e ∷ entries)
    → split comma (print_pieces (e ∷ entries))
      ≡ map (λ (x : Text × Text). piece x.0 x.1) (e ∷ entries)
split-pieces e entries h =
    split-join comma (piece e.0 e.1) (map (λ (x : Text × Text). piece x.0 x.1) entries)
      (pieces-AreWhole (e ∷ entries) h)

pub pieces-format :
    (e : Text × Text) (entries : List (Text × Text))
    → IsEntry e
    → is_format (print_pieces (e ∷ entries)) ≡ true
pieces-format (field, value) [] (f, v, t) =
    subst (λ s. is_format s ≡ true) (append-nil (piece field value))
      (piece-format field value [] f t)
pieces-format (field, value) (x ∷ entries) (f, v, t) =
    subst (λ s. is_format s ≡ true)
      (sym (append_assoc (piece field value) (comma ∷ []) (print_pieces (x ∷ entries))))
      (piece-format field value (comma ∷ print_pieces (x ∷ entries)) f t)

pub pieces-truthy :
    (e : Text × Text) (entries : List (Text × Text)) → truthy (print_pieces (e ∷ entries)) ≡ true
pieces-truthy ([], value) [] = refl
pieces-truthy ([], value) (x ∷ entries) = refl
pieces-truthy (c ∷ field, value) [] = refl
pieces-truthy (c ∷ field, value) (x ∷ entries) = refl

-- The entries of a list, put one after the other.
abbrev pub put_all {ℓ} : {V : Type ℓ} → List (Text × V) → List (Text × V) → List (Text × V)
put_all [] entries = entries
put_all ((k, v) ∷ rest) entries = put_all rest (put k v entries)

abbrev order_text : SortOrder → Text
order_text asc = codes "asc"
order_text desc = codes "desc"

abbrev sort_piece : Text × SortOrder → Text × Text
sort_piece (field, o) = (field, order_text o)

-- `sort` as a query parameter
abbrev pub print_sort : List (Text × SortOrder) → Text
print_sort sort = print_pieces (map sort_piece sort)

-- A field's name that can be written: no separator in it, and no blank around it.
abbrev pub IsName : Text → Type 0
IsName field = IsPlain field × (truthy field ≡ true) × (trim field ≡ field)

order_text-IsPlain : (o : SortOrder) → IsPlain (order_text o)
order_text-IsPlain asc = (refl, refl)
order_text-IsPlain desc = (refl, refl)

sort-AreEntries :
    (sort : List (Text × SortOrder))
    → All (λ (e : Text × SortOrder). IsName e.0) sort
    → All IsEntry (map sort_piece sort)
sort-AreEntries [] h = tt
sort-AreEntries ((field, o) ∷ sort) ((f, t, _), h) =
    ((f, order_text-IsPlain o, t), sort-AreEntries sort h)

is_order : (o : SortOrder) → (order_text o === codes "asc" || order_text o === codes "desc") ≡ true
unfolding ◌===◌
is_order asc = refl
is_order desc = refl

module _ (lower : Text → Text) (lower_asc : lower (codes "asc") ≡ codes "asc")
    (lower_desc : lower (codes "desc") ≡ codes "desc") where
  -- An order that was printed is read as it was.
  read_order :
      (o : SortOrder)
      → (normalized lower (order_text o) ≡ order_text o)
        × (sort_enum (normalized lower (order_text o)) ≡ order o)
  unfolding trim sort_enum ◌===◌
  read_order asc = (rw lower_asc refl, rw lower_asc refl)
  read_order desc = (rw lower_desc refl, rw lower_desc refl)

  sort_entry-piece :
      (field : Text) (o : SortOrder)
      → IsName field
      → sort_entry lower (split colon (piece field (order_text o))) ≡ ok (field, order o)
  sort_entry-piece field o (f, _, t) =
      ap (sort_entry lower) (split-piece field (order_text o) f (order_text-IsPlain o))
      ∙ ap (λ v. ok (trim field, v)) (read_order o).1
      ∙ ap (λ s. ok (s, order o)) t

  abbrev ordered : List (Text × SortOrder) → List (Text × SortValue)
  ordered [] = []
  ordered ((field, o) ∷ sort) = (field, order o) ∷ ordered sort

  abbrev sort_pieces : List (Text × SortOrder) → List Text
  sort_pieces sort = map (λ (e : Text × Text). piece e.0 e.1) (map sort_piece sort)

  sort_entries-pieces :
      (sort : List (Text × SortOrder)) (entries : List (Text × SortValue))
      → All (λ (e : Text × SortOrder). IsName e.0) sort
      → sort_entries lower (sort_pieces sort) entries ≡ ok (put_all (ordered sort) entries)
  unfolding sort_entries
  sort_entries-pieces [] entries h = refl
  sort_entries-pieces ((field, o) ∷ sort) entries (n, h) =
      rw (sort_entry-piece field o n) (sort_entries-pieces sort (put field (order o) entries) h)

  every-ordered :
      (sort : List (Text × SortOrder))
      → All (λ (e : Text × SortOrder). IsName e.0) sort
      → every
          (λ s. let o = normalized lower (last_part s) in o === codes "asc" || o === codes "desc")
          (sort_pieces sort)
        ≡ true
  every-ordered [] h = refl
  every-ordered ((field, o) ∷ sort) ((f, _, _), h) =
      rw (split-piece field (order_text o) f (order_text-IsPlain o), (read_order o).0)
        (ground (arith, is_order o, every-ordered sort h))

  accepted :
      (s : Text) (entries : List (Text × SortValue))
      → truthy s ≡ true
      → is_format s ≡ true
      → is_ordered lower s ≡ true
      → sort_entries lower (split comma s) [] ≡ ok entries
      → sort_http_schema lower (some s) ≡ ok entries
  unfolding sort_http_schema sort_transform
  accepted s entries t f o q = elim (Bool-cases (not (includes_text (codes "createdAt") s))) [
    | inl b ↦ rw (t, f, o, b) q
    | inr b ↦ rw (t, f, o, b, t) q
  ]

  -- Sort orders that are written as `field:order,field:order` are read back as they are, each as
  -- the order of its field; a field that is named again takes its last order. The fields hold no
  -- separator, are not empty and have no blank around them, and lower case leaves "asc" and "desc".
  pub sort_http_schema-print_sort :
      (e : Text × SortOrder) (sort : List (Text × SortOrder))
      → All (λ (x : Text × SortOrder). IsName x.0) (e ∷ sort)
      → sort_http_schema lower (some (print_sort (e ∷ sort))) ≡ ok (put_all (ordered (e ∷ sort)) [])
  sort_http_schema-print_sort e sort h =
      let entries = sort-AreEntries (e ∷ sort) h in
      let x = sort_piece e in
      let cut = split-pieces x (map sort_piece sort) entries in
      accepted (print_sort (e ∷ sort)) (put_all (ordered (e ∷ sort)) [])
        (pieces-truthy x (map sort_piece sort)) (pieces-format x (map sort_piece sort) entries.0)
        (ap
            (every λ s.
              let o = normalized lower (last_part s) in o === codes "asc" || o === codes "desc")
            cut
          ∙ every-ordered (e ∷ sort) h)
        (ap (λ parts. sort_entries lower parts []) cut ∙ sort_entries-pieces (e ∷ sort) [] h)
