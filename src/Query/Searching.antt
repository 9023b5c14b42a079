-- ===== src/Query/Searching.antt =====
-- A search that is written out and read again, and a search on which the schema breaks.
use nestjs_microservice_boil.Base.{
  put, codes, ◌===◌, false, ◌==◌, any-append, ℕ, Text, true, some, List, [], ◌∷◌, ◌++◌, map, truthy,
  includes, split, trim, every, join, All, ◌≡◌, refl, ap, ◌∙◌, arith,
}
use nestjs_microservice_boil.Base.Splitting.{split-absent, split-join}
use nestjs_microservice_boil.Exception.{ok}
use nestjs_microservice_boil.Query.{
  is_format, is_valued, last_part, SearchValue, one, many, search_http_schema, search_entries,
  search_value, chosen_value,
}
use nestjs_microservice_boil.Query.Printing.{
  print_pieces, IsEntry, IsPlain, put_all, split-pieces, split-piece, pieces-format, pieces-truthy,
  comma, piece, colon,
}

abbrev bar : ℕ
bar = 0x7c

-- One value, and several, as they are written.
abbrev pub value_text : SearchValue → Text
value_text (one v) = v
value_text (many vs) = join (bar ∷ []) vs

-- A value that can be written: no separator in it, no blank around it, and not empty.
abbrev pub IsItem : Text → Type 0
IsItem v = IsPlain v × (includes bar v ≡ false) × (truthy v ≡ true) × (trim v ≡ v)

abbrev pub IsSearchValue : SearchValue → Type 0
IsSearchValue (one v) = IsItem v
IsSearchValue (many (v ∷ w ∷ vs)) = All IsItem (v ∷ w ∷ vs)
IsSearchValue (many _) = ⊥

items-AreWhole : (vs : List Text) → All IsItem vs → All (λ v. includes bar v ≡ false) vs
items-AreWhole [] h = tt
items-AreWhole (v ∷ vs) ((_, b, _, _), h) = (b, items-AreWhole vs h)

map-trim : (vs : List Text) → All IsItem vs → map trim vs ≡ vs
map-trim [] h = refl
map-trim (v ∷ vs) ((_, _, _, t), h) = ap (λ s. s ∷ map trim vs) t ∙ ap (λ r. v ∷ r) (map-trim vs h)

search_value-text : (v : SearchValue) → IsSearchValue v → search_value (value_text v) ≡ v
search_value-text (one v) (p, b, t, q) =
    ap (λ vs. chosen_value v (map trim vs)) (split-absent bar v b) ∙ ap one q
search_value-text (many []) h = absurd h
search_value-text (many (v ∷ [])) h = absurd h
search_value-text (many (v ∷ w ∷ vs)) h =
    let all = v ∷ w ∷ vs in
    let text = join (bar ∷ []) all in
    ap (λ cut. chosen_value text (map trim cut)) (split-join bar v (w ∷ vs) (items-AreWhole all h))
    ∙ ap (chosen_value text) (map-trim all h)

join-absent :
    (c : ℕ) (vs : List Text)
    → (c == bar) ≡ false
    → All (λ v. includes c v ≡ false) vs
    → includes c (join (bar ∷ []) vs) ≡ false
join-absent c [] n h = refl
join-absent c (v ∷ []) n (h, _) = h
join-absent c (v ∷ w ∷ vs) n (h, k) =
    let rest = join (bar ∷ []) (w ∷ vs) in
    ground (
      arith,
      n,
      h,
      join-absent c (w ∷ vs) n k,
      any-append (λ x. x == c) (v ++ bar ∷ []) rest,
      any-append (λ x. x == c) v (bar ∷ []),
    )

items-absent :
    (vs : List Text)
    → All IsItem vs
    → All (λ v. includes comma v ≡ false) vs × All (λ v. includes colon v ≡ false) vs
items-absent [] h = (tt, tt)
items-absent (v ∷ vs) (((c, d), _, _, _), h) =
    let (cs, ds) = items-absent vs h in ((c, cs), (d, ds))

truthy-append : (s t : Text) → truthy s ≡ true → truthy (s ++ t) ≡ true
truthy-append [] t h = absurd (ground (arith, h))
truthy-append (c ∷ s) t h = refl

value_text-IsPlain :
    (v : SearchValue) → IsSearchValue v → IsPlain (value_text v) × (truthy (value_text v) ≡ true)
value_text-IsPlain (one v) (p, _, t, _) = (p, t)
value_text-IsPlain (many []) h = absurd h
value_text-IsPlain (many (v ∷ [])) h = absurd h
value_text-IsPlain (many (v ∷ w ∷ vs)) h =
    let (cs, ds) = items-absent (v ∷ w ∷ vs) h in
    (
      (join-absent comma (v ∷ w ∷ vs) refl cs, join-absent colon (v ∷ w ∷ vs) refl ds),
      truthy-append (v ++ bar ∷ []) (join (bar ∷ []) (w ∷ vs)) (truthy-append v (bar ∷ []) h.0.2),
    )

-- A field's name that can be written in a search.
abbrev pub IsField : Text → Type 0
IsField field = IsPlain field × (truthy field ≡ true) × ((field === codes "__proto__") ≡ false)

abbrev pub IsWritable : Text × SearchValue → Type 0
IsWritable (field, value) = IsField field × IsSearchValue value

abbrev search_piece : Text × SearchValue → Text × Text
search_piece (field, value) = (field, value_text value)

-- `search` as a query parameter
abbrev pub print_search : List (Text × SearchValue) → Text
print_search search = print_pieces (map search_piece search)

search-AreEntries :
    (search : List (Text × SearchValue))
    → All IsWritable search
    → All IsEntry (map search_piece search)
search-AreEntries [] h = tt
search-AreEntries ((field, v) ∷ search) (((f, t, own), w), h) =
    ((f, (value_text-IsPlain v w).0, t), search-AreEntries search h)

abbrev search_pieces : List (Text × SearchValue) → List Text
search_pieces search = map (λ (e : Text × Text). piece e.0 e.1) (map search_piece search)

search_entries-pieces :
    (search entries : List (Text × SearchValue))
    → All IsWritable search
    → search_entries (search_pieces search) entries ≡ ok (put_all search entries)
unfolding search_entries
search_entries-pieces [] entries h = refl
search_entries-pieces ((field, v) ∷ search) entries (((f, t, own), w), h) =
    rw (split-piece field (value_text v) f (value_text-IsPlain v w).0, search_value-text v w, own)
      (search_entries-pieces search (put field v entries) h)

every-valued :
    (search : List (Text × SearchValue))
    → All IsWritable search
    → every (λ s. truthy (last_part s)) (search_pieces search) ≡ true
every-valued [] h = refl
every-valued ((field, v) ∷ search) (((f, t, own), w), h) =
    let (plain, full) = value_text-IsPlain v w in
    rw (split-piece field (value_text v) f plain) (ground (arith, full, every-valued search h))

read :
    (s : Text) (entries : List (Text × SearchValue))
    → truthy s ≡ true
    → is_format s ≡ true
    → is_valued s ≡ true
    → search_entries (split comma s) [] ≡ ok entries
    → search_http_schema (some s) ≡ ok (some entries)
unfolding search_http_schema
read s entries t f v q = rw (t, f, v, q) refl

-- A search that is written as `field:value,field:value|value` is read back as it is; a field that
-- is named again takes its last value. The fields and values hold no separator and are not empty,
-- no value has blanks around it, and no field is "__proto__".
pub search_http_schema-print_search :
    (e : Text × SearchValue) (search : List (Text × SearchValue))
    → All IsWritable (e ∷ search)
    → search_http_schema (some (print_search (e ∷ search))) ≡ ok (some (put_all (e ∷ search) []))
search_http_schema-print_search e search h =
    let entries = search-AreEntries (e ∷ search) h in
    let x = search_piece e in
    let cut = split-pieces x (map search_piece search) entries in
    read (print_search (e ∷ search)) (put_all (e ∷ search) [])
      (pieces-truthy x (map search_piece search))
      (pieces-format x (map search_piece search) entries.0)
      (ap (every λ s. truthy (last_part s)) cut ∙ every-valued (e ∷ search) h)
      (ap (λ parts. search_entries parts []) cut ∙ search_entries-pieces (e ∷ search) [] h)
