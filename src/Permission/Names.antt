-- ===== src/Permission/Names.antt =====
-- Parsing a permission that has been parsed.
use nestjs_microservice_boil.Base.{
  ap, ◌∙◌, Option-cases, inl, inr, arith, Text, includes, ℕ, ◌≡◌, true, some,
}
use nestjs_microservice_boil.Platform.{Platform, CaseLaws}
use nestjs_microservice_boil.Entity.{construct, to_object}
use nestjs_microservice_boil.Permission.{
  normalize_name, parse, PermissionObject, PermissionEntity, ok, shape, object, empty, parse_id,
  parse_name,
}
use nestjs_microservice_boil.Platform.Names.{normalize_idempotent}
use nestjs_microservice_boil.Entity.Construct.{construct-parse}
use nestjs_microservice_boil.Exception.{data_of}

module _ (p : Platform) (laws : CaseLaws p.lower) where
  normalize_name-normalize_name :
      (s : Text) → normalize_name p (normalize_name p s) ≡ normalize_name p s
  unfolding normalize_name
  normalize_name-normalize_name s = normalize_idempotent laws s

  -- What the schema has accepted.
  pub record IsParsed (e : PermissionEntity) : Type 0 where
    pub id : p.is_uuid e.id ≡ true
    pub colon : includes b':' e.name ≡ true
    pub normal : normalize_name p e.name ≡ e.name

  parse_name-colon : (s t : Text) → parse_name p s ≡ ok t → includes b':' t ≡ true
  unfolding parse_name
  parse_name-colon s t h = ground arith

  parse_name-normal : (s t : Text) → parse_name p s ≡ ok t → normalize_name p t ≡ t
  unfolding parse_name
  parse_name-normal s t h =
      let e : normalize_name p s ≡ t = unfold normalize_name in ground arith in
      rw (← e) (normalize_name-normalize_name s)

  pub parse_id-uuid : (s t : Text) → parse_id p s ≡ ok t → p.is_uuid t ≡ true
  unfolding parse_id
  parse_id-uuid s t h = ground arith

  parse-IsParsed : (o : PermissionObject) (e : PermissionEntity) → parse p o ≡ ok e → IsParsed e
  unfolding parse
  parse-IsParsed o e h = elim (Option-cases o.id) [
    | inl q ↦ ground arith
    | inr (id, q) ↦ elim (Option-cases o.name) [
      | inl r ↦ ground arith
      | inr (name, r) ↦ record {
        id = ground (arith, parse_id-uuid id e.id);
        colon = ground (arith, parse_name-colon name e.name);
        normal = ground (arith, parse_name-normal name e.name);
      }
    ]
  ]

  -- The schema accepts what it has returned, and returns it again.
  IsParsed-parse : (e : PermissionEntity) → IsParsed e → parse p (object e) ≡ ok e
  unfolding parse parse_name parse_id
  IsParsed-parse e h = ground arith

  -- A permission that was just constructed is its own plain object: `toObject` is defined, and
  -- gives each field as it is.
  pub to_object-construct :
      (now : ℕ) (o : PermissionObject) (e : PermissionEntity)
      → construct (shape p) now o ≡ ok e
      → to_object (shape p) e ≡ some e
  unfolding to_object
  to_object-construct now o e h =
      let (parsed, q, same) = construct-parse (shape p) now o e h in
      let v = parse-IsParsed o parsed q in
      rw (← same)
        (ap data_of (IsParsed-parse _ (record { id = v.id; colon = v.colon; normal = v.normal })))

  -- What the schema has accepted it accepts again, whatever the timestamps, and gives back.
  pub parse-again :
      (o : PermissionObject) (e : PermissionEntity) → parse p o ≡ ok e → parse p (object e) ≡ ok e
  parse-again o e h = IsParsed-parse e (parse-IsParsed o e h)

  pub construct-again :
      (now : ℕ) (o : PermissionObject) (e : PermissionEntity)
      → construct (shape p) now o ≡ ok e
      → parse p (object e) ≡ ok e
  construct-again now o e h =
      let (parsed, q, same) = construct-parse (shape p) now o e h in
      let v = parse-IsParsed o parsed q in
      rw (← same) (IsParsed-parse _ (record { id = v.id; colon = v.colon; normal = v.normal }))

  parse-fields :
      (uuid name : Text) (e : PermissionEntity)
      → parse p (record empty { id = some uuid; name = some name }) ≡ ok e
      → (e.id ≡ uuid) × (e.name ≡ normalize_name p name)
  unfolding parse parse_id parse_name
  parse-fields uuid name e h = ground arith

  -- A permission that is constructed of an id and a normalised name alone has that id and that name.
  pub construct-fields :
      (now : ℕ) (uuid raw : Text) (e : PermissionEntity)
      → construct
          (shape p)
          now
          (record empty { id = some uuid; name = some (normalize_name p raw) })
        ≡ ok e
      → (e.id ≡ uuid) × (e.name ≡ normalize_name p raw)
  construct-fields now uuid raw e h =
      let (parsed, k, same) = construct-parse (shape p) now _ e h in
      let (a, b) = parse-fields uuid (normalize_name p raw) parsed k in
      rw (← same) (a, b ∙ normalize_name-normalize_name raw)
