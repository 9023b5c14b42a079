-- ===== src/Listing/Allowed.antt =====
-- What a decorated method can be asked.
use nestjs_microservice_boil.Base.{
  ◌∙◌, Bool-cases, codes, refl, ◌⊎◌, HasKeyIn, All-put, put, lookup, Option-cases, All, Text, true,
  Option, none, some, List, [], ◌∷◌, any, map, ◌===◌, ◌≡◌, arith, inl, inr, ===_refl,
}
use mathlib.Core.Path.{subst}
use nestjs_microservice_boil.Exception.{ok, bind-eq-ok, Exception, err, Result}
use nestjs_microservice_boil.Query.{SearchValue}
use nestjs_microservice_boil.Store.Page.{SortOrder}
use nestjs_microservice_boil.Store.Postgres.{Where}
use nestjs_microservice_boil.Listing.{
  AllowedSort, AllowedFilter, Conversions, pick_sort, pick_filters, filter_conditions,
  filter_operand, wanted, sort_target, filter_target, PaginationInput, check_keys, convert_typeorm,
  validate_sort, Exec, filter_name, sort_name, or_else,
}
use nestjs_microservice_boil.Exec.Chain.{lift-ok, lift-err}
use nestjs_microservice_boil.Exec.{World}
use nestjs_microservice_boil.Listing.Decorators.{convert_typeorm_filter, validate_sort_allowed}

-- `subset`: the keys of the rest of a list are keys of the list.
abbrev Within : List Text → List Text → Type 0
Within small keys =
    (key : Text) → any (λ k. k === key) small ≡ true → any (λ k. k === key) keys ≡ true

Within-rest : (k : Text) (small keys : List Text) → Within (k ∷ small) keys → Within small keys
Within-rest k small keys h key e = h key (ground (arith, e))

Within-head :
    (k : Text) (small keys : List Text) → Within (k ∷ small) keys → any (λ j. j === k) keys ≡ true
Within-head k small keys h = h k (ground (arith, ===_refl k))

pick_sort-HasKeyIn :
    (keys : List Text) (allowed : List AllowedSort) (asked sort : List (Text × SortOrder))
    → Within (map sort_target allowed) keys
    → All (HasKeyIn keys) sort
    → All (HasKeyIn keys) (pick_sort allowed asked sort)
unfolding pick_sort
pick_sort-HasKeyIn keys [] asked sort h k = k
pick_sort-HasKeyIn keys (a ∷ allowed) asked sort h k =
    let rest = Within-rest (sort_target a) (map sort_target allowed) keys h in
    elim (Option-cases (lookup a.name asked)) [
      | inl e ↦ rw e (pick_sort-HasKeyIn keys allowed asked sort rest k)
      | inr (o, e) ↦ rw e (
          pick_sort-HasKeyIn keys allowed asked (put (sort_target a) o sort) rest (
            All-put keys (sort_target a) o sort
              (Within-head (sort_target a) (map sort_target allowed) keys h) k))
    ]

module _ (conversions : Conversions) where
  filter_conditions-HasKeyIn :
      (keys : List Text) (a : AllowedFilter) (v : Option SearchValue) (old new : Where)
      → any (λ k. k === filter_target conversions a) keys ≡ true
      → All (HasKeyIn keys) old
      → filter_conditions conversions a v old ≡ ok new
      → All (HasKeyIn keys) new
  filter_conditions-HasKeyIn keys a none old new h k q =
      subst (All (HasKeyIn keys)) (ground (arith, q)) k
  filter_conditions-HasKeyIn keys a (some v) old new h k q =
      let target = filter_target conversions a in
      let (operand, made, same) =
        bind-eq-ok (filter_operand conversions a.search_type a.format v)
          (λ operand. ok (put target operand old)) q in
      subst (All (HasKeyIn keys)) (ground (arith, same)) (All-put keys target operand old h k)

  pick_filters-HasKeyIn :
      (keys : List Text) (allowed : List AllowedFilter) (asked : List (Text × SearchValue))
      (old new : Where)
      → Within (map (filter_target conversions) allowed) keys
      → All (HasKeyIn keys) old
      → pick_filters conversions allowed asked old ≡ ok new
      → All (HasKeyIn keys) new
  unfolding pick_filters
  pick_filters-HasKeyIn keys [] asked old new h k q =
      subst (All (HasKeyIn keys)) (ground (arith, q)) k
  pick_filters-HasKeyIn keys (a ∷ allowed) asked old new h k q =
      let target = filter_target conversions a in
      let targets = map (filter_target conversions) allowed in
      let v = wanted conversions (lookup a.name asked) in
      let (added, one, two) =
        bind-eq-ok (filter_conditions conversions a v old)
          (λ added. pick_filters conversions allowed asked added) q in
      pick_filters-HasKeyIn keys allowed asked added new (Within-rest target targets keys h)
        (filter_conditions-HasKeyIn keys a v old added (Within-head target targets keys h) k one)
        two

check_keys-HasKeyIn {ℓ} :
    {V : Type ℓ} (word : Text) (names shown : List Text) (entries : List (Text × V))
    → check_keys word names shown entries ≡ ok tt
    → All (HasKeyIn names) entries
unfolding check_keys
check_keys-HasKeyIn word names shown [] h = tt
check_keys-HasKeyIn word names shown ((key, v) ∷ entries) h =
    elim (Bool-cases (any (λ n. n === key) names)) [
      | inl e ↦ (e, check_keys-HasKeyIn word names shown entries (ground (arith, e, h)))
      | inr e ↦ absurd (ground (arith, e, h))
    ]

validate_sort-HasKeyIn :
    (allowed : List AllowedSort) (asked sort : List (Text × SortOrder))
    → validate_sort allowed asked ≡ ok sort
    → All (HasKeyIn (map sort_name allowed)) asked × All (HasKeyIn (map sort_target allowed)) sort
unfolding validate_sort
validate_sort-HasKeyIn allowed asked sort h =
    let names = map sort_name allowed in
    let shown = map (λ (_ : AllowedSort). codes "[object Object]") allowed in
    let (_, passed, made) =
      bind-eq-ok (check_keys (codes "sort ") names shown asked)
        (λ _. ok (pick_sort allowed asked [])) h in
    (
      check_keys-HasKeyIn (codes "sort ") names shown asked passed,
      subst (All (HasKeyIn (map sort_target allowed))) (ground (arith, made))
          (pick_sort-HasKeyIn (map sort_target allowed) allowed asked [] (λ key e. e) tt),
    )

convert_typeorm-HasKeyIn :
    (conversions : Conversions) (allowed : List AllowedFilter) (asked : List (Text × SearchValue))
    (conditions : Where)
    → convert_typeorm conversions allowed asked ≡ ok conditions
    → All (HasKeyIn (map (filter_name conversions) allowed)) asked
      × All (HasKeyIn (map (filter_target conversions) allowed)) conditions
unfolding convert_typeorm
convert_typeorm-HasKeyIn conversions allowed asked conditions h =
    let names = map (filter_name conversions) allowed in
    let (_, passed, made) =
      bind-eq-ok (check_keys (codes "filter ") names names asked)
        (λ _. pick_filters conversions allowed asked []) h in
    (
      check_keys-HasKeyIn (codes "filter ") names names asked passed,
      pick_filters-HasKeyIn conversions (map (filter_target conversions) allowed) allowed asked []
          conditions (λ key e. e) tt made,
    )

module _ {D A : Type 0} (conversions : Conversions) (filters : List AllowedFilter)
    (sorts : List AllowedSort) (method : PaginationInput Where → Exec D A)
    (input : PaginationInput (List (Text × SearchValue))) (w : World D) where
  abbrev pub decorated : Exec D A
  decorated = convert_typeorm_filter conversions filters (validate_sort_allowed sorts method) input

  -- What the method is called with, where it is called.
  abbrev pub IsPermitted : PaginationInput Where → Type 0
  IsPermitted inner =
      (conditions : Where) × (inner.search ≡ some conditions)
      × All (HasKeyIn (map (filter_target conversions) filters)) conditions
      × All (HasKeyIn (map sort_target sorts)) inner.sort
      × All (HasKeyIn (map (filter_name conversions) filters)) (or_else [] input.search)
      × All (HasKeyIn (map sort_name sorts)) input.sort
      × (inner.page ≡ input.page)
      × (inner.limit ≡ input.limit)

  decided :
      (c : Result Where) (s : Result (List (Text × SortOrder)))
      → convert_typeorm conversions filters (or_else [] input.search) ≡ c
      → validate_sort sorts input.sort ≡ s
      → ((e : Exception) × (decorated w ≡ (err e, w)))
        ⊎ ((inner : PaginationInput Where) × (decorated w ≡ method inner w) × IsPermitted inner)
  unfolding convert_typeorm_filter validate_sort_allowed
  decided (err e) s p q =
      inl (e, lift-err (convert_typeorm conversions filters (or_else [] input.search)) _ w e p)
  decided (ok conditions) (err e) p q = inl (
    e,
    lift-ok (convert_typeorm conversions filters (or_else [] input.search)) _ w conditions p
        ∙ lift-err (validate_sort sorts input.sort) _ w e q,
  )
  decided (ok conditions) (ok sort) p q =
      let (asked, kept) =
        convert_typeorm-HasKeyIn conversions filters (or_else [] input.search) conditions p in
      let (wished, sorted) = validate_sort-HasKeyIn sorts input.sort sort q in
      inr (
        record { page = input.page; limit = input.limit; sort = sort; search = some conditions },
        lift-ok (convert_typeorm conversions filters (or_else [] input.search)) _ w conditions p
            ∙ lift-ok (validate_sort sorts input.sort) _ w sort q,
        (conditions, refl, kept, sorted, asked, wished, refl, refl),
      )

  -- The decorators in the other order.
  abbrev pub decorated_sort_first : Exec D A
  decorated_sort_first =
      validate_sort_allowed sorts (convert_typeorm_filter conversions filters method) input

  decided_sort_first :
      (c : Result Where) (s : Result (List (Text × SortOrder)))
      → convert_typeorm conversions filters (or_else [] input.search) ≡ c
      → validate_sort sorts input.sort ≡ s
      → ((e : Exception) × (decorated_sort_first w ≡ (err e, w)))
        ⊎ ((inner : PaginationInput Where) × (decorated_sort_first w ≡ method inner w)
            × IsPermitted inner)
  unfolding convert_typeorm_filter validate_sort_allowed
  decided_sort_first c (err e) p q = inl (e, lift-err (validate_sort sorts input.sort) _ w e q)
  decided_sort_first (err e) (ok sort) p q = inl (
    e,
    lift-ok (validate_sort sorts input.sort) _ w sort q
        ∙ lift-err (convert_typeorm conversions filters (or_else [] input.search)) _ w e p,
  )
  decided_sort_first (ok conditions) (ok sort) p q =
      let (asked, kept) =
        convert_typeorm-HasKeyIn conversions filters (or_else [] input.search) conditions p in
      let (wished, sorted) = validate_sort-HasKeyIn sorts input.sort sort q in
      inr (
        record { page = input.page; limit = input.limit; sort = sort; search = some conditions },
        lift-ok (validate_sort sorts input.sort) _ w sort q
            ∙ lift-ok (convert_typeorm conversions filters (or_else [] input.search)) _ w conditions
                p,
        (conditions, refl, kept, sorted, asked, wished, refl, refl),
      )

  -- Whatever is asked for, the decorated `paginate` throws and has done nothing, or it runs the
  -- method for the same page, with conditions on the columns of the allowed filters only and
  -- orders of the columns of the allowed sort fields only; and then each field that was asked for
  -- was one of the allowed ones.
  pub decorated-IsPermitted :
      ((e : Exception) × (decorated w ≡ (err e, w)))
      ⊎ ((inner : PaginationInput Where) × (decorated w ≡ method inner w) × IsPermitted inner)
  decorated-IsPermitted =
      decided (convert_typeorm conversions filters (or_else [] input.search))
        (validate_sort sorts input.sort) refl refl

  -- The same, for the other order of the decorators.
  pub decorated_sort_first-IsPermitted :
      ((e : Exception) × (decorated_sort_first w ≡ (err e, w)))
      ⊎ ((inner : PaginationInput Where) × (decorated_sort_first w ≡ method inner w)
          × IsPermitted inner)
  decorated_sort_first-IsPermitted =
      decided_sort_first (convert_typeorm conversions filters (or_else [] input.search))
        (validate_sort sorts input.sort) refl refl
