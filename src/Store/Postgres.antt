-- ===== src/Store/Postgres.antt =====
-- infra/repository/postgres/repository.ts, over a TypeORM repository.
pub mod Commands
pub mod Port
use nestjs_microservice_boil.Base.{
  take, filter, join, put, codes, ℕ, Text, Bool, true, false, not, Option, none, some, List, [],
  ◌∷◌, map, truthy, ◌==◌, ◌===◌, if◌then◌else◌, any, ◌++◌,
}
use nestjs_microservice_boil.Exception.{api, internal_server, literal, Result}
use nestjs_microservice_boil.Exec.{Exec, pure, throw, query, command, ◌>>=◌, ◌>>◌}
use nestjs_microservice_boil.Number.{ℤ}
use nestjs_microservice_boil.Pagination.{calculate_skip}
use nestjs_microservice_boil.Repository.{CreatedModel}
use nestjs_microservice_boil.Value.{Value, null, text, Fields, end, field, get, set, assign}
use nestjs_microservice_boil.Store.{handle_database_error, try_catch}
use nestjs_microservice_boil.Store.Filter.{deleted_at, id_key}
use nestjs_microservice_boil.Store.Models.{UpdatedModel, RemovedModel, CreatedOrUpdateModel}
use nestjs_microservice_boil.Store.Document.{Join, whole, parts}
use nestjs_microservice_boil.Store.Page.{PaginationInput, PaginationOutput, SortOrder}

-- What a column is compared with: a value, or an operator of TypeORM.
pub data Operand : Type 0 where
  is : Value → Operand
  among : List Value → Operand
  is_null : Operand
  differs : Text → Operand
  raw : (sql : Text → Text) (parameters : List (Text × Text)) → Operand

abbrev pub Where : Type 0
Where = List (Text × Operand)

-- `FindOneOptions`; the conditions are alternatives, none of them where there is no condition.
-- An empty selection selects every column.
pub record FindOptions : Type 0 where
  pub where_any : List Where
  pub select : List Text
  pub relations : List Text

abbrev pub only_where : Where → FindOptions
only_where conditions = record { where_any = conditions ∷ []; select = []; relations = [] }

-- A `Repository` of TypeORM over rows `E`. `save` is `repository.create(o)` and then `save()`,
-- which answers `hasId()` and the id; `update` and `delete` answer the number of affected rows.
pub record TypeOrm (D E : Type 0) : Type 0 where
  pub find : FindOptions → D → Result (List E)
  pub find_one : FindOptions → D → Result (Option E)
  pub find_and_count :
      (take : ℕ) (skip : ℤ) → List (Text × SortOrder) → Where → D → Result (List E × ℕ)
  pub exists : Where → D → Result Bool
  pub save : Fields → D → Result (Bool × Text) × D
  pub insert : List Fields → D → Result (Unit {0}) × D
  pub update : Where → Fields → D → Result (Option ℕ) × D
  pub delete : Where → D → Result (Option ℕ) × D
  pub soft_remove : Fields → D → Result E × D
  -- the columns by their names in the database
  pub columns : List Text

-- an object as a condition
abbrev pub as_where : Fields → Where
as_where end = []
as_where (field key value fs) = (key, is value) ∷ as_where fs

-- `data.affected || 0`, and `!!data.affected`
abbrev pub affected : Option ℕ → ℕ
affected none = 0
affected (some n) = n

abbrev pub any_affected : Option ℕ → Bool
any_affected n = not (affected n == 0)

abbrev updated_model : Option ℕ → UpdatedModel
updated_model n = record {
  modified_count = affected n;
  upserted_count = 0;
  upserted_id = 0;
  matched_count = affected n;
  acknowledged = any_affected n;
}

-- `createRelations` of infra/repository/util.ts, by the keys that become `true`
unfoldable pub create_relations : List (Text × Join) → List Text
create_relations [] = []
create_relations ((key, join) ∷ joins) =
    let rest = create_relations joins in
    elim join [ whole b ↦ elim b [ true ↦ key ∷ rest | false ↦ rest ] | parts _ ↦ key ∷ rest ]

-- `excludeColumns`
unfoldable pub exclude_columns : List Text → List Text → List Text
exclude_columns [] excluded = []
exclude_columns (column ∷ columns) excluded =
    let rest = exclude_columns columns excluded in
    if any (λ e. e === column) excluded then rest else column ∷ rest

-- `where[key] = In(values)`, for each key
abbrev in_where : List (Text × List Value) → Where → Where
in_where [] conditions = conditions
in_where ((key, values) ∷ filter) conditions = in_where filter (put key (among values) conditions)

-- `documentEntity?.id`, a text, where it is not empty
abbrev given_id : Option Value → Option Text
given_id (some (text id)) = if truthy id then some id else none
given_id _ = none

module _ {D E : Type 0} (orm : TypeOrm D E) (row : E → Fields) where
  abbrev caught : {A : Type 0} → Exec D A → Exec D A
  caught m = try_catch m (λ error. throw (handle_database_error error))

  unfoldable pub apply_pagination : PaginationInput Where → Exec D (PaginationOutput E)
  apply_pagination input = do
    (docs, total) ← query (
        orm.find_and_count input.limit (calculate_skip input.page input.limit) input.sort
          (elim input.search [ none ↦ [] | some conditions ↦ conditions ]))
    pure (record { docs = docs; total = total; page = input.page; limit = input.limit })

  -- `deletedAt` is set on the array of alternatives, where TypeORM does not look.
  unfoldable pub find_or : List Text → Text → Exec D (List E)
  find_or property_list value = query (
      orm.find (record {
        where_any = map (λ property. (property, is (text value)) ∷ []) property_list;
        select = [];
        relations = [];
      }))

  unfoldable pub create : Fields → Exec D CreatedModel
  create document =
      caught
        do (has_id, id) ← command (orm.save document); pure (record { created = has_id; id = id })

  unfoldable pub find_by_id : Text → Exec D (Option E)
  find_by_id id = query (orm.find_one (only_where ((id_key, is (text id)) ∷ [])))

  unfoldable pub insert_many : List Fields → Exec D (Unit {0})
  insert_many documents = command (orm.insert documents)

  create_or_update_found : Fields → Text → Option E → Exec D CreatedOrUpdateModel
  create_or_update_found updated id none = do
    created ← create updated
    pure (record { id = created.id; created = true; updated = false })
  create_or_update_found updated id (some exists) = do
    n ← command (orm.update ((id_key, is (text id)) ∷ []) (assign (row exists) updated))
    pure (record { id = id; created = false; updated = any_affected n })

  -- The id of a row that is found is the id that was asked for.
  unfoldable pub create_or_update : Fields → Exec D CreatedOrUpdateModel
  unfolding create_or_update_found create find_by_id
  create_or_update updated = caught (elim (given_id (get id_key updated)) [
    | none ↦ throw (api internal_server (literal "id is required"))
    | some id ↦ do exists ← find_by_id id; create_or_update_found updated id exists
  ])

  unfoldable pub find_all : Exec D (List E)
  find_all = query (orm.find (record { where_any = []; select = []; relations = [] }))

  unfoldable pub find : Fields → Exec D (List E)
  find filter = query (orm.find (only_where (as_where (set deleted_at null filter))))

  unfoldable pub find_in : List (Text × List Value) → Exec D (List E)
  find_in filter = query (orm.find (only_where (in_where filter ((deleted_at, is_null) ∷ []))))

  unfoldable pub remove : Fields → Exec D RemovedModel
  remove filter = caught do
    n ← command (orm.delete (as_where filter))
    pure (record { deleted_count = affected n; deleted = any_affected n })

  unfoldable pub find_one : Fields → Exec D (Option E)
  find_one filter = query (orm.find_one (only_where (as_where filter)))

  unfoldable pub update_one : Fields → Fields → Exec D UpdatedModel
  update_one filter updated =
      caught
        do n ← command (orm.update (as_where filter) (assign end updated)); pure (updated_model n)

  unfoldable pub find_one_and_update : Fields → Fields → Exec D (Option E)
  unfolding find_one
  find_one_and_update filter updated = do
    command (orm.update (as_where filter) updated)
    find_one filter

  unfoldable pub update_many : Fields → Fields → Exec D UpdatedModel
  update_many filter updated =
      caught do n ← command (orm.update (as_where filter) updated); pure (updated_model n)

  unfoldable pub find_one_with_select_fields : Fields → List Text → Exec D (Option E)
  find_one_with_select_fields filter properties =
      query (orm.find_one (record (only_where (as_where filter)) { select = properties }))

  unfoldable pub find_all_with_select_fields : List Text → Fields → Exec D (List E)
  find_all_with_select_fields properties filter =
      query (orm.find (record (only_where (as_where filter)) { select = properties }))

  unfoldable pub find_one_with_exclude_fields : Fields → List Text → Exec D (Option E)
  find_one_with_exclude_fields filter properties = query (
      orm.find_one
        (record (only_where (as_where filter)) { select = exclude_columns orm.columns properties }))

  unfoldable pub find_all_with_exclude_fields : List Text → Fields → Exec D (List E)
  find_all_with_exclude_fields properties filter = query (
      orm.find
        (record (only_where (as_where filter)) { select = exclude_columns orm.columns properties }))

  unfoldable pub find_one_with_relation : Fields → List (Text × Join) → Exec D (Option E)
  find_one_with_relation filter joins =
      query (
        orm.find_one (record (only_where (as_where filter)) { relations = create_relations joins }))

  unfoldable pub find_all_with_relation : Fields → List (Text × Join) → Exec D (List E)
  find_all_with_relation filter joins = query (
      orm.find (record (only_where (as_where (assign (field deleted_at null end) filter))) {
        relations = create_relations joins;
      }))

  unfoldable pub exists : Fields → Exec D Bool
  exists filter = query (orm.exists (as_where filter))

  unfoldable pub exists_on_update : Fields → Text → Exec D Bool
  exists_on_update filter id = query (orm.exists (put id_key (differs id) (as_where filter)))

  unfoldable pub soft_remove : Fields → Exec D E
  soft_remove entity = command (orm.soft_remove entity)
