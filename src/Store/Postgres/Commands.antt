-- ===== src/Store/Postgres/Commands.antt =====
-- The search by commands of infra/repository/postgres/repository.ts, as the SQL that it writes.
pub mod Laws
use nestjs_microservice_boil.Base.{
  find, put, codes, Text, Option, List, [], ◌∷◌, ◌++◌, map, join, ◌===◌, if◌then◌else◌,
}
use nestjs_microservice_boil.Exec.{Exec, query}
use nestjs_microservice_boil.Value.{Value}
use nestjs_microservice_boil.Store.Commands.{
  Operation, equal, not_equal, not_contains, contains, OperationCommand,
}
use nestjs_microservice_boil.Store.Postgres.{Operand, raw, Where, only_where, TypeOrm}

-- a value between two marks
abbrev pub between : Text → Text → Text
between mark v = mark ++ v ++ mark

module _ (to_string : Value → Text) where
  -- `postgresSearch[command].query(value)`, for an alias
  unfoldable pub sql : Operation → List Value → (alias : Text) → Text
  sql equal value alias =
      alias ++ codes " ILIKE ANY ('{" ++ join (codes ", ") (map to_string value) ++ codes "}')"
  sql not_equal value alias =
      alias
      ++ codes " NOT ILIKE ALL (ARRAY["
      ++ join (codes ", ") (map (λ v. between (codes "'") (to_string v)) value)
      ++ codes "])"
  sql not_contains value alias =
      alias
      ++ codes " NOT ILIKE ALL (ARRAY["
      ++ join (codes ", ")
          (map (λ v. between (codes "'") (between (codes "%") (to_string v))) value)
      ++ codes "])"
  sql contains value alias =
      alias
      ++ codes " ILIKE ANY ('{"
      ++ join (codes ", ") (map (λ v. between (codes "%") (to_string v)) value)
      ++ codes "}')"

  -- the loop that fills `searchList`
  unfoldable pub search_where : List OperationCommand → Where → Where
  unfolding sql
  search_where [] conditions = conditions
  search_where (c ∷ filter_list) conditions =
      search_where filter_list (put c.property (raw (sql c.command c.value) []) conditions)

  module _ {D E : Type 0} (orm : TypeOrm D E) where
    unfoldable pub find_by_commands : List OperationCommand → Exec D (List E)
    unfolding search_where
    find_by_commands filter_list = query (orm.find (only_where (search_where filter_list [])))

    unfoldable pub find_one_by_commands : List OperationCommand → Exec D (Option E)
    unfolding search_where
    find_one_by_commands filter_list =
        query (orm.find_one (only_where (search_where filter_list [])))
