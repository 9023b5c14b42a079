-- ===== src/Store/Page.antt =====
-- A request for a page and its answer: `PaginationInput` and `PaginationOutput` of
-- utils/pagination.ts, with the order of utils/sort.ts.
use nestjs_microservice_boil.Base.{ℕ, Text, Option, List}

-- `SortEnum`
pub data SortOrder : Type 0 where
  asc desc : SortOrder

-- `S` is what a search is, at the place where the request is handled.
pub record PaginationInput (S : Type 0) : Type 0 where
  pub page : ℕ
  pub limit : ℕ
  pub sort : List (Text × SortOrder)
  pub search : Option S

pub record PaginationOutput (E : Type 0) : Type 0 where
  pub docs : List E
  pub total : ℕ
  pub page : ℕ
  pub limit : ℕ
