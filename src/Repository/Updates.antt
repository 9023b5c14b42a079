-- ===== src/Repository/Updates.antt =====
-- What the use cases on birds rely on in `updateOne` and `findById`.
use nestjs_microservice_boil.Base.{
  ℕ, Text, ◌≡◌, Bool, true, false, Option, none, some, if◌then◌else◌,
}
use nestjs_microservice_boil.Exception.{ok}
use nestjs_microservice_boil.Entity.{Stamps, Nullish, value, undefined, assign_stamps}
use nestjs_microservice_boil.Repository.{Repository, by_id}

-- A document has no date of deletion.
abbrev pub has_no_date : Nullish ℕ → Bool
has_no_date (value _) = false
has_no_date _ = true

abbrev pub is_live : Stamps → Bool
is_live s = has_no_date s.deleted_at

-- The time of the last update is among the fields of a document.
abbrev pub is_given : Nullish ℕ → Bool
is_given undefined = false
is_given _ = true

-- What is left of `old` after an update with `e`: TypeORM passes over a field that is `undefined`.
abbrev pub after_update : {E : Type 0} → (E → Stamps) → (Stamps → E → E) → (old e : E) → E
after_update stamps with_stamps old e = with_stamps (assign_stamps (stamps old) (stamps e)) e

-- What a search shows of a document.
abbrev pub shown : {E : Type 0} → (E → Stamps) → E → Option E
shown stamps e = if is_live (stamps e) then some e else none

abbrev pub visible : {E : Type 0} → (E → Stamps) → Option E → Option E
visible stamps none = none
visible stamps (some e) = shown stamps e

-- A document that is found has the id that was asked for. After an update of a document that is
-- there, by an entity that gives every field but perhaps dates, a search by its id finds the
-- entity, with the old dates for those that it does not give, unless it has a date of deletion
-- then. The date of the last update is given, as TypeORM would put the time of the call there.
pub record UpdateLaws {D E : Type 0} (id : E → Text) (stamps : E → Stamps)
    (with_stamps : Stamps → E → E) (repository : Repository D E) : Type 0 where
  pub find_by_id-id :
      (key : Text) (e : E) (d : D) → repository.find_by_id key d ≡ ok (some e) → id e ≡ key
  pub find_by_id-update_one :
      (key : Text) (old e : E) (d d' : D)
      → repository.find_by_id key d ≡ ok (some old)
      → id e ≡ key
      → is_given (stamps e).updated_at ≡ true
      → repository.update_one (by_id key) (some e) d ≡ (ok tt, d')
      → repository.find_by_id key d' ≡ ok (shown stamps (after_update stamps with_stamps old e))
