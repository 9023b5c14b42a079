-- ===== src/Entity/Lifecycle.antt =====
-- The life cycle of an entity.
use nestjs_microservice_boil.Base.{ℕ, ◌≡◌, refl, true, false, not, arith}
use nestjs_microservice_boil.Entity.{Stamps, is_active, is_deleted, activate, deactivate}

-- Whatever its timestamps are, an entity answers `isActive` with true and `isDeleted` with false
-- once it has been deactivated, and the other way round once it has been activated: each answer is
-- the opposite of what its name says. The two answers are never the same.
pub status_inverted :
    (now : ℕ) (s : Stamps)
    → (is_active (deactivate now s) ≡ true)
      × (is_deleted (deactivate now s) ≡ false)
      × (is_active (activate s) ≡ false)
      × (is_deleted (activate s) ≡ true)
      × (is_deleted s ≡ not (is_active s))
unfolding is_active is_deleted activate deactivate
status_inverted now s = (refl, refl, refl, refl, ground arith)
