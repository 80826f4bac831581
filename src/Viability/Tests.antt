-- ===== src/Viability/Tests.antt =====
-- A few recommendations.
use spare_part.Base.{none, ◌≡◌, refl, some}
use spare_part.Base.Int.{pos, ◌*ℤ◌}
use spare_part.Viability.Service.{decide, replace, repair}

-- Above 70 percent a part is kept that fails after 480 hours.
rare_failures : decide (pos 80, pos 1) 3 (some 480) ≡ repair
unfolding decide ◌*ℤ◌
rare_failures = refl

-- A part without a mean time that was repaired four times is replaced above half of its price.
many_repairs : decide (pos 60, pos 1) 4 none ≡ replace
unfolding decide ◌*ℤ◌
many_repairs = refl
