-- ===== src/Time/Tests.antt =====
-- The ticker at concrete values. (code/include/rdb/common/time.h)
use mw_study.Prelude.{◌≡◌, refl, true, false, [], ◌∷◌}
use mw_study.Time.{new, sleep_until_next, ticks}
use mw_study.Time.Rate.{Paced, ticks-Paced}

-- A period of 10: the third round is late and sets a new base.
ticks_run :
    ticks (3 ∷ 11 ∷ 37 ∷ 40 ∷ []) (new 10 0) ≡ (new 10 47, false ∷ false ∷ true ∷ false ∷ [])
unfolding ticks sleep_until_next new
ticks_run = refl

ticks-Paced_example :
    Paced (3 ∷ 11 ∷ 37 ∷ 40 ∷ []) (new 10 0) (ticks (3 ∷ 11 ∷ 37 ∷ 40 ∷ []) (new 10 0))
ticks-Paced_example = ticks-Paced (3 ∷ 11 ∷ 37 ∷ 40 ∷ []) (new 10 0)
