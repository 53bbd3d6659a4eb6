-- ===== src/Qos/Tests.antt =====
-- Runs of the QoS check (code/tests/test_qos.cpp has such cases) and instances of the theorems.
use mw_study.Prelude.{◌≡◌, ◌↔◌, refl, arith}
use mw_study.Prelude.Int.{pos}
use mw_study.Qos.{
  Qos, compatible, reliability_mismatch, durability_mismatch, deadline_mismatch, sensor_data,
  command, latched, default_qos, check_compatible, mismatch_to_string,
}
use mw_study.Qos.Order.{Offers, check_compatible-Offers_iff, check_compatible_preorder}

abbrev slow : Qos
slow = record default_qos { deadline = pos 200 }

abbrev fast : Qos
fast = record default_qos { deadline = pos 100 }

mismatches :
    (check_compatible (sensor_data 5) (command 32) ≡ reliability_mismatch)
    × (check_compatible (command 32) (latched 1) ≡ durability_mismatch)
    × (check_compatible slow fast ≡ deadline_mismatch)
    × (check_compatible default_qos fast ≡ deadline_mismatch)
    × (check_compatible fast slow ≡ compatible)
unfolding check_compatible sensor_data command latched
mismatches = (refl, refl, refl, refl, refl)

names : mismatch_to_string deadline_mismatch ≡ "deadline"
unfolding mismatch_to_string
names = refl

check_compatible-Offers_iff_example : (check_compatible slow fast ≡ compatible) ↔ Offers slow fast
check_compatible-Offers_iff_example = check_compatible-Offers_iff slow fast

check_compatible_preorder_example :
    (check_compatible fast fast ≡ compatible)
    × (check_compatible fast slow ≡ compatible
        → check_compatible slow default_qos ≡ compatible
        → check_compatible fast default_qos ≡ compatible)
check_compatible_preorder_example = check_compatible_preorder fast slow default_qos (omega arith)
