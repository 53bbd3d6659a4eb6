-- ===== src/Qos/Order.antt =====
-- The check of code/include/rdb/bus/qos.h against the Requested/Offered rule.
use mw_study.Prelude.{◌≡◌, ◌≢◌, ◌↔◌, arith}
use mw_study.Prelude.Int.{pos, ◌≤ℤ◌, ◌<ℤ◌}
use mw_study.Qos.{reliable, transient_local, Qos, compatible, check_compatible}

-- What is requested is offered: a guarantee that is asked for is given, and a period that is asked
-- for is promised and kept to.
pub record Offers (offered requested : Qos) : Type 0 where
  pub reliability : requested.reliability ≡ reliable → offered.reliability ≡ reliable
  pub durability : requested.durability ≡ transient_local → offered.durability ≡ transient_local
  pub deadline :
      pos 0 <ℤ requested.deadline
      → (offered.deadline ≢ pos 0) × (offered.deadline ≤ℤ requested.deadline)

-- `check_compatible` finds no mismatch exactly when all that is requested is offered.
pub check_compatible-Offers_iff :
    (offered requested : Qos)
    → (check_compatible offered requested ≡ compatible) ↔ Offers offered requested
unfolding check_compatible
check_compatible-Offers_iff offered requested = (λ e. ground arith, λ o. ground arith)

Offers-refl : (a : Qos) → Offers a a
Offers-refl a = record { reliability = λ e. e; durability = λ e. e; deadline = λ h. ground arith }

Offers-trans : {a b c : Qos} → pos 0 ≤ℤ b.deadline → Offers a b → Offers b c → Offers a c
Offers-trans {a} {b} {c} h p q = record {
  reliability = λ e. p.reliability (q.reliability e);
  durability = λ e. p.durability (q.durability e);
  deadline = λ k.
      let (ne, le) = q.deadline k in let (ne', le') = p.deadline (nonzero ne) in (ne', omega arith);
}
  where
    nonzero : b.deadline ≢ pos 0 → pos 0 <ℤ b.deadline
    nonzero ne = ground arith

-- Compatibility is an order of strength: a policy is compatible with itself; and if `a` is
-- compatible with `b` and `b` with `c`, and the deadline of `b` is not negative, `a` is compatible
-- with `c`.
pub check_compatible_preorder :
    (a b c : Qos)
    → pos 0 ≤ℤ b.deadline
    → (check_compatible a a ≡ compatible)
      × (check_compatible a b ≡ compatible
          → check_compatible b c ≡ compatible
          → check_compatible a c ≡ compatible)
check_compatible_preorder a b c h = (
  (check_compatible-Offers_iff a a).1 (Offers-refl a),
  λ p q. (check_compatible-Offers_iff a c).1 (
      Offers-trans h ((check_compatible-Offers_iff a b).0 p)
        ((check_compatible-Offers_iff b c).0 q)),
)
