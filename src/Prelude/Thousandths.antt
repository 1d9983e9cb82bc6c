-- ===== src/Prelude/Thousandths.antt =====
-- A number type for the tests: thousandths, rounded down, without negative numbers.
use Prim.Native.Nat.{ℕ, ◌+◌, ◌*◌, ◌-◌, ◌/◌, zero, suc, ◌≤◌}
use mathlib.Core.Path.{◌≡◌, refl}
use mathlib.Core.Path.{subst}
use mathlib.Core.Bool.{true}
use native.Mathlib.Omega.{arith}
use cpde_web.Prelude.Tests.{leb}
use cpde_web.Prelude.Num.{Float}

times : (x f d : ℕ) → x * f ≤ x * (f + d)
times zero f d = omega arith
times (suc x) f d = omega (arith, times x f d)

pub mono : (x f g : ℕ) → leb 0 x ≡ true → leb f g ≡ true → leb (x * f / 1000) (x * g / 1000) ≡ true
mono x f g p h =
    let e : f + (g - f) ≡ g = ground arith in
    let step = subst (λ k. x * f ≤ x * k) e (times x f (g - f)) in ground (arith, step)

abbrev pub thousandths : Float
thousandths = record {
  Num = ℕ;
  zero = 0;
  one = 1000;
  add = λ a b. a + b;
  sub = λ a b. a - b;
  mul = λ a b. a * b / 1000;
  div = λ a b. a * 1000 / b;
  of_nat = λ n. n * 1000;
  leq = leb;
  zero_le_one = refl;
  leq_refl = λ a. ground arith;
  leq_trans = λ a b c p q. ground arith;
  add-mul_zero = λ a x. ground arith;
  mul_one = λ x. ground arith;
  add_mono = λ a x y p. ground arith;
  mul_mono = mono;
  sub_nonneg = λ a b p. ground arith;
}
