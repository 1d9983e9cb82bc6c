-- ===== src/Prelude/Num.antt =====
-- Python's floats and the database's decimals, as a type with the operations that the program
-- uses. The laws are those of finite IEEE doubles that the proofs need; none says that a
-- sum or a product is exact. `-0.0` and `0.0` are one number, as they are for `==`.
use Prim.Native.Nat.{ℕ}
use mathlib.Core.Path.{◌≡◌}
use mathlib.Core.Bool.{Bool, true}

pub record Float : Type 1 where
  pub Num : Type 0
  pub zero : Num
  pub one : Num
  pub add : Num → Num → Num
  pub sub : Num → Num → Num
  pub mul : Num → Num → Num
  pub div : Num → Num → Num
  pub of_nat : ℕ → Num
  -- `a <= b`
  pub leq : Num → Num → Bool
  pub zero_le_one : leq zero one ≡ true
  pub leq_refl : (a : Num) → leq a a ≡ true
  pub leq_trans : (a b c : Num) → leq a b ≡ true → leq b c ≡ true → leq a c ≡ true
  -- `a + x * 0.0 == a` and `x * 1.0 == x`
  pub add-mul_zero : (a x : Num) → add a (mul x zero) ≡ a
  pub mul_one : (x : Num) → mul x one ≡ x
  -- Rounding keeps the order.
  pub add_mono : (a x y : Num) → leq x y ≡ true → leq (add a x) (add a y) ≡ true
  pub mul_mono : (x f g : Num) → leq zero x ≡ true → leq f g ≡ true → leq (mul x f) (mul x g) ≡ true
  pub sub_nonneg : (a b : Num) → leq a b ≡ true → leq zero (sub b a) ≡ true
