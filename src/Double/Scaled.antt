-- ===== src/Double/Scaled.antt =====
-- The laws of `IsOrdered` can be met, and the definitions run: whole ten-thousandths.
use ai_finance_controller.Common.{◌*◌, refl, arith}
use ai_finance_controller.Common.Int.{ℤ, pos, ◌+ℤ◌, ◌-ℤ◌, ◌*ℤ◌, floor_div, pos_part, leb_ℤ}
use ai_finance_controller.Double.{Double, IsOrdered}

instance abbrev pub scaled : Double ℤ
scaled = record {
  literal = pos;
  of_nat = λ n. pos (n * 10_000);
  add = ◌+ℤ◌;
  sub = ◌-ℤ◌;
  mul = λ x y. floor_div (x *ℤ y) 10_000;
  div = λ x y. floor_div (x *ℤ pos 10_000) (pos_part y);
  le = leb_ℤ;
  round4 = λ x. x;
}

pub scaled-IsOrdered : IsOrdered scaled
scaled-IsOrdered = record {
  le_trans = λ x y z h k. ground arith;
  le_total = λ x y h. ground arith;
  round4_mono = λ x y h. h;
  round4_literal = λ n. refl;
  literal_le = λ m n h. ground arith;
  literal_lt = λ m n h. ground arith;
}
