-- ===== src/Float/Fixed.antt =====
-- A value of the float interface for tests: thousandths, as integers, with `/` and `sqrt` rounded
-- towards 0.
use seismograph.Prelude.{
  some, negate, ℕ, zero, suc, ◌*◌, ◌/◌, List, [], ◌∷◌, leb, arith, if◌then◌else◌,
}
use seismograph.Prelude.Int.{pos_part, ℤ, pos, negsuc, ◌+ℤ◌, ◌-ℤ◌, ltb_ℤ}
use seismograph.Float.{Float, FloatLaws}

abbrev pub scale : ℕ
scale = 1000

abbrev negative : ℕ → ℤ
negative zero = pos 0
negative (suc n) = negsuc n

abbrev scaled_mul : ℤ → ℤ → ℤ
scaled_mul (pos a) (pos b) = pos (a * b / scale)
scaled_mul (pos a) (negsuc b) = negative (a * suc b / scale)
scaled_mul (negsuc a) (pos b) = negative (suc a * b / scale)
scaled_mul (negsuc a) (negsuc b) = pos (suc a * suc b / scale)

abbrev scaled_div : ℤ → ℤ → ℤ
scaled_div (pos a) (pos b) = pos (a * scale / b)
scaled_div (pos a) (negsuc b) = negative (a * scale / suc b)
scaled_div (negsuc a) (pos b) = negative (suc a * scale / b)
scaled_div (negsuc a) (negsuc b) = pos (suc a * scale / suc b)

-- the greatest root that fits, counted up on fuel
abbrev root_from : ℕ → ℕ → ℕ → ℕ
root_from zero r n = r
root_from (suc f) r n =
    let rest = root_from f (suc r) n in if leb (suc r * suc r) n then rest else r

abbrev scaled_sqrt : ℤ → ℤ
scaled_sqrt (pos n) = pos (root_from 3000 0 (n * scale))
scaled_sqrt (negsuc n) = pos 0

abbrev scaled_total : List ℤ → ℤ
scaled_total [] = pos 0
scaled_total (x ∷ xs) = x +ℤ scaled_total xs

abbrev pub fixed : Float
fixed = record {
  Value = ℤ;
  lit = λ n d. pos (n * scale / d);
  add = ◌+ℤ◌;
  sub = ◌-ℤ◌;
  mul = scaled_mul;
  div = scaled_div;
  square = λ x. some (scaled_mul x x);
  sqrt = scaled_sqrt;
  total = scaled_total;
  round = λ x n. x;
  truncate = λ x. some (pos_part x / scale);
  ltb = ltb_ℤ;
  leb = λ x y. negate (ltb_ℤ y x);
}

pub fixed-FloatLaws : FloatLaws fixed
fixed-FloatLaws = record {
  lt_irrefl = λ a. ground arith;
  lt_asym = λ a b h. ground arith;
  zero_lt_one = ground arith;
}
