-- ===== src/Numbers/Sample.antt =====
-- Numbers to run the model with.
use factech.Base.{
  ℕ, ◌+◌, ◌-◌, ◌*◌, ◌/◌, pos, negsuc, leb, ltb, nat_beq, zero, suc, Bool, not, ◌&&◌, true, false,
  if◌then◌else◌, ℤ, int_beq,
}
use factech.Numbers.{Floats}

-- Numbers of millionths in place of doubles.
abbrev pub millionths : Floats ℕ
millionths = record {
  ratio = λ n d. n * 1000000 / d;
  of_int = λ n. elim n [ pos k ↦ k * 1000000 | negsuc k ↦ 0 ];
  add = λ x y. x + y;
  sub = λ x y. x - y;
  mul = λ x y. x * y / 1000000;
  abs = λ x. x;
  round = λ x digits. x;
  eq = λ x y. nat_beq x y;
  eq_int = λ x n. elim n [ pos k ↦ nat_beq x (k * 1000000) | negsuc k ↦ false ];
  le = λ x y. leb x y;
  lt = λ x y. ltb x y;
  neg = λ x. 0;
}

-- a - b
minus : ℕ → ℕ → ℤ
minus a b = if leb b a then pos (a - b) else negsuc (b - a - 1)

minus_of : ℤ → ℤ
minus_of (pos zero) = pos zero
minus_of (pos (suc n)) = negsuc n
minus_of (negsuc n) = pos (suc n)

plus : ℤ → ℤ → ℤ
plus (pos a) (pos b) = pos (a + b)
plus (pos a) (negsuc b) = minus a (b + 1)
plus (negsuc a) (pos b) = minus b (a + 1)
plus (negsuc a) (negsuc b) = negsuc (a + b + 1)

size_of : ℤ → ℕ
size_of (pos n) = n
size_of (negsuc n) = n + 1

times : ℤ → ℤ → ℤ
times (pos a) (pos b) = pos (a * b / 1000000)
times (pos a) (negsuc b) = minus_of (pos (a * (b + 1) / 1000000))
times (negsuc a) (pos b) = minus_of (pos ((a + 1) * b / 1000000))
times (negsuc a) (negsuc b) = pos ((a + 1) * (b + 1) / 1000000)

at_most : ℤ → ℤ → Bool
at_most (pos a) (pos b) = leb a b
at_most (pos a) (negsuc b) = false
at_most (negsuc a) (pos b) = true
at_most (negsuc a) (negsuc b) = leb b a

-- The same with a sign.
unfoldable pub signed : Floats ℤ
unfolding minus minus_of plus size_of times at_most
signed = record {
  ratio = λ n d. pos (n * 1000000 / d);
  of_int =
      λ n. elim n [ pos k ↦ pos (k * 1000000) | negsuc k ↦ minus_of (pos ((k + 1) * 1000000)) ];
  add = λ x y. plus x y;
  sub = λ x y. plus x (minus_of y);
  mul = λ x y. times x y;
  abs = λ x. pos (size_of x);
  round = λ x digits. x;
  eq = λ x y. int_beq x y;
  eq_int = λ x n. elim n [ pos k ↦ int_beq x (pos (k * 1000000)) | negsuc k ↦ false ];
  le = λ x y. at_most x y;
  lt = λ x y. at_most x y && not (int_beq x y);
  neg = λ x. minus_of x;
}
