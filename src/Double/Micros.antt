-- ===== src/Double/Micros.antt =====
-- A concrete arithmetic for the tests: nonnegative decimals, in millionths, with no rounding in sums.
use swarm_ros_bridge.Common.{
  ℕ, zero, suc, ◌+◌, ◌-◌, ◌*◌, ◌/◌, ◌%◌, ◌^◌, Bytes, ◌&&◌, [], ◌∷◌, Option, none, some, arith, ltb,
  leb, ◌==◌, le→leb, if◌then◌else◌, pos_part,
}
use swarm_ros_bridge.Double.{Double, IsOrdered, IsExact}

abbrev pub Micros : Type 0
Micros = ℕ

-- The decimal digits at the front of a text, as a value and their number.
abbrev read_digits : Bytes → ℕ → ℕ → ℕ × ℕ
read_digits [] v n = (v, n)
read_digits (c ∷ s) v n =
    let rest = read_digits s (v * 10 + (c - b'0')) (n + 1) in
    if leb b'0' c && leb c b'9' then rest else (v, n)

abbrev checked : ℕ × ℕ → Option (ℕ × ℕ)
checked (v, n) = if n == 0 then none else some (v * 1_000_000, n)

abbrev write_digits : ℕ → ℕ → Bytes → Bytes
write_digits zero n out = out
write_digits (suc f) n out =
    let rest = write_digits f (n / 10) ((b'0' + n % 10) ∷ out) in
    if ltb n 10 then (b'0' + n) ∷ out else rest

instance abbrev pub micros_double : Double Micros
micros_double = record {
  lit = λ m k. m * 1_000_000 / 10 ^ k;
  add = λ a b. a + b;
  sub = λ a b. a - b;
  mul = λ a b. a * b / 1_000_000;
  div = λ a b. if b == 0 then a * 1_000_000_000_000 else a * 1_000_000 / b;
  lt = ltb;
  le = leb;
  of_size = λ n. n * 1_000_000;
  of_int = λ z. pos_part z * 1_000_000;
  to_size = λ a. a / 1_000_000;
  of_nanos = λ n. n / 1000;
  to_nanos = λ a. a * 1000;
  stod = λ s. checked (read_digits s 0 0);
  show = λ a. write_digits 20 (a / 1_000_000) [];
}

pub Micros-IsOrdered : IsOrdered Micros
Micros-IsOrdered = record {
  le_refl = λ a. ground arith;
  le_trans = λ a b c p q. ground arith;
  le_of_lt = λ a b p. ground arith;
  le_of_not_lt = λ a b p. ground arith;
  not_lt_of_le = λ a b p. ground arith;
}

pub Micros-IsExact : IsExact Micros
Micros-IsExact = record {
  order = Micros-IsOrdered;
  add_assoc = λ a b c. omega arith;
  add_comm = λ a b. omega arith;
  add_mono = λ a b c p. ground arith;
  sub_add = λ a b p. ground arith;
  add_nought = λ a. omega arith;
  sub_nonneg = λ a b p. le→leb 0 _ (omega arith);
  mul_nonneg = λ a b p q. le→leb 0 _ (omega arith);
  lit_nonneg = λ m k. le→leb 0 _ (omega arith);
  of_nanos_nonneg = λ n. le→leb 0 _ (omega arith);
}
