-- ===== src/Float.antt =====
-- The floating-point numbers of the compiler: a type and the operations that the quality
-- evaluation uses. No law is assumed of them.
use srtla.Base.{ℕ, ◌+◌, ◌-◌, ◌*◌, ◌/◌, ◌^◌, Bool, ℤ, pos_part, ltb, leb}

pub record Float : Type 1 where
  pub F : Type 0
  pub of_nat : ℕ → F
  pub of_int : ℤ → F
  -- `lit m k` is the literal m * 10^-k.
  pub lit : ℕ → ℕ → F
  pub add : F → F → F
  pub sub : F → F → F
  pub mul : F → F → F
  pub div : F → F → F
  pub sqrt : F → F
  pub abs : F → F
  pub lt : F → F → Bool
  pub le : F → F → Bool
  -- static_cast<uint64_t>
  pub trunc : F → ℕ

-- Thousandths, rounded down and never below 0.
abbrev pub thousandths : Float
thousandths = record {
  F = ℕ;
  of_nat = λ n. n * 1000;
  of_int = λ z. pos_part z * 1000;
  lit = λ m k. m * 1000 / 10 ^ k;
  add = λ a b. a + b;
  sub = λ a b. a - b;
  mul = λ a b. a * b / 1000;
  div = λ a b. a * 1000 / b;
  sqrt = λ a. a;
  abs = λ a. a;
  lt = λ a b. ltb a b;
  le = λ a b. leb a b;
  trunc = λ a. a / 1000;
}
