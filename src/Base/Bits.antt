-- ===== src/Base/Bits.antt =====
-- Laws of the bit operations at variables: one step of the binary recursion, and what follows.
use Prim.Native.Nat.{digits, bit_or-bitwise, bit_xor-bitwise, differ}
use Prim.Native.Nat.{ℕ, zero, suc, ◌+◌, ◌*◌, ◌/◌, ◌%◌, ◌^◌, ◌≤◌, ◌<◌, max, bit_or, bit_xor}
use mathlib.Core.Path.{◌≡◌, refl, ap}
use native.Mathlib.Nat.{le_refl, pow-suc}
use native.Mathlib.Omega.{arith}

-- More digits to go than the first number has make no difference.
digits_enough :
    (f : ℕ → ℕ → ℕ) (n m a b : ℕ)
    → a ≤ n
    → a ≤ m
    → digits (λ b. b) f n a b ≡ digits (λ b. b) f m a b
digits_enough f zero zero a b p q = refl
digits_enough f zero (suc m) zero b p q = refl
digits_enough f zero (suc m) (suc a) b p q = absurd (omega arith)
digits_enough f (suc n) zero zero b p q = refl
digits_enough f (suc n) zero (suc a) b p q = absurd (omega arith)
digits_enough f (suc n) (suc m) zero b p q = refl
digits_enough f (suc n) (suc m) (suc a) b p q =
    rw (digits_enough f n m (suc a / 2) (b / 2) (omega arith) (omega arith))

bit_xor_step_suc :
    (a b : ℕ) → bit_xor (suc a) b ≡ bit_xor (suc a / 2) (b / 2) * 2 + differ (suc a % 2) (b % 2)
bit_xor_step_suc a b = simp bit_xor-bitwise (
    omega (arith, digits_enough differ a (suc a / 2) (suc a / 2) (b / 2) (omega arith) (le_refl _)))

bit_or_step_suc :
    (a b : ℕ) → bit_or (suc a) b ≡ bit_or (suc a / 2) (b / 2) * 2 + max (suc a % 2) (b % 2)
bit_or_step_suc a b =
    simp bit_or-bitwise
      (omega (arith, digits_enough max a (suc a / 2) (suc a / 2) (b / 2) (omega arith) (le_refl _)))

zero-bit_xor : (b : ℕ) → bit_xor 0 b ≡ b
zero-bit_xor b = bit_xor-bitwise 0 b

zero-bit_or : (b : ℕ) → bit_or 0 b ≡ b
zero-bit_or b = bit_or-bitwise 0 b

differ-eq : (a b : ℕ) → differ a b ≡ 0 → a ≡ b
differ-eq zero b e = omega arith
differ-eq (suc a) zero e = omega arith
differ-eq (suc a) (suc b) e = ap suc (differ-eq a b e)

differ_self : (a : ℕ) → differ a a ≡ 0
differ_self zero = refl
differ_self (suc a) = differ_self a

bit_xor-eq_below : (n a b : ℕ) → a ≤ n → bit_xor a b ≡ 0 → a ≡ b
bit_xor-eq_below n zero b h e = omega (arith, zero-bit_xor b)
bit_xor-eq_below zero (suc a) b h e = absurd (omega arith)
bit_xor-eq_below (suc n) (suc a) b h e =
    let half : suc a / 2 ≡ b / 2 =
      bit_xor-eq_below n (suc a / 2) (b / 2) (omega arith) (omega (arith, bit_xor_step_suc a b)) in
    let digit : suc a % 2 ≡ b % 2 =
      differ-eq (suc a % 2) (b % 2) (omega (arith, bit_xor_step_suc a b)) in
    omega arith

bit_xor-self_below : (n a : ℕ) → a ≤ n → bit_xor a a ≡ 0
bit_xor-self_below n zero h = refl
bit_xor-self_below zero (suc a) h = absurd (omega arith)
bit_xor-self_below (suc n) (suc a) h = omega (
  arith,
  bit_xor_step_suc a (suc a),
  bit_xor-self_below n (suc a / 2) (omega arith),
  differ_self (suc a % 2),
)

-- Numbers whose exclusive or is 0 are equal.
pub bit_xor-eq : (a b : ℕ) → bit_xor a b ≡ 0 → a ≡ b
bit_xor-eq a b = bit_xor-eq_below a a b (le_refl a)

pub bit_xor_self : (a : ℕ) → bit_xor a a ≡ 0
bit_xor_self a = bit_xor-self_below a a (le_refl a)

bit_or-zero_below : (n a b : ℕ) → a ≤ n → bit_or a b ≡ 0 → (a ≡ 0) × (b ≡ 0)
bit_or-zero_below n zero b h e = omega (arith, zero-bit_or b)
bit_or-zero_below zero (suc a) b h e = absurd (omega arith)
bit_or-zero_below (suc n) (suc a) b h e = omega (
  arith,
  bit_or_step_suc a b,
  bit_or-zero_below n (suc a / 2) (b / 2) (omega arith) (omega (arith, bit_or_step_suc a b)),
)

-- An or is 0 only where both sides are.
pub bit_or-zero : (a b : ℕ) → bit_or a b ≡ 0 → (a ≡ 0) × (b ≡ 0)
bit_or-zero a b = bit_or-zero_below a a b (le_refl a)

pub bit_or_step : (a b : ℕ) → bit_or a b ≡ bit_or (a / 2) (b / 2) * 2 + max (a % 2) (b % 2)
bit_or_step zero b = omega (arith, zero-bit_or b, zero-bit_or (b / 2))
bit_or_step (suc a) b = bit_or_step_suc a b

bit_or-right_zero : (n a : ℕ) → a ≤ n → bit_or a 0 ≡ a
bit_or-right_zero n zero h = refl
bit_or-right_zero zero (suc a) h = absurd (omega arith)
bit_or-right_zero (suc n) (suc a) h =
    omega (arith, bit_or_step_suc a 0, bit_or-right_zero n (suc a / 2) (omega arith))

-- `(q << k) | r` is a sum where `r` fits in `k` bits.
pub bit_or_shift : (k q r : ℕ) → r < 2 ^ k → bit_or (q * 2 ^ k) r ≡ q * 2 ^ k + r
bit_or_shift zero q r h =
    let e : r ≡ 0 = omega arith in
    let f : q * 2 ^ 0 ≡ q = omega arith in
    rw (e, f) (omega (arith, bit_or-right_zero q q (le_refl q)))
bit_or_shift (suc k) q r h =
    let double : q * 2 ^ suc k ≡ 2 * (q * 2 ^ k) =
      omega (arith, ap (λ (t : ℕ). q * t) (pow-suc 2 k)) in
    let halved : q * 2 ^ suc k / 2 ≡ q * 2 ^ k = omega arith in
    omega (
      arith,
      bit_or_step (q * 2 ^ suc k) r,
      ap (λ (t : ℕ). bit_or t (r / 2)) halved,
      bit_or_shift k q (r / 2) (omega (arith, pow-suc 2 k)),
    )
