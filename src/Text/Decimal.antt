-- ===== src/Text/Decimal.antt =====
-- Printed numbers are read back.
use srtla.Base.{
  ℕ, zero, suc, ◌+◌, ◌-◌, ◌*◌, ◌/◌, ◌%◌, ◌^◌, ◌<◌, ◌≡◌, ◌≢◌, refl, ◌∙◌, ap, false, ◌||◌, some, [],
  ◌∷◌, ◌++◌, ltb, ℤ, pos, negsuc, any, arith, Bool-cases, inl, inr,
}
use srtla.Text.{
  Text, has, digits, to_string, to_string_ℤ, long_long, is_digit, scan, natural, number, negative,
}

-- 10 to the power of k.
abbrev pub tens : ℕ → ℕ
tens zero = 1
tens (suc k) = 10 * tens k

scan_last :
    (s : Text) (a n d : ℕ)
    → d < 10
    → scan a s ≡ some n
    → scan a (s ++ (b'0' + d) ∷ []) ≡ some (n * 10 + d)
unfolding scan is_digit
scan_last [] a n d lt e = ground arith
scan_last (c ∷ s) a n d lt e = ground (arith, scan_last s (a * 10 + (c - b'0')) n d lt)

-- Up to the bound, the digits of a number are read back.
scan-digits : (k n : ℕ) → n < tens (suc k) → scan 0 (digits (suc k) n) ≡ some n
unfolding digits
scan-digits zero n h = elim (Bool-cases (ltb n 10)) [
  | inl small ↦
      rw small
        (scan_last [] 0 0 (n % 10) (omega arith) (unfold scan in refl) ∙ ap some (ground arith))
  | inr large ↦ absurd (ground arith)
]
scan-digits (suc k) n h = elim (Bool-cases (ltb n 10)) [
  | inl small ↦
      rw small
        (scan_last [] 0 0 (n % 10) (omega arith) (unfold scan in refl) ∙ ap some (ground arith))
  | inr large ↦ rw large (
      scan_last (digits (suc k) (n / 10)) 0 (n / 10) (n % 10) (omega arith)
        (scan-digits k (n / 10) (omega arith))
      ∙ ap some (omega arith))
]

pub has-append : (b : ℕ) (s t : Text) → has b (s ++ t) ≡ (has b s || has b t)
unfolding has any
has-append b [] t = refl
has-append b (c ∷ s) t = ground (arith, has-append b s t)

-- A printed number has no byte that is not a digit.
has-digits : (b k n : ℕ) → is_digit b ≡ false → has b (digits k n) ≡ false
unfolding digits has any is_digit
has-digits b zero n h = refl
has-digits b (suc k) n h =
    ground
      (arith, has-append b (digits k (n / 10)) ((b'0' + n % 10) ∷ []), has-digits b k (n / 10) h)

pub has-to_string : (b n : ℕ) → is_digit b ≡ false → has b (to_string n) ≡ false
unfolding to_string
has-to_string b n h = has-digits b 20 n h

natural_of_scan : (s : Text) (n : ℕ) → s ≢ [] → scan 0 s ≡ some n → natural s ≡ some n
unfolding natural
natural_of_scan [] n ne e = absurd (ne refl)
natural_of_scan (c ∷ s) n ne e = e

append-ne-nil : (s : Text) (c : ℕ) → s ++ c ∷ [] ≢ []
append-ne-nil [] c = λ e. cc e
append-ne-nil (d ∷ s) c = λ e. cc e

-- Every number below 10^20 is read back from its print.
pub natural-to_string : (n : ℕ) → n < 10 ^ 20 → natural (to_string n) ≡ some n
unfolding to_string
natural-to_string n h =
    natural_of_scan (digits 20 n) n (unfold digits in append-ne-nil _ _)
      (scan-digits 19 n (omega arith))

number_of_natural :
    (s : Text) (n : ℕ) → has b'-' s ≡ false → natural s ≡ some n → number s ≡ some (pos n)
unfolding number natural has any
number_of_natural [] n h e = cc e
number_of_natural (c ∷ s) n h e = ground (arith)

-- The printed numbers: those of 64 bits.
abbrev pub IsLong : ℤ → Type 0
IsLong (pos n) = n < 2 ^ 64
IsLong (negsuc n) = n < 2 ^ 63

-- A long long is read back from its print, its sign included.
pub number-to_string_ℤ : (z : ℤ) → IsLong z → number (to_string_ℤ z) ≡ some z
unfolding to_string_ℤ
number-to_string_ℤ (pos n) h =
    number_of_natural (to_string n) n (has-to_string b'-' n (unfold is_digit in refl))
      (natural-to_string n (omega arith))
number-to_string_ℤ (negsuc n) h =
    unfold number in ap negative (natural-to_string (suc n) (omega arith))

pub has-to_string_ℤ :
    (b : ℕ) (z : ℤ) → is_digit b ≡ false → b ≢ b'-' → has b (to_string_ℤ z) ≡ false
unfolding to_string_ℤ has any
has-to_string_ℤ b (pos n) h ne = has-to_string b n h
has-to_string_ℤ b (negsuc n) h ne = ground (arith, has-to_string b (suc n) h)

pub long_long-IsLong : (n : ℕ) → n < 2 ^ 64 → IsLong (long_long n)
unfolding long_long
long_long-IsLong n h = elim (Bool-cases (ltb n (2 ^ 63))) [
  | inl e ↦ rw e h
  | inr e ↦ rw e (ground arith)
]
