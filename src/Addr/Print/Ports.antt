-- ===== src/Addr/Print/Ports.antt =====
-- parse_port of src/common.c on printed numbers.
use srtla.Base.{
  ℕ, ◌+◌, ◌-◌, ◌*◌, ◌%◌, ◌^◌, ◌<◌, ◌≡◌, true, ◌||◌, some, [], ◌∷◌, ltb, ◌==◌, if◌then◌else◌, pos,
  negsuc, arith,
}
use srtla.Addr.Print.{is_space, skip_spaces, leading, sign, strtol, int_of_bits, to_int, parse_port}
use srtla.Text.{Text, is_digit, scan, natural, to_string}
use srtla.Text.Decimal.{natural-to_string}

leading-scan : (s : Text) (a n : ℕ) → scan a s ≡ some n → leading a s ≡ n
unfolding scan leading
leading-scan [] a n e = cc e
leading-scan (c ∷ s) a n e = ground (arith, leading-scan s (a * 10 + (c - b'0')) n)

first_digit : (c a n : ℕ) (s : Text) → scan a (c ∷ s) ≡ some n → is_digit c ≡ true
unfolding scan
first_digit c a n s e = ground (arith, e)

strtol_of_natural : (s : Text) (n : ℕ) → natural s ≡ some n → n < 2 ^ 63 → strtol s ≡ pos n
unfolding natural strtol skip_spaces sign is_space
strtol_of_natural [] n e h = cc e
strtol_of_natural (c ∷ s) n e h =
    let d = first_digit c 0 n s e in
    let l = leading-scan (c ∷ s) 0 n e in unfold is_digit in ground (arith, d, l)

-- A number below 2^63, printed, is read as its remainder modulo 2^32 where that is a port, from 1 to
-- 65535, and refused where it is not: a number that is no port may wrap around to one.
pub parse_port-to_string :
    (n : ℕ)
    → n < 2 ^ 63
    → let m = n % 2 ^ 32 in
      parse_port (to_string n) ≡ (if m == 0 || ltb 65535 m then negsuc 1 else pos m)
unfolding parse_port to_int int_of_bits
parse_port-to_string n h =
    let s = strtol_of_natural (to_string n) n (natural-to_string n (omega arith)) h in
    rw s (ground arith)
