-- ===== src/Addr/Print.antt =====
-- print_addr, port_no and parse_port of src/common.c. inet_ntop of the C library, which is given
-- the family and the bytes, is a parameter.
pub mod Ports
use srtla.Base.{
  ℕ, ◌-◌, ◌*◌, ◌+◌, ◌%◌, ◌^◌, Bool, ◌&&◌, ◌||◌, List, [], ◌∷◌, ltb, leb, ◌==◌, if◌then◌else◌, ℤ,
  pos, negsuc, min,
}
use srtla.Addr.{SockAddr, slice, af_inet, af_inet6}
use srtla.Base.Assoc.{bytes_beq}
use srtla.Text.{Text, is_digit}

-- IN6_IS_ADDR_V4MAPPED
unfoldable pub is_v4mapped : List ℕ → Bool
is_v4mapped addr =
    bytes_beq (slice addr 0 12) (0 ∷ 0 ∷ 0 ∷ 0 ∷ 0 ∷ 0 ∷ 0 ∷ 0 ∷ 0 ∷ 0 ∷ 255 ∷ 255 ∷ [])

unfoldable pub print_addr : (ℕ → List ℕ → Text) → SockAddr → Text
unfolding is_v4mapped
print_addr inet_ntop addr =
    if addr.family == af_inet6
    then if is_v4mapped addr.sin6_addr
      then inet_ntop af_inet (slice addr.sin6_addr 12 4)
      else inet_ntop af_inet6 (slice addr.sin6_addr 0 16)
    else inet_ntop af_inet (slice addr.sin_addr 0 4)

unfoldable pub port_no : SockAddr → ℕ
port_no addr = addr.port

-- isspace
unfoldable pub is_space : ℕ → Bool
is_space c = c == b' ' || (leb 9 c && leb c 13)

unfoldable pub skip_spaces : Text → Text
unfolding is_space
skip_spaces [] = []
skip_spaces (c ∷ s) = if is_space c then skip_spaces s else c ∷ s

-- The number that the leading digits spell, behind `n`.
unfoldable pub leading : ℕ → Text → ℕ
unfolding is_digit
leading n [] = n
leading n (c ∷ s) = let rest = leading (n * 10 + (c - b'0')) s in if is_digit c then rest else n

-- strtol(s, NULL, 10), which stops at the first byte that is not a digit and stays in the range of
-- a 64-bit long.
abbrev pub negated : ℕ → ℤ
negated n = if n == 0 then pos 0 else negsuc (n - 1)

unfoldable pub sign : Text → ℤ
unfolding leading
sign [] = pos 0
sign (c ∷ s) =
    if c == b'-'
    then negated (min (leading 0 s) (2 ^ 63))
    else if c == b'+'
    then pos (min (leading 0 s) (2 ^ 63 - 1))
    else pos (min (leading 0 (c ∷ s)) (2 ^ 63 - 1))

unfoldable pub strtol : Text → ℤ
unfolding skip_spaces sign
strtol s = sign (skip_spaces s)

-- The value of a long as an int of 32 bits.
unfoldable pub int_of_bits : ℕ → ℤ
int_of_bits n = if ltb n (2 ^ 31) then pos n else negsuc (2 ^ 32 - 1 - n)

unfoldable pub to_int : ℤ → ℤ
unfolding int_of_bits
to_int (pos n) = int_of_bits (n % 2 ^ 32)
to_int (negsuc n) = int_of_bits (2 ^ 32 - 1 - n % 2 ^ 32)

abbrev pub port_or_error : ℤ → ℤ
port_or_error (pos n) = if n == 0 || ltb 65535 n then negsuc 1 else pos n
port_or_error (negsuc n) = negsuc 1

unfoldable pub parse_port : Text → ℤ
unfolding strtol to_int
parse_port port_str = port_or_error (to_int (strtol port_str))
