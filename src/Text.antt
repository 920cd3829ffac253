-- ===== src/Text.antt =====
-- Text as the list of its bytes: what src/metrics/prometheus.cpp and src/common.c do with
-- std::string and std::to_string, and how text is read back.
pub mod Decimal
pub mod Lines
use Prim.Native.Char.{code}
use Prim.Native.String
use Prim.Native.String.{String}
use srtla.Base.{
  ℕ, zero, suc, ◌+◌, ◌-◌, ◌*◌, ◌/◌, ◌%◌, ◌^◌, Bool, true, false, ◌&&◌, ◌||◌, Option, none, some,
  List, [], ◌∷◌, ◌++◌, leb, ltb, ◌==◌, if◌then◌else◌, ℤ, pos, negsuc, any,
}

abbrev pub Text : Type 0
Text = List ℕ

-- The bytes of an ASCII text.
abbrev pub codes : String → Text
codes String.[] = []
codes (String.◌∷◌ c s) = code c ∷ codes s

unfoldable pub has : ℕ → Text → Bool
unfolding any
has c s = any (λ d. d == c) s

-- The decimal digits of a number, `k` at most, without leading zeros.
unfoldable pub digits : ℕ → ℕ → Text
digits zero n = []
digits (suc k) n =
    let front = digits k (n / 10) in (if ltb n 10 then [] else front) ++ (b'0' + n % 10) ∷ []

-- std::to_string of an unsigned number of at most 64 bits, whose digits are 20 at most.
unfoldable pub to_string : ℕ → Text
unfolding digits
to_string n = digits 20 n

-- std::to_string of a long long.
unfoldable pub to_string_ℤ : ℤ → Text
unfolding to_string
to_string_ℤ (pos n) = to_string n
to_string_ℤ (negsuc n) = b'-' ∷ to_string (suc n)

-- The cast of a uint64_t to long long.
unfoldable pub long_long : ℕ → ℤ
long_long n = if ltb n (2 ^ 63) then pos n else negsuc (2 ^ 64 - 1 - n)

unfoldable pub is_digit : ℕ → Bool
is_digit c = leb b'0' c && leb c b'9'

-- Reads digits to the end of the text, behind the number `n`; nothing else is read.
unfoldable pub scan : ℕ → Text → Option ℕ
unfolding is_digit
scan n [] = some n
scan n (c ∷ s) = let rest = scan (n * 10 + (c - b'0')) s in if is_digit c then rest else none

unfoldable pub natural : Text → Option ℕ
unfolding scan
natural [] = none
natural (c ∷ s) = scan 0 (c ∷ s)

abbrev pub negative : Option ℕ → Option ℤ
negative none = none
negative (some zero) = some (pos 0)
negative (some (suc n)) = some (negsuc n)

abbrev pub positive : Option ℕ → Option ℤ
positive none = none
positive (some n) = some (pos n)

-- A number with its sign.
unfoldable pub number : Text → Option ℤ
unfolding natural
number [] = none
number (c ∷ s) = if c == b'-' then negative (natural s) else positive (natural (c ∷ s))

-- The lines of a text, each ended by a newline; what follows the last newline is a line of its own.
abbrev pub push : ℕ → List Text → List Text
push c [] = (c ∷ []) ∷ []
push c (l ∷ ls) = (c ∷ l) ∷ ls

unfoldable pub lines : Text → List Text
lines [] = []
lines (c ∷ s) = if c == b'\n' then [] ∷ lines s else push c (lines s)

-- What stands before the first byte `b`, and behind it.
unfoldable pub split_at : ℕ → Text → Text × Text
split_at b [] = ([], [])
split_at b (c ∷ s) = let rest = split_at b s in if c == b then ([], s) else (c ∷ rest.0, rest.1)
