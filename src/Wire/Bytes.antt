-- ===== src/Wire/Bytes.antt =====
-- Big-endian numbers in a buffer: `be16toh` and `be32toh` of a load, the shifts and ors that
-- parse_keepalive_conn_info of src/common.c writes out, and `htobe16` and `htobe32` of a store.
use srtla.Base.{
  ℕ, zero, suc, ◌+◌, ◌*◌, ◌/◌, ◌%◌, ◌^◌, ◌<◌, bit_or, ◌≡◌, ◌∙◌, List, [], ◌∷◌, arith, get_or,
}
use srtla.Base.Bits.{bit_or_shift}

abbrev pub IsBytes : List ℕ → Type 0
IsBytes [] = Unit {0}
IsBytes (b ∷ bs) = (b < 256) × IsBytes bs

abbrev pub byte : List ℕ → ℕ → ℕ
byte buf i = get_or buf i 0

unfoldable pub be16 : List ℕ → ℕ → ℕ
be16 buf i = byte buf i * 256 + byte buf (i + 1)

unfoldable pub be32 : List ℕ → ℕ → ℕ
be32 buf i =
    byte buf i * 2 ^ 24 + byte buf (i + 1) * 2 ^ 16 + byte buf (i + 2) * 2 ^ 8 + byte buf (i + 3)

unfoldable pub or16 : List ℕ → ℕ → ℕ
or16 buf i = bit_or (byte buf i * 2 ^ 8) (byte buf (i + 1))

unfoldable pub or32 : List ℕ → ℕ → ℕ
or32 buf i =
    bit_or
      (bit_or (bit_or (byte buf i * 2 ^ 24) (byte buf (i + 1) * 2 ^ 16)) (byte buf (i + 2) * 2 ^ 8))
      (byte buf (i + 3))

-- The bytes of a 16-bit and of a 32-bit number, most significant first.
abbrev pub put16 : ℕ → List ℕ
put16 w = (w / 256 % 256) ∷ (w % 256) ∷ []

abbrev pub put32 : ℕ → List ℕ
put32 w = (w / 2 ^ 24 % 256) ∷ (w / 2 ^ 16 % 256) ∷ (w / 256 % 256) ∷ (w % 256) ∷ []

pub byte_lt : (buf : List ℕ) (i : ℕ) → IsBytes buf → byte buf i < 256
byte_lt [] i h = omega arith
byte_lt (b ∷ bs) zero h = h.0
byte_lt (b ∷ bs) (suc i) h = byte_lt bs i h.1

pub be16-lt : (buf : List ℕ) (i : ℕ) → IsBytes buf → be16 buf i < 2 ^ 16
unfolding be16
be16-lt buf i h = omega (arith, byte_lt buf i h, byte_lt buf (i + 1) h)

pub be32-lt : (buf : List ℕ) (i : ℕ) → IsBytes buf → be32 buf i < 2 ^ 32
unfolding be32
be32-lt buf i h =
    omega
      (arith, byte_lt buf i h, byte_lt buf (i + 1) h, byte_lt buf (i + 2) h, byte_lt buf (i + 3) h)

pub or16-be16 : (buf : List ℕ) (i : ℕ) → IsBytes buf → or16 buf i ≡ be16 buf i
unfolding or16 be16
or16-be16 buf i h = bit_or_shift 8 (byte buf i) (byte buf (i + 1)) (byte_lt buf (i + 1) h)

or_fields :
    (a b c d : ℕ)
    → b < 256
    → c < 256
    → d < 256
    → bit_or (bit_or (bit_or (a * 2 ^ 24) (b * 2 ^ 16)) (c * 2 ^ 8)) d
      ≡ a * 2 ^ 24 + b * 2 ^ 16 + c * 2 ^ 8 + d
or_fields a b c d hb hc hd =
    let one : bit_or (a * 2 ^ 24) (b * 2 ^ 16) ≡ (a * 256 + b) * 2 ^ 16 =
      bit_or_shift 24 a (b * 2 ^ 16) (omega arith) ∙ omega arith in
    let two : bit_or ((a * 256 + b) * 2 ^ 16) (c * 2 ^ 8) ≡ ((a * 256 + b) * 256 + c) * 2 ^ 8 =
      bit_or_shift 16 (a * 256 + b) (c * 2 ^ 8) (omega arith) ∙ omega arith in
    rw (one, two) (bit_or_shift 8 ((a * 256 + b) * 256 + c) d hd ∙ omega arith)

pub or32-be32 : (buf : List ℕ) (i : ℕ) → IsBytes buf → or32 buf i ≡ be32 buf i
unfolding or32 be32
or32-be32 buf i h =
    or_fields (byte buf i) (byte buf (i + 1)) (byte buf (i + 2)) (byte buf (i + 3))
      (byte_lt buf (i + 1) h) (byte_lt buf (i + 2) h) (byte_lt buf (i + 3) h)
