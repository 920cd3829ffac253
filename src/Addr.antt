-- ===== src/Addr.antt =====
-- `sockaddr_storage`, compared as src/connection/connection_registry.cpp does it, with
-- constant_time_compare of src/utils/network_utils.cpp. The fields are the bytes that the casts to
-- sockaddr_in and sockaddr_in6 read: the port at offset 2, sin_addr at 4, sin6_addr at 8.
pub mod Compare
pub mod Print
use srtla.Base.{
  ℕ, zero, suc, ◌+◌, bit_or, bit_xor, Bool, false, not, ◌&&◌, List, [], ◌∷◌, ◌==◌, if◌then◌else◌,
  get_or, ℤ, pos, negsuc,
}

abbrev pub af_inet : ℕ
af_inet = 2

abbrev pub af_inet6 : ℕ
af_inet6 = 10

pub record SockAddr : Type 0 where
  pub family : ℕ
  pub port : ℕ
  pub sin_addr : List ℕ
  pub sin6_addr : List ℕ

-- The zeroed address of a new ConnectionGroup.
abbrev pub zero_addr : SockAddr
zero_addr = record { family = 0; port = 0; sin_addr = []; sin6_addr = [] }

-- `n` bytes from offset `i` on, as `memcpy` and the string constructors copy them.
unfoldable pub slice : List ℕ → ℕ → ℕ → List ℕ
slice buf i zero = []
slice buf i (suc n) = get_or buf i 0 ∷ slice buf (i + 1) n

-- The loop over `n` bytes from `i` on. The bytes are below 256, so `diff` needs no reduction.
compare_from : List ℕ → List ℕ → ℕ → ℕ → ℕ → ℕ
compare_from a b i zero diff = diff
compare_from a b i (suc n) diff =
    compare_from a b (i + 1) n (bit_or diff (bit_xor (get_or a i 0) (get_or b i 0)))

unfoldable pub constant_time_compare : List ℕ → List ℕ → ℕ → ℤ
unfolding compare_from
constant_time_compare a b length =
    if not (compare_from a b 0 length 0 == 0) then negsuc 0 else pos 0

-- Whether the comparison returns 0.
abbrev pub is_zero : ℤ → Bool
is_zero (pos n) = n == 0
is_zero (negsuc n) = false

unfoldable pub addresses_equal : SockAddr → SockAddr → Bool
unfolding constant_time_compare
addresses_equal a b =
    if not (a.family == b.family)
    then false
    else if a.family == af_inet6
    then is_zero (constant_time_compare a.sin6_addr b.sin6_addr 16) && a.port == b.port
    else is_zero (constant_time_compare a.sin_addr b.sin_addr 4) && a.port == b.port
