-- ===== src/Addr/Compare.antt =====
-- What constant_time_compare compares, and addresses_equal of
-- src/connection/connection_registry.cpp with it.
use srtla.Base.{
  ℕ, zero, suc, ◌+◌, bit_or, bit_xor, true, ◌≡◌, ◌↔◌, refl, sym, ◌∙◌, List, arith, get_or, pos,
  ◌==◌, if◌then◌else◌,
}
use srtla.Base.Bits.{bit_xor-eq, bit_xor_self, bit_or-zero}
use srtla.Addr.{
  SockAddr, slice, compare_from, constant_time_compare, addresses_equal, is_zero, af_inet6,
}

compare_from-zero :
    (a b : List ℕ) (i n diff : ℕ)
    → (compare_from a b i n diff ≡ 0) ↔ ((diff ≡ 0) × (slice a i n ≡ slice b i n))
unfolding compare_from slice
compare_from-zero a b i zero diff = ((λ e. (e, refl)), (λ p. p.0))
compare_from-zero a b i (suc n) diff =
    let x = get_or a i 0 in
    let y = get_or b i 0 in
    let ih = compare_from-zero a b (i + 1) n (bit_or diff (bit_xor x y)) in
    (
      (λ e.
          let both = bit_or-zero diff (bit_xor x y) (ih.0 e).0 in
          let same = bit_xor-eq x y both.1 in (both.0, cc (same, (ih.0 e).1))),
      (λ p.
          let heads : x ≡ y = cc p.1 in
          let tails : slice a (i + 1) n ≡ slice b (i + 1) n = cc p.1 in
          let zeros : bit_or diff (bit_xor x y) ≡ 0 = rw (p.0, heads, bit_xor_self y) refl in
          ih.1 (zeros, tails)),
    )

-- constant_time_compare returns 0 exactly if the first `n` bytes of its arguments agree.
pub constant_time_compare-zero_iff :
    (a b : List ℕ) (n : ℕ) → (constant_time_compare a b n ≡ pos 0) ↔ (slice a 0 n ≡ slice b 0 n)
unfolding constant_time_compare
constant_time_compare-zero_iff a b n =
    let ih = compare_from-zero a b 0 n 0 in
    ((λ e. (ih.0 (ground arith)).1), (λ p. let z = ih.1 (refl, p) in ground arith))

is_zero-compare :
    (a b : List ℕ) (n : ℕ)
    → (is_zero (constant_time_compare a b n) ≡ true) ↔ (slice a 0 n ≡ slice b 0 n)
unfolding constant_time_compare
is_zero-compare a b n =
    let ih = compare_from-zero a b 0 n 0 in
    ((λ e. (ih.0 (ground arith)).1), (λ p. let z = ih.1 (refl, p) in ground arith))

-- The bytes of the IP address: 16 for AF_INET6, else 4.
abbrev pub ip_bytes : SockAddr → List ℕ
ip_bytes a = if a.family == af_inet6 then slice a.sin6_addr 0 16 else slice a.sin_addr 0 4

abbrev pub SameAddr : SockAddr → SockAddr → Type 0
SameAddr a b = (a.family ≡ b.family) × (a.port ≡ b.port) × (ip_bytes a ≡ ip_bytes b)

-- Two addresses are equal to the registry exactly if family, port and IP address agree.
pub addresses_equal_iff : (a b : SockAddr) → (addresses_equal a b ≡ true) ↔ SameAddr a b
unfolding addresses_equal
addresses_equal_iff a b =
    let six = is_zero-compare a.sin6_addr b.sin6_addr 16 in
    let four = is_zero-compare a.sin_addr b.sin_addr 4 in
    ((λ e. ground (arith, six, four)), (λ p. ground (arith, six, four)))

pub addresses_equal_refl : (a : SockAddr) → addresses_equal a a ≡ true
addresses_equal_refl a = (addresses_equal_iff a a).1 (refl, refl, refl)

pub addresses_equal_symm :
    (a b : SockAddr) → addresses_equal a b ≡ true → addresses_equal b a ≡ true
addresses_equal_symm a b h =
    let s = (addresses_equal_iff a b).0 h in (addresses_equal_iff b a).1 (sym s.0, sym s.1, sym s.2)

pub addresses_equal_trans :
    (a b c : SockAddr)
    → addresses_equal a b ≡ true
    → addresses_equal b c ≡ true
    → addresses_equal a c ≡ true
addresses_equal_trans a b c h k =
    let s = (addresses_equal_iff a b).0 h in
    let t = (addresses_equal_iff b c).0 k in
    (addresses_equal_iff a c).1 (s.0 ∙ t.0, s.1 ∙ t.1, s.2 ∙ t.2)
