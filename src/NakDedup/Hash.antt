-- ===== src/NakDedup/Hash.antt =====
-- hash_nak_payload reads the payload within the prefix and nothing else.
use srtla.Base.{ℕ, zero, suc, ◌+◌, ◌^◌, ◌<◌, ◌≡◌, refl, List, ℤ, get_or, arith}
use srtla.NakDedup.{hash_from, hash_nak_payload, payload_length}
use srtla.Addr.{slice}

hash_from-slice :
    (a b : List ℕ) (i n h : ℕ) → slice a i n ≡ slice b i n → hash_from a i n h ≡ hash_from b i n h
unfolding hash_from slice
hash_from-slice a b i zero h e = refl
hash_from-slice a b i (suc n) h e =
    let heads : get_or a i 0 ≡ get_or b i 0 = cc e in
    rw heads (hash_from-slice a b (i + 1) n _ (cc e))

hash_from-lt : (a : List ℕ) (i n h : ℕ) → h < 2 ^ 64 → hash_from a i n h < 2 ^ 64
unfolding hash_from
hash_from-lt a i zero h p = p
hash_from-lt a i (suc n) h p = hash_from-lt a (i + 1) n _ (omega arith)

-- Two packets of one length whose payloads agree within the prefix have one hash, whatever their
-- headers are, and a hash is a 64-bit number.
pub hash_nak_payload_lem :
    (a b : List ℕ) (length : ℕ) (prefix_bytes : ℤ)
    → slice a 16 (payload_length length prefix_bytes)
      ≡ slice b 16 (payload_length length prefix_bytes)
    → (hash_nak_payload a length prefix_bytes ≡ hash_nak_payload b length prefix_bytes)
      × (hash_nak_payload a length prefix_bytes < 2 ^ 64)
unfolding hash_nak_payload
hash_nak_payload_lem a b length p e = (
  ground (arith, hash_from-slice a b 16 (payload_length length p) 1469598103934665603 e),
  ground (arith, hash_from-lt a 16 (payload_length length p) 1469598103934665603),
)
