-- ===== src/NakDedup.antt =====
-- src/utils/nak_dedup.h and nak_dedup.cpp: duplicate NAK packets are recognised by a hash of their
-- payload and let through at most twice.
pub mod Hash
pub mod Accept
use srtla.Base.{
  ℕ, zero, suc, ◌+◌, ◌-◌, ◌*◌, ◌%◌, ◌^◌, bit_xor, Bool, true, false, Option, none, some, List, ltb,
  leb, if◌then◌else◌, ℤ, pos, negsuc, get_or,
}
use srtla.Base.Assoc.{find, insert, nat_eq}

abbrev pub fnv_offset_basis : ℕ
fnv_offset_basis = 1469598103934665603

abbrev pub fnv_prime : ℕ
fnv_prime = 1099511628211

abbrev pub suppress_ms : ℕ
suppress_ms = 100

abbrev pub max_repeats : ℕ
max_repeats = 1

pub record NakHashEntry : Type 0 where
  pub timestamp_ms : ℕ
  pub repeat_count : ℕ

abbrev pub Cache : Type 0
Cache = List (ℕ × NakHashEntry)

-- The loop over `n` payload bytes from offset `i` of the packet on.
hash_from : List ℕ → ℕ → ℕ → ℕ → ℕ
hash_from buffer i zero hash = hash
hash_from buffer i (suc n) hash =
    hash_from buffer (i + 1) n (bit_xor hash (get_or buffer i 0) * fnv_prime % 2 ^ 64)

-- How many payload bytes are hashed: a negative `prefix_bytes` is no limit.
abbrev pub payload_length : ℕ → ℤ → ℕ
payload_length length (pos prefix) = if ltb prefix (length - 16) then prefix else length - 16
payload_length length (negsuc _) = length - 16

unfoldable pub hash_nak_payload : List ℕ → ℕ → ℤ → ℕ
unfolding hash_from
hash_nak_payload buffer length prefix_bytes =
    if leb length 16
    then 0
    else hash_from buffer 16 (payload_length length prefix_bytes) fnv_offset_basis

-- What is done with an entry that is there.
accept_again : Cache → ℕ → ℕ → NakHashEntry → Bool × Cache
accept_again cache hash now e =
    if ltb now e.timestamp_ms
    then (false, cache)
    else if ltb (now - e.timestamp_ms) suppress_ms
    then (false, cache)
    else if leb max_repeats e.repeat_count
    then (false, cache)
    else (
      true,
      insert hash (record { timestamp_ms = now; repeat_count = suc e.repeat_count }) cache,
    )

unfoldable pub should_accept_nak : Cache → ℕ → ℕ → Bool × Cache
unfolding accept_again
should_accept_nak cache hash now = elim (find hash cache) [
  | none ↦ (true, insert hash (record { timestamp_ms = now; repeat_count = 0 }) cache)
  | some e ↦ accept_again cache hash now e
]
