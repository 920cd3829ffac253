-- ===== src/Wire/Class.antt =====
-- How get_srt_sn and get_srt_type of src/common.c sort packets into data and control.
use srtla.Base.{ℕ, ◌≡◌, List, arith, leb, ltb, ◌&&◌, if◌then◌else◌, pos, negsuc}
use srtla.Wire.{IsBytes, byte_lt, be16, be32, get_srt_sn, get_srt_type}

-- A packet has a sequence number exactly if it has four bytes or more and its type is below
-- 0x8000, the first control type; the number is then the packet's first big-endian word, and
-- in every other case the result is -1.
pub get_srt_sn_lem :
    (pkt : List ℕ) (n : ℕ)
    → IsBytes pkt
    → get_srt_sn pkt n
      ≡ (if leb 4 n && ltb (get_srt_type pkt n) 0x8000 then pos (be32 pkt 0) else negsuc 0)
unfolding get_srt_sn get_srt_type be16 be32
get_srt_sn_lem pkt n h =
    let b0 = byte_lt pkt 0 h in
    let b1 = byte_lt pkt 1 h in let b2 = byte_lt pkt 2 h in let b3 = byte_lt pkt 3 h in ground arith

pub sn-be32 : (pkt : List ℕ) (n : ℕ) {sn : ℕ} → get_srt_sn pkt n ≡ pos sn → sn ≡ be32 pkt 0
unfolding get_srt_sn
sn-be32 pkt n h = ground arith
