-- ===== src/Wire/Keepalive.antt =====
-- parse_keepalive_conn_info of src/common.c against the layout of an extended keepalive.
use srtla.Base.{
  ℕ, ◌+◌, ◌-◌, ◌/◌, ◌*◌, ◌%◌, ◌^◌, ◌≤◌, ◌<◌, ◌≡◌, ◌↔◌, ◌∙◌, refl, List, ◌++◌, some, arith, ℤ, pos,
  negsuc, pos_part, neg_part, ap,
}
use srtla.Wire.{
  IsBytes, or16-be16, or32-be32, be16, be32, put16, put32, ConnectionInfo, int32, conn_info_at,
  parse_keepalive_conn_info, srtla_type_keepalive, srtla_keepalive_magic,
  srtla_keepalive_ext_version,
}

-- The 32-bit pattern of a signed number.
abbrev pub word32 : ℤ → ℕ
word32 (pos n) = n
word32 (negsuc n) = 2 ^ 32 - n - 1

-- The layout: type, timestamp, magic, version, then the six fields, all big-endian.
abbrev pub encode : (high low : ℕ) → ConnectionInfo → List ℕ
encode high low info =
    put16 srtla_type_keepalive
    ++ put32 high
    ++ put32 low
    ++ put16 srtla_keepalive_magic
    ++ put16 srtla_keepalive_ext_version
    ++ put32 info.conn_id
    ++ put32 (word32 info.window)
    ++ put32 (word32 info.in_flight)
    ++ put32 info.rtt_ms
    ++ put32 info.nak_count
    ++ put32 info.bitrate_bytes_per_sec

pub record InRange (info : ConnectionInfo) : Type 0 where
  pub conn_id : info.conn_id < 2 ^ 32
  pub window : pos_part info.window < 2 ^ 31
  pub window_low : neg_part info.window ≤ 2 ^ 31
  pub in_flight : pos_part info.in_flight < 2 ^ 31
  pub in_flight_low : neg_part info.in_flight ≤ 2 ^ 31
  pub rtt_ms : info.rtt_ms < 2 ^ 32
  pub nak_count : info.nak_count < 2 ^ 32
  pub bitrate : info.bitrate_bytes_per_sec < 2 ^ 32

word32-lt : (z : ℤ) → pos_part z < 2 ^ 31 → word32 z < 2 ^ 32
word32-lt (pos n) h = omega arith
word32-lt (negsuc n) h = omega arith

int32-word32 : (z : ℤ) → pos_part z < 2 ^ 31 → neg_part z ≤ 2 ^ 31 → int32 (word32 z) ≡ z
int32-word32 (pos n) h k = ground arith
int32-word32 (negsuc n) h k = ground arith

word_bytes :
    (w : ℕ)
    → w < 2 ^ 32
    → w / 2 ^ 24 % 256 * 2 ^ 24 + w / 2 ^ 16 % 256 * 2 ^ 16 + w / 256 % 256 * 2 ^ 8 + w % 256 ≡ w
word_bytes w h = omega arith

encode-IsBytes : (high low : ℕ) (info : ConnectionInfo) → IsBytes (encode high low info)
encode-IsBytes high low info = omega arith

-- What the fields of an extended keepalive hold, read at their offsets.
abbrev pub fields : List ℕ → ConnectionInfo
fields buf = record {
  conn_id = be32 buf 14;
  window = int32 (be32 buf 18);
  in_flight = int32 (be32 buf 22);
  rtt_ms = be32 buf 26;
  nak_count = be32 buf 30;
  bitrate_bytes_per_sec = be32 buf 34;
}

conn_info_at-fields : (buf : List ℕ) → IsBytes buf → conn_info_at buf ≡ fields buf
unfolding conn_info_at
conn_info_at-fields buf h = rw (
  or32-be32 buf 14 h,
  or32-be32 buf 18 h,
  or32-be32 buf 22 h,
  or32-be32 buf 26 h,
  or32-be32 buf 30 h,
  or32-be32 buf 34 h,
)

-- Telemetry is read exactly from a packet of 38 bytes or more whose type, magic number and version
-- are those of an extended keepalive, and it is then the big-endian words at offsets 14 to 34.
pub parse_iff :
    (buf : List ℕ) (len : ℕ) (info : ConnectionInfo)
    → IsBytes buf
    → (parse_keepalive_conn_info buf len ≡ some info) ↔ (
        (38 ≤ len)
        × (be16 buf 0 ≡ srtla_type_keepalive)
        × (be16 buf 10 ≡ srtla_keepalive_magic)
        × (be16 buf 12 ≡ srtla_keepalive_ext_version)
        × (fields buf ≡ info))
unfolding parse_keepalive_conn_info
parse_iff buf len info h =
    rw (or16-be16 buf 0 h, or16-be16 buf 10 h, or16-be16 buf 12 h, conn_info_at-fields buf h)
      ((λ e. ground arith), (λ e. ground arith))

signed :
    (z : ℤ)
    → (h : pos_part z < 2 ^ 31) → (k : neg_part z ≤ 2 ^ 31)
    → int32 (
        word32 z / 2 ^ 24 % 256 * 2 ^ 24
        + word32 z / 2 ^ 16 % 256 * 2 ^ 16
        + word32 z / 256 % 256 * 2 ^ 8
        + word32 z % 256)
      ≡ z
signed z h k = ap int32 (word_bytes (word32 z) (word32-lt z h)) ∙ int32-word32 z h k

fields-encode :
    (high low : ℕ) (info : ConnectionInfo) → InRange info → fields (encode high low info) ≡ info
unfolding be32
fields-encode high low info r = λ i. record {
  conn_id = word_bytes info.conn_id r.conn_id i;
  window = signed info.window r.window r.window_low i;
  in_flight = signed info.in_flight r.in_flight r.in_flight_low i;
  rtt_ms = word_bytes info.rtt_ms r.rtt_ms i;
  nak_count = word_bytes info.nak_count r.nak_count i;
  bitrate_bytes_per_sec = word_bytes info.bitrate_bytes_per_sec r.bitrate i;
}

-- A well-formed extended keepalive comes back as the telemetry it was written from, whatever
-- timestamp it carries, signed fields included.
pub parse-encode :
    (high low : ℕ) (info : ConnectionInfo)
    → InRange info
    → parse_keepalive_conn_info (encode high low info) 38 ≡ some info
unfolding be16
parse-encode high low info r =
    (parse_iff (encode high low info) 38 info (encode-IsBytes high low info)).1
      (omega arith, refl, refl, refl, fields-encode high low info r)
