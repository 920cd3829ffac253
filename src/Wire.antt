-- ===== src/Wire.antt =====
-- src/common.h and src/common.c: the packet formats of SRT and SRTLA, and the tests on a packet.
-- A packet is the buffer that holds it, a list of bytes, and the number of bytes received. A read
-- past the list gives 0. Lengths are never negative here.
mod Bytes
pub mod Class
pub mod Keepalive
pub use Bytes.{IsBytes, byte_lt, be16-lt, be32-lt, or16-be16, or32-be32}
unfoldable pub use Bytes.{byte, be16, be32, or16, or32, put16, put32}
use srtla.Base.{
  ℕ, ◌+◌, ◌-◌, ◌*◌, ◌/◌, ◌%◌, ◌^◌, Bool, true, false, not, ◌&&◌, Option, none, some, List, ltb, leb,
  ◌==◌, if◌then◌else◌, ℤ, pos, negsuc,
}

abbrev pub mtu : ℕ
mtu = 1500

abbrev pub send_buf_size : ℕ
send_buf_size = 104857600

abbrev pub recv_buf_size : ℕ
recv_buf_size = 104857600

abbrev pub srt_type_handshake : ℕ
srt_type_handshake = 0x8000

abbrev pub srt_type_ack : ℕ
srt_type_ack = 0x8002

abbrev pub srt_type_nak : ℕ
srt_type_nak = 0x8003

abbrev pub srt_type_shutdown : ℕ
srt_type_shutdown = 0x8005

abbrev pub srtla_type_keepalive : ℕ
srtla_type_keepalive = 0x9000

abbrev pub srtla_type_ack : ℕ
srtla_type_ack = 0x9100

abbrev pub srtla_type_reg1 : ℕ
srtla_type_reg1 = 0x9200

abbrev pub srtla_type_reg2 : ℕ
srtla_type_reg2 = 0x9201

abbrev pub srtla_type_reg3 : ℕ
srtla_type_reg3 = 0x9202

abbrev pub srtla_type_reg_err : ℕ
srtla_type_reg_err = 0x9210

abbrev pub srtla_type_reg_ngp : ℕ
srtla_type_reg_ngp = 0x9211

abbrev pub srtla_keepalive_magic : ℕ
srtla_keepalive_magic = 0xc01f

abbrev pub srtla_keepalive_ext_len : ℕ
srtla_keepalive_ext_len = 38

abbrev pub srtla_keepalive_ext_version : ℕ
srtla_keepalive_ext_version = 1

abbrev pub srt_min_len : ℕ
srt_min_len = 16

abbrev pub srtla_id_len : ℕ
srtla_id_len = 256

abbrev pub srtla_type_reg1_len : ℕ
srtla_type_reg1_len = 2 + srtla_id_len

abbrev pub srtla_type_reg2_len : ℕ
srtla_type_reg2_len = 2 + srtla_id_len

abbrev pub srtla_type_reg3_len : ℕ
srtla_type_reg3_len = 2

abbrev pub srt_rejection_code_base : ℕ
srt_rejection_code_base = 1000

-- sizeof(srt_handshake_t), and the offset of its field handshake_type.
abbrev pub srt_handshake_len : ℕ
srt_handshake_len = 64

abbrev pub handshake_type_offset : ℕ
handshake_type_offset = 36

-- The sequence number of a data packet, -1 for a control packet or a packet that is too short.
unfoldable pub get_srt_sn : List ℕ → ℕ → ℤ
unfolding be32
get_srt_sn pkt n =
    if ltb n 4
    then negsuc 0
    else if (be32 pkt 0 / 2 ^ 31) % 2 == 0
    then pos (be32 pkt 0)
    else negsuc 0

unfoldable pub get_srt_type : List ℕ → ℕ → ℕ
unfolding be16
get_srt_type pkt n = if ltb n 2 then 0 else be16 pkt 0

unfoldable pub is_srt_ack : List ℕ → ℕ → Bool
is_srt_ack pkt n = get_srt_type pkt n == srt_type_ack

unfoldable pub is_srt_nak : List ℕ → ℕ → Bool
is_srt_nak pkt n = get_srt_type pkt n == srt_type_nak

unfoldable pub is_srtla_keepalive : List ℕ → ℕ → Bool
is_srtla_keepalive pkt n = get_srt_type pkt n == srtla_type_keepalive

unfoldable pub is_srt_shutdown : List ℕ → ℕ → Bool
is_srt_shutdown pkt n = get_srt_type pkt n == srt_type_shutdown

unfoldable pub is_srt_handshake_reject : List ℕ → ℕ → Bool
is_srt_handshake_reject pkt n =
    if ltb n srt_handshake_len
    then false
    else if not (get_srt_type pkt n == srt_type_handshake)
    then false
    else leb srt_rejection_code_base (be32 pkt handshake_type_offset)
      && ltb (be32 pkt handshake_type_offset) 0x80000000

unfoldable pub is_srtla_reg1 : List ℕ → ℕ → Bool
is_srtla_reg1 pkt len =
    if not (len == srtla_type_reg1_len) then false else get_srt_type pkt len == srtla_type_reg1

unfoldable pub is_srtla_reg2 : List ℕ → ℕ → Bool
is_srtla_reg2 pkt len =
    if not (len == srtla_type_reg2_len) then false else get_srt_type pkt len == srtla_type_reg2

unfoldable pub is_srtla_reg3 : List ℕ → ℕ → Bool
is_srtla_reg3 pkt len =
    if not (len == srtla_type_reg3_len) then false else get_srt_type pkt len == srtla_type_reg3

-- `connection_info_t`; the signed fields are integers.
pub record ConnectionInfo : Type 0 where
  pub conn_id : ℕ
  pub window : ℤ
  pub in_flight : ℤ
  pub rtt_ms : ℕ
  pub nak_count : ℕ
  pub bitrate_bytes_per_sec : ℕ

-- The cast of a 32-bit pattern to `int32_t`.
abbrev pub int32 : ℕ → ℤ
int32 w = if ltb w (2 ^ 31) then pos w else negsuc (2 ^ 32 - w - 1)

conn_info_at : List ℕ → ConnectionInfo
conn_info_at buf = record {
  conn_id = or32 buf 14;
  window = int32 (or32 buf 18);
  in_flight = int32 (or32 buf 22);
  rtt_ms = or32 buf 26;
  nak_count = or32 buf 30;
  bitrate_bytes_per_sec = or32 buf 34;
}

-- `none` is the return value 0; `some` is 1 with what goes through `info`.
unfoldable pub parse_keepalive_conn_info : List ℕ → ℕ → Option ConnectionInfo
unfolding conn_info_at
parse_keepalive_conn_info buf len =
    if ltb len srtla_keepalive_ext_len
    then none
    else if not (or16 buf 0 == srtla_type_keepalive)
    then none
    else if not (or16 buf 10 == srtla_keepalive_magic)
    then none
    else if not (or16 buf 12 == srtla_keepalive_ext_version)
    then none
    else some (conn_info_at buf)
