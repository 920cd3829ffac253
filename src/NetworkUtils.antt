-- ===== src/NetworkUtils.antt =====
-- src/utils/network_utils.cpp: resolve_srt_address, which probes the SRT server when srtla_rec
-- starts, and get_local_port. The comparison of bytes is in Addr.
pub mod Sockets
pub mod Random
pub mod Resolve
use srtla.Base.{
  ℕ, ◌-◌, Bool, true, false, not, Option, none, some, List, [], ◌∷◌, ◌++◌, ltb, leb, ◌==◌,
  if◌then◌else◌, ℤ, pos, negsuc, eqb_ℤ, length, take, replicate,
}
use srtla.Addr.{SockAddr, af_inet, af_inet6}
use srtla.Wire.{put16, put32, srt_type_handshake, srt_handshake_len}

-- The calls of the operating system.
pub data Call : Type 0 where
  socket : ℕ → Call
  set_rcvbuf set_sndbuf : ℤ → ℕ → Call
  set_rcvtimeo : ℤ → ℕ → Call
  connect : ℤ → SockAddr → Call
  send : ℤ → List ℕ → Call
  recv : ℤ → Call
  close : ℤ → Call

-- The local variables, what is written through out_addr, and the calls made so far, the newest
-- first. `found` is -1 until an address has answered, and then 1.
pub record Probe : Type 0 where
  pub found : Bool
  pub tmp_sock : ℤ
  pub out_addr : Option SockAddr
  pub calls : List Call

abbrev pub begin : Probe
begin = record { found = false; tmp_sock = negsuc 0; out_addr = none; calls = [] }

-- hs_packet: the type, the version 4, the extension field 2, and an induction.
abbrev pub hs_packet : List ℕ
hs_packet =
    put16 srt_type_handshake
    ++ (replicate 14 0
        ++ (put32 4 ++ (put16 0 ++ (put16 2 ++ (replicate 12 0 ++ (put32 1 ++ replicate 24 0))))))

module _ (ret : List Call → Call → ℤ) where
  abbrev pub called : Call → Probe → Probe
  called k p = record p { calls = k ∷ p.calls }

  -- The socket is closed and forgotten.
  unfoldable pub close_tmp_sock : Probe → Probe
  close_tmp_sock p = record (called (close p.tmp_sock) p) { tmp_sock = negsuc 0 }

  -- A call that has to return the given value for the probe to go on.
  unfoldable pub expect : Call → ℤ → (Probe → Probe) → Probe → Probe
  unfolding close_tmp_sock
  expect k v next p =
      if eqb_ℤ (ret p.calls k) v then next (called k p) else close_tmp_sock (called k p)

  -- The address has answered.
  unfoldable pub succeed : SockAddr → Probe → Probe
  succeed addr p = record p { found = true; out_addr = some addr }

  -- From the socket options on.
  unfoldable pub probe_socket : ℤ → SockAddr → ℕ → ℕ → Probe → Probe
  unfolding expect succeed
  probe_socket fd addr recv_buf_size send_buf_size = expect (set_rcvbuf fd recv_buf_size) (pos 0) (
      expect (set_sndbuf fd send_buf_size) (pos 0) (
        expect (set_rcvtimeo fd 2) (pos 0) (
          expect (connect fd addr) (pos 0) (
            expect (send fd hs_packet) (pos srt_handshake_len)
              (expect (recv fd) (pos srt_handshake_len) (succeed addr))))))

  abbrev pub is_socket : ℤ → Bool
  is_socket (pos n) = true
  is_socket (negsuc n) = false

  -- The body of the loop.
  unfoldable pub probe_addr : SockAddr → ℕ → ℕ → Probe → Probe
  unfolding probe_socket
  probe_addr addr recv_buf_size send_buf_size p =
      let fd = ret p.calls (socket addr.family) in
      let p' = record (called (socket addr.family) p) { tmp_sock = fd } in
      if not (is_socket fd) then p' else probe_socket fd addr recv_buf_size send_buf_size p'

  unfoldable pub probe_all : List SockAddr → ℕ → ℕ → Probe → Probe
  unfolding probe_addr
  probe_all [] recv_buf_size send_buf_size p = p
  probe_all (addr ∷ addrs) recv_buf_size send_buf_size p =
      let rest =
        probe_all addrs recv_buf_size send_buf_size
          (probe_addr addr recv_buf_size send_buf_size p) in
      if p.found then p else rest

  -- tmp_sock != -1.
  abbrev pub close_probe : Probe → Probe
  close_probe p = if eqb_ℤ p.tmp_sock (negsuc 0) then p else called (close p.tmp_sock) p

  abbrev pub is_inet : ℕ → Bool
  is_inet family = if family == af_inet then true else family == af_inet6

  -- The first address, where none has answered.
  unfoldable pub settle_addr : List SockAddr → Probe → ℤ × Probe
  settle_addr addrs p = if p.found then (pos 1, p) else elim addrs [
    | [] ↦ (negsuc 0, p)
    | first ∷ rest ↦ (pos 0, if is_inet first.family then record p { out_addr = some first } else p)
  ]

  -- The addresses that getaddrinfo gives; `none` where it fails.
  unfoldable pub resolve_srt_address : Option (List SockAddr) → ℕ → ℕ → ℤ × Probe
  unfolding probe_all settle_addr
  resolve_srt_address none recv_buf_size send_buf_size = (negsuc 0, begin)
  resolve_srt_address (some addrs) recv_buf_size send_buf_size =
      settle_addr addrs (close_probe (probe_all addrs recv_buf_size send_buf_size begin))

-- What getsockname gives; `none` where it fails.
unfoldable pub get_local_port : Option SockAddr → ℕ
get_local_port none = 0
get_local_port (some local_addr) =
    if local_addr.family == af_inet
    then local_addr.port
    else if local_addr.family == af_inet6
    then local_addr.port
    else 0
