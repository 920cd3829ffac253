-- ===== src/Sender/Receive.antt =====
-- Packets from the receiver: handle_srtla_data of src/sender.cpp.
pub mod Ngp
use srtla.Base.{
  ℕ, zero, suc, ◌+◌, ◌-◌, ◌*◌, ◌/◌, ◌%◌, ◌^◌, Bool, true, false, not, ◌&&◌, Option, none, some,
  List, [], ◌∷◌, ltb, leb, ◌==◌, if◌then◌else◌, ℤ, pos, negsuc, take,
}
use srtla.Base.Assoc.{Eq, bytes_eq}
use srtla.Addr.{slice}
use srtla.Wire.{
  be32, get_srt_type, int32, mtu, srt_type_ack, srt_type_nak, srtla_type_ack, srtla_type_keepalive,
  srtla_type_reg2, srtla_type_reg3, srtla_type_reg_ngp, srtla_id_len,
}
use srtla.Sender.{
  Conn, Sender, Call, Result, ok, undefined, ◌>>=◌, sendto, call_, modify, is_pending, send_reg1,
  send_reg2_all, reg2_timeout, reg3_timeout,
}
use srtla.Sender.Log.{register_nak, register_srtla_ack, register_srt_ack}

-- The sequence numbers from `lost` on, in the order of the loop.
unfoldable pub register_range : ℕ → ℕ → Sender → Sender
unfolding register_nak
register_range lost zero s = s
register_range lost (suc count) s = register_range (lost + 1) count (register_nak (pos lost) s)

-- A range from id to last_id. The counter is an int32_t that is compared as unsigned: with an end
-- of 2^31 - 1 or more it overflows, at the latest by the last `lost++`.
unfoldable pub nak_range : ℕ → ℕ → Sender → Result Sender
unfolding register_range
nak_range id last_id s =
    if leb (2 ^ 31 - 1) last_id then undefined else ok (register_range id (last_id + 1 - id) s)

-- The word i has the top bit set and begins a range, whose end is the next word.
unfoldable pub nak_range_at : List ℕ → ℕ → Sender → Result Sender
unfolding nak_range
nak_range_at buf i s =
    if leb (mtu / 4) (i + 1)
    then undefined
    else nak_range (be32 buf (4 * i) % 2 ^ 31) (be32 buf (4 * (i + 1))) s

-- The loop over the loss list with `rest` words to go from word i on. `skip` says that the last
-- word began a range, so that this one was read as its end and is passed over by `i++`.
unfoldable pub nak_words : List ℕ → ℕ → ℕ → Bool → Sender → Result Sender
unfolding nak_range_at register_nak
nak_words buf zero i skip s = ok s
nak_words buf (suc rest) i true s = nak_words buf rest (i + 1) false s
nak_words buf (suc rest) i false s = elim (leb (2 ^ 31) (be32 buf (4 * i))) [
  | true ↦ nak_range_at buf i s >>= λ s'. nak_words buf rest (i + 1) true s'
  | false ↦ nak_words buf rest (i + 1) false (register_nak (pos (be32 buf (4 * i))) s)
]

-- The loop over the numbers of an SRTLA ACK, with `rest` words to go from word i on.
unfoldable pub ack_words : List ℕ → ℕ → ℕ → Sender → Sender
unfolding register_srtla_ack
ack_words buf zero i s = s
ack_words buf (suc rest) i s =
    ack_words buf rest (i + 1) (register_srtla_ack (int32 (be32 buf (4 * i))) s)

-- What recvfrom returns, the whole buffer after it, and `ts` after the call of get_seconds: where
-- that fails it is what the stack held.
pub record Read : Type 0 where
  pub n : ℤ
  pub buf : List ℕ
  pub ts : ℕ

module _ (ret : List Call → Call → ℤ) where
  -- No connection is established and no registration is under way.
  abbrev pub may_register : ℕ → Sender → Bool
  may_register ts s =
      s.active_connections == 0
      && (elim s.pending_reg2_conn [ none ↦ true | some p ↦ false ])
      && ltb s.pending_reg_timeout ts

  unfoldable pub handle_ngp : Conn → ℕ → Sender → Sender
  unfolding send_reg1
  handle_ngp c ts s =
      let (sent, s') = send_reg1 ret c s in
      if not (may_register ts s)
      then s
      else if sent
      then record s' { pending_reg2_conn = some c.handle; pending_reg_timeout = ts + reg2_timeout }
      else s'

  -- memcmp of the first half of the id.
  abbrev pub id_matches : List ℕ → Sender → Bool
  id_matches buf s =
      bytes_eq.beq (slice buf 2 (srtla_id_len / 2)) (take (srtla_id_len / 2) s.srtla_id)

  unfoldable pub handle_reg2 : Conn → List ℕ → ℕ → Sender → Sender
  unfolding send_reg2_all slice
  handle_reg2 c buf ts s =
      if not (is_pending s.pending_reg2_conn c.handle)
      then s
      else if not (id_matches buf s)
      then s
      else record (send_reg2_all ret s.conns (record s { srtla_id = slice buf 2 srtla_id_len })) {
        pending_reg2_conn = none;
        pending_reg_timeout = ts + reg3_timeout;
      }

  abbrev pub to_srt : ℕ → List ℕ → Sender → Sender
  to_srt n buf s = call_ ret (sendto s.listenfd s.srt_addr (take n buf)) s

  -- The switch, after last_rcvd is set.
  unfoldable pub handle_type : ℕ → ℕ → List ℕ → Sender → Result Sender
  unfolding nak_words ack_words register_srt_ack
  handle_type type n buf s =
      if type == srt_type_ack
      then ok (to_srt n buf (register_srt_ack (int32 (be32 buf 16)) s))
      else if type == srt_type_nak
      then (nak_words buf (n / 4 - 4) 4 false s >>= λ s'. ok (to_srt n buf s'))
      else if type == srtla_type_ack
      then ok (ack_words buf (n / 4 - 1) 1 s)
      else if type == srtla_type_keepalive
      then ok s
      else if type == srtla_type_reg3
      then ok (record s { has_connected = true; active_connections = s.active_connections + 1 })
      else ok (to_srt n buf s)

  unfoldable pub handle_packet : Conn → ℕ → List ℕ → ℕ → Sender → Result Sender
  unfolding handle_ngp handle_reg2 handle_type get_srt_type
  handle_packet c n buf ts s =
      let type = get_srt_type buf n in
      if type == srtla_type_reg_ngp
      then ok (handle_ngp c ts s)
      else if type == srtla_type_reg2
      then ok (handle_reg2 c buf ts s)
      else handle_type type n buf (modify c.handle (λ c. record c { last_rcvd = ts }) s)

  abbrev pub handle_bytes : Conn → ℤ → List ℕ → ℕ → Sender → Result Sender
  handle_bytes c (pos n) buf ts s = if n == 0 then ok s else handle_packet c n buf ts s
  handle_bytes c (negsuc n) buf ts s = ok s

  unfoldable pub handle_srtla_data : Conn → Read → Sender → Result Sender
  unfolding handle_packet
  handle_srtla_data c r s = handle_bytes c r.n r.buf r.ts s
