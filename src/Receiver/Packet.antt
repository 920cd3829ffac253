-- ===== src/Receiver/Packet.antt =====
-- process_single_packet of src/protocol/srtla_handler.cpp, what it calls, and process_packets.
pub mod Keeps
pub mod Numbered
pub mod Traffic
pub mod Valid
pub mod Acks
use srtla.Base.{
  ℕ, zero, suc, ◌+◌, ◌-◌, ◌*◌, ◌^◌, ◌%◌, Bool, true, false, not, ◌&&◌, Option, none, some, List, [],
  ◌∷◌, ◌++◌, map, leb, ltb, ◌==◌, if◌then◌else◌, ℤ, pos, negsuc, eqb_ℤ, length, set,
}
use srtla.Addr.{SockAddr, slice}
use srtla.Connection.{
  Connection, ConnectionStats, conn_timed_out, on_packet_received, on_nak_detected, recv_ack_int,
  rtt_history_size,
}
use srtla.Float.{Float}
use srtla.Group.{Group}
use srtla.Metrics
use srtla.NakDedup.{hash_nak_payload, should_accept_nak}
use srtla.Os.{Os}
use srtla.Quality.Evaluate.{evaluate_group}
use srtla.Registry.{find_by_address}
use srtla.Wire.{
  ConnectionInfo, parse_keepalive_conn_info, get_srt_type, get_srt_sn, srt_type_nak, srt_min_len,
  is_srtla_reg1, is_srtla_reg2, is_srtla_keepalive, srtla_type_ack, srtla_type_keepalive, put16,
  put32,
}
use srtla.Receiver.{Receiver, count, pad_sendto, put_group}
use srtla.Receiver.Register.{register_group, register_connection}
use srtla.Receiver.Srt.{Config, or_zero, forward_to_srt_server}

unfoldable pub is_srt_nak_packet : List ℕ → ℕ → Bool
is_srt_nak_packet pkt n = if ltb n 16 then false else get_srt_type pkt n == srt_type_nak

-- A change of the object that a `ConnectionPtr` of the group points to.
unfoldable pub on_conn : ℕ → (Connection → Connection) → List Connection → List Connection
on_conn handle f [] = []
on_conn handle f (c ∷ cs) = (if c.handle == handle then f c else c) ∷ on_conn handle f cs

abbrev pub change : Connection → (Connection → Connection) → Group → Group
change c f g = record g { conns = on_conn c.handle f g.conns }

-- The connection has been heard of; it recovers if it had timed out and was not recovering.
unfoldable pub is_recovering : Connection → ℕ → Bool
is_recovering c ts = c.recovery_start == 0 && conn_timed_out c ts

unfoldable pub touch : ℕ → Connection → Connection
touch ts c =
    if is_recovering c ts
    then record c { last_rcvd = ts; recovery_start = ts }
    else record c { last_rcvd = ts }

unfoldable pub update_rtt_history : ConnectionStats → ℕ → ConnectionStats
update_rtt_history s rtt = record s {
  rtt_history = set s.rtt_history s.rtt_history_idx rtt;
  rtt_history_idx = (s.rtt_history_idx + 1) % rtt_history_size;
  rtt_ms = rtt;
}

unfoldable pub update_connection_telemetry : ConnectionStats → ConnectionInfo → ℕ → ConnectionStats
unfolding update_rtt_history
update_connection_telemetry s info now = record (update_rtt_history s info.rtt_ms) {
  sender_supports_extended_keepalives = true;
  window = info.window;
  in_flight = info.in_flight;
  sender_nak_count = info.nak_count;
  sender_bitrate_bps = info.bitrate_bytes_per_sec;
  last_keepalive = now;
}

-- The telemetry of a keepalive, if there is any.
unfoldable pub learn : Option ConnectionInfo → ℕ → Connection → Connection
unfolding update_connection_telemetry
learn none now c = c
learn (some info) now c = record c { stats = update_connection_telemetry c.stats info now }

-- The log of sequence numbers. Every tenth is answered by an ACK of the last ten.
unfoldable pub next_idx : Connection → ℕ
next_idx c = if leb recv_ack_int c.recv_idx then 1 else c.recv_idx + 1

unfoldable pub is_full : Connection → Bool
unfolding next_idx
is_full c = next_idx c == recv_ack_int

unfoldable pub logged : ℕ → Connection → Connection
unfolding next_idx is_full
logged sn c = record c {
  recv_idx = (if is_full c then 0 else next_idx c);
  recv_log = set c.recv_log (next_idx c - 1) sn;
}

unfoldable pub words : List ℕ → List ℕ
words [] = []
words (w ∷ ws) = put32 w ++ words ws

unfoldable pub srtla_ack_pkt : List ℕ → List ℕ
unfolding words
srtla_ack_pkt acks = put32 (srtla_type_ack * 2 ^ 16) ++ words acks

module _ (os : Os) (fl : Float) (cfg : Config) where
  -- What get_ms and get_seconds leave in a variable that was 0.
  abbrev pub now_ms : Receiver → ℕ
  now_ms r = or_zero os cfg (os.get_ms r.calls)

  -- `not (…).0` of this is is_duplicate_nak.
  unfoldable pub accept_nak : Group → List ℕ → ℕ → Receiver → Bool × Group
  accept_nak g buf n r =
      let (fresh, cache) =
        should_accept_nak g.nak_seen_hash (hash_nak_payload buf n (pos 128)) (now_ms r) in
      (fresh, record g { nak_seen_hash = cache })

  unfoldable pub handle_keepalive : Group → Connection → SockAddr → List ℕ → ℕ → Receiver → Receiver
  handle_keepalive g c addr buf n r =
      let info = parse_keepalive_conn_info buf n in
      let g' = change c (learn info (or_zero os cfg (os.get_seconds r.calls))) g in
      let (ret, r') = pad_sendto os (put_group g' r) addr (slice buf 0 n) in
      if eqb_ℤ ret (pos n) then r' else count Metrics.send_err_keepalive 1 r'

  unfoldable pub send_keepalive : Connection → Receiver → Receiver
  send_keepalive c r =
      let (ret, r') = pad_sendto os r c.addr (put16 srtla_type_keepalive) in
      if eqb_ℤ ret (pos 2) then r' else count Metrics.send_err_keepalive 1 r'

  -- `c` is the connection as it was found: its log and its address have not changed since.
  unfoldable pub register_packet : Group → Connection → ℕ → Receiver → Group × Receiver
  register_packet g c sn r =
      let ack = srtla_ack_pkt (logged sn c).recv_log in
      let (ret, r') = pad_sendto os r c.addr ack in
      (
        change c (logged sn) g,
        (if not (is_full c)
            then r
            else if eqb_ℤ ret (pos (length ack))
            then r'
            else count Metrics.send_err_ack 1 r'),
      )

  -- A packet with a sequence number is logged, and every packet goes on to the SRT server.
  abbrev pub numbered : Group → Connection → ℤ → Receiver → Group × Receiver
  numbered g c (pos sn) r = register_packet g c sn r
  numbered g c (negsuc k) r = (g, r)

  unfoldable pub carry_on : Group → Connection → List ℕ → ℕ → Receiver → Receiver
  unfolding register_packet
  carry_on g c buf n r =
      let (g', r') = numbered g c (get_srt_sn buf n) r in
      (forward_to_srt_server os cfg g' (slice buf 0 n) (put_group g' r')).1

  -- A NAK that is not a duplicate: many of them bring the evaluation forward.
  abbrev pub struck : Group → Connection → ℕ → Receiver → Group
  struck g c ts r =
      let g' = change c (λ d. record d { stats = on_nak_detected d.stats 1 }) g in
      if ltb 5 (on_nak_detected c.stats 1).nack_count && ltb (g.last_quality_eval + 1) ts
      then evaluate_group fl g' ts (os.get_ms r.calls)
      else g'

  unfoldable pub handle_nak : Group → Connection → List ℕ → ℕ → ℕ → Receiver → Receiver
  unfolding accept_nak carry_on
  handle_nak g c buf n ts r =
      let (fresh, g') = accept_nak g buf n r in
      if not fresh
      then put_group g' (count Metrics.naks_suppressed 1 r)
      else carry_on (struck g' c ts r) c buf n (count Metrics.naks_received 1 r)

  -- A packet of at least sixteen bytes from a connection of the group.
  abbrev pub carried : Group → Connection → SockAddr → ℕ → Group
  carried g c addr n =
      record (change c (λ d. record d { stats = on_packet_received d.stats n }) g) {
        data_seen = true;
        last_addr = addr;
      }

  unfoldable pub traffic : Group → Connection → SockAddr → List ℕ → ℕ → ℕ → Receiver → Receiver
  unfolding handle_nak carry_on
  traffic g c addr buf n ts r =
      if is_srt_nak_packet buf n
      then handle_nak (carried g c addr n) c buf n ts r
      else carry_on (carried g c addr n) c buf n r

  -- A packet from a connection of the group.
  unfoldable pub receive : Group → Connection → SockAddr → List ℕ → ℕ → ℕ → Receiver → Receiver
  unfolding handle_keepalive traffic
  receive g c addr buf n ts r =
      let g' = change c (touch ts) g in
      let r' = (if is_recovering c ts then count Metrics.recovery_started 1 r else r) in
      if is_srtla_keepalive buf n
      then handle_keepalive g' c addr buf n r'
      else if ltb n srt_min_len
      then put_group g' r'
      else traffic g' c addr buf n ts r'

  -- `n` is the length of the packet, and `buf` the bytes of the buffer.
  unfoldable pub process_single_packet : List ℕ → ℕ → SockAddr → ℕ → Receiver → Receiver
  unfolding receive
  process_single_packet buf n addr ts r =
      if is_srtla_reg1 buf n
      then (register_group os r addr buf ts).1
      else if is_srtla_reg2 buf n
      then (register_connection os r addr buf ts).1
      else elim (find_by_address r.groups addr) [
        | none ↦ r
        | some (g, oc) ↦ elim oc [ none ↦ r | some c ↦ receive g c addr buf n ts r ]
      ]

  -- One message of the batch.
  unfoldable pub process_message : SockAddr × List ℕ → ℕ → Receiver → Receiver
  unfolding process_single_packet
  process_message (addr, buf) ts r =
      if length buf == 0
      then r
      else process_single_packet buf (length buf) addr ts
          (count Metrics.bytes_received (length buf) (count Metrics.packets_received 1 r))

  unfoldable pub process_messages : List (SockAddr × List ℕ) → ℕ → Receiver → Receiver
  unfolding process_message
  process_messages [] ts r = r
  process_messages (m ∷ ms) ts r = process_messages ms ts (process_message m ts r)

  -- What recvmmsg gives: `none` where it fails.
  unfoldable pub process_packets : Option (List (SockAddr × List ℕ)) → ℕ → Receiver → Receiver
  unfolding process_messages
  process_packets none ts r = r
  process_packets (some batch) ts r = process_messages batch ts (count Metrics.recv_batches 1 r)
