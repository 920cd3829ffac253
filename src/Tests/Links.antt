-- ===== src/Tests/Links.antt =====
-- The theorems on the sender, on a sender with a receiver, and on the probe, at concrete inputs.
use srtla.Base.{
  ℕ, ◌≡◌, refl, false, none, some, List, [], ◌∷◌, ◌++◌, replicate, length, length-replicate, ℤ, pos,
  negsuc, arith,
}
use srtla.Exchange.Acks.{ack_each, srtla_ack_pkt-handled}
use srtla.Exchange.Handshake.{Handshake}
use srtla.Exchange.Losses.{one, range, nak_packet, nak_each, nak_packet-handled}
use srtla.NetworkUtils
use srtla.NetworkUtils.{resolve_srt_address}
use srtla.NetworkUtils.Sockets.{open_sockets}
use srtla.NetworkUtils.Resolve.{Verdict, resolve_srt_address-closes}
use srtla.Receiver.Packet.{srtla_ack_pkt}
use srtla.Sender.{Conn, Sender, Call, Result, ok, ◌>>=◌, modify, sendto}
use srtla.Sender.Conns.{new_conn, update_conns}
use srtla.Sender.Housekeeping.GivesUp.{GivesUp, run_at, Silent-GivesUp}
use srtla.Sender.Log.{
  reg_pkt, slots_from, slots, get_pkt_idx, nak_conns, srtla_ack_conns, conn_register_srt_ack,
}
use srtla.Sender.Log.Recent.{view-reg_pkt, views-nak, views-srtla_ack, view-srt_ack}
use srtla.Sender.Log.Ring.{around, slots_from-enough}
use srtla.Sender.Log.View.{view, views, sent, nak, srtla_ack, srt_ack, LogOk, LogsOk}
use srtla.Sender.Loop.{Event, sighup, round, Setup, globals, main_loop, set_up}
use srtla.Sender.Receive.{to_srt, handle_packet}
use srtla.Sender.Receive.Ngp.{Started, reg_ngp-Started}
use srtla.Sender.Select.{select_conn}
use srtla.Sender.Select.Best.{Choice, select_conn-Choice}
use srtla.Sender.Valid.Reachable.{main_loop-IsValid}
use srtla.Sender.Valid.Receive.{ValidOn}
use srtla.Sender.Valid.Sources.{Reread, update_conns-Reread}
use srtla.Tests.{client, stranger}

-- Every call returns 0.
abbrev ret : List Call → Call → ℤ
ret calls call = pos 0

-- So does every call of the probe.
abbrev refused : List NetworkUtils.Call → NetworkUtils.Call → ℤ
refused calls call = pos 0

-- A line of four bytes is an address of these bytes.
abbrev inet_addr : List ℕ → List ℕ
inet_addr line = line

abbrev lines : List (List ℕ)
lines = (10 ∷ 1 ∷ 0 ∷ 1 ∷ 10 ∷ []) ∷ (192 ∷ 168 ∷ 0 ∷ 2 ∷ 10 ∷ []) ∷ []

abbrev link : Conn
link = record {
  handle = 0;
  fd = pos 7;
  last_rcvd = 99;
  last_sent = 0;
  src = record client { port = 0 };
  removed = false;
  in_flight_pkts = 2;
  window = 20000;
  pkt_idx = 2;
  pkt_log = pos 41 ∷ pos 42 ∷ replicate 254 (pos 0);
}

abbrev other_link : Conn
other_link = record link { handle = 1; src = record stranger { port = 0 }; window = 30000 }

-- Registration is under way on the first link.
abbrev linked : Sender
linked = record globals {
  conns = link ∷ other_link ∷ [];
  pending_reg2_conn = some 0;
  srtla_id = replicate 256 7;
  next = 2;
}

link-LogOk : LogOk link
link-LogOk = (omega arith, refl)

linked-LogsOk : LogsOk (link ∷ other_link ∷ [])
linked-LogsOk = (link-LogOk, (link-LogOk, tt))

abbrev set_up_with : Setup
set_up_with = record {
  file = some lines;
  random = replicate 128 7;
  listen_addr = client;
  resolved = client ∷ [];
}

abbrev events : List Event
events =
    sighup
    ∷ round (record { file = some lines; ms = some 5000; from_srt = none; from_srtla = λ h. none })
    ∷ []

main_loop-IsValid_example :
    ValidOn ret
      (replicate 128 7)
      (set_up inet_addr ret set_up_with >>= λ s. main_loop inet_addr ret events s)
main_loop-IsValid_example =
    main_loop-IsValid inet_addr ret set_up_with events (length-replicate {A = ℕ} 128 7)

slots_from-enough_example :
    (slots_from 300 2 (get_pkt_idx 2 (negsuc 0)) ≡ around 255 1) × (slots 2 ≡ around 255 1)
slots_from-enough_example = slots_from-enough 300 2 (omega arith) (omega arith)

view-reg_pkt_example : view (reg_pkt link 43) ≡ sent 43 (view link)
view-reg_pkt_example = view-reg_pkt link 43 link-LogOk

views-nak_example :
    views (nak_conns (pos 42) (link ∷ other_link ∷ []))
    ≡ nak (pos 42) (views (link ∷ other_link ∷ []))
views-nak_example = views-nak (pos 42) (link ∷ other_link ∷ []) linked-LogsOk

views-srtla_ack_example :
    views (srtla_ack_conns (pos 41) (link ∷ other_link ∷ []))
    ≡ srtla_ack (pos 41) (views (link ∷ other_link ∷ []))
views-srtla_ack_example =
    views-srtla_ack (pos 41) (link ∷ other_link ∷ []) linked-LogsOk (omega arith, (omega arith, tt))

view-srt_ack_example : view (conn_register_srt_ack (pos 42) link) ≡ srt_ack (pos 42) (view link)
view-srt_ack_example = view-srt_ack (pos 42) link link-LogOk

select_conn-Choice_example : Choice 100 linked.conns (select_conn (some 100) linked).0
select_conn-Choice_example = select_conn-Choice 100 linked

update_conns-Reread_example :
    Reread inet_addr lines linked.conns (update_conns ret inet_addr (some lines) linked)
update_conns-Reread_example = update_conns-Reread inet_addr ret lines linked

Silent-GivesUp_example : GivesUp ret false [] (run_at ret (200000 ∷ 201000 ∷ 211000 ∷ []) linked)
Silent-GivesUp_example =
    Silent-GivesUp ret 200000 211000 (201000 ∷ []) linked (omega arith) refl (omega arith)
      (omega arith) (omega arith)

-- The sender before its registration; every packet goes out whole.
abbrev asker : Sender
asker = record linked { pending_reg2_conn = none }

abbrev whole : List Call → Call → ℤ
whole calls call = elim call [ sendto fd addr buf ↦ pos (length buf) | _ ↦ pos 0 ]

srtla_ack_pkt-handled_example :
    handle_packet ret link 12 (srtla_ack_pkt (41 ∷ 42 ∷ []) ++ 9 ∷ 9 ∷ []) 100 linked
    ≡ ok (ack_each (41 ∷ 42 ∷ []) (modify 0 (λ c. record c { last_rcvd = 100 }) linked))
srtla_ack_pkt-handled_example =
    srtla_ack_pkt-handled ret (41 ∷ 42 ∷ []) (9 ∷ 9 ∷ []) link 100 linked (omega arith)

reg_ngp-Started_example :
    (t : Sender) × (handle_packet ret link 2 (0x92 ∷ 0x11 ∷ []) 100 linked ≡ ok t)
    × Started ret link 100 linked t
unfolding srtla.Wire.get_srt_type
reg_ngp-Started_example = reg_ngp-Started ret link 2 (0x92 ∷ 0x11 ∷ []) 100 linked refl

nak_packet-handled_example :
    let ls = one 42 ∷ range 50 52 ∷ [] in
    let packet = nak_packet ret (replicate 14 0) ls (7 ∷ []) in
    handle_packet ret link 28 packet 100 linked
    ≡ ok (
        to_srt ret 28 packet
          (nak_each (42 ∷ 50 ∷ 51 ∷ 52 ∷ []) (modify 0 (λ c. record c { last_rcvd = 100 }) linked)))
nak_packet-handled_example =
    nak_packet-handled ret (replicate 14 0) (7 ∷ []) (one 42 ∷ range 50 52 ∷ []) link 100 linked
      (length-replicate {A = ℕ} 14 0) (omega arith) (omega arith)

resolve_srt_address-closes_example :
    let r = resolve_srt_address refused (some (client ∷ [])) 9 9 in
    (open_sockets refused r.1.calls ≡ []) × Verdict refused (client ∷ []) r.0 r.1.out_addr
resolve_srt_address-closes_example = resolve_srt_address-closes refused (some (client ∷ [])) 9 9
