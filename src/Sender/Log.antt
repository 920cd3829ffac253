-- ===== src/Sender/Log.antt =====
-- The packet log of src/sender.cpp: reg_pkt, and what NAKs and ACKs do to it.
pub mod Ring
pub mod View
pub mod Search
pub mod Recent
use srtla.Base.{
  ℕ, zero, suc, ◌+◌, ◌-◌, ◌*◌, ◌^◌, ◌%◌, ◌<◌, min, max, Bool, not, Option, none, some, List, [],
  ◌∷◌, map, ltb, leb, ◌==◌, if◌then◌else◌, ℤ, pos, negsuc, ltb_ℤ, eqb_ℤ, get_or, set,
}
use srtla.Wire.{int32}
use srtla.Sender.{
  Conn, Sender, pkt_log_sz, window_min, window_max, window_mult, window_decr, window_incr,
}

unfoldable pub reg_pkt : Conn → ℕ → Conn
reg_pkt c packet = record c {
  pkt_log = set c.pkt_log c.pkt_idx (pos packet);
  pkt_idx = (c.pkt_idx + 1) % pkt_log_sz;
  in_flight_pkts = c.in_flight_pkts + 1;
}

-- For results from -256 on, as the assertion after it wants.
unfoldable pub get_pkt_idx : ℕ → ℤ → ℕ
get_pkt_idx idx (pos n) = (idx + n) % pkt_log_sz
get_pkt_idx idx (negsuc n) =
    if ltb idx (suc n) then (idx + pkt_log_sz - suc n) % pkt_log_sz else (idx - suc n) % pkt_log_sz

-- The indices that `for (int i = idx; i != c->pkt_idx; i = get_pkt_idx(i, -1))` goes through, with
-- fuel for its rounds.
unfoldable pub slots_from : ℕ → ℕ → ℕ → List ℕ
unfolding get_pkt_idx
slots_from zero pkt_idx i = []
slots_from (suc fuel) pkt_idx i =
    let rest = slots_from fuel pkt_idx (get_pkt_idx i (negsuc 0)) in
    if i == pkt_idx then [] else i ∷ rest

unfoldable pub slots : ℕ → List ℕ
unfolding slots_from
slots pkt_idx = slots_from pkt_log_sz pkt_idx (get_pkt_idx pkt_idx (negsuc 0))

abbrev pub logged : Conn → ℕ → ℤ
logged c i = get_or c.pkt_log i (pos 0)

-- The first slot of the loop that holds the packet.
unfoldable pub search_log : List ℤ → ℤ → List ℕ → Option ℕ
search_log log packet [] = none
search_log log packet (i ∷ is) =
    if eqb_ℤ (get_or log i (pos 0)) packet then some i else search_log log packet is

unfoldable pub search_pkt : Conn → ℤ → Option ℕ
unfolding slots search_log
search_pkt c packet = search_log c.pkt_log packet (slots c.pkt_idx)

-- The connection that sent the packet: the slot is emptied and the window shrinks.
unfoldable pub lost_pkt : Conn → ℕ → Conn
lost_pkt c i = record c {
  pkt_log = set c.pkt_log i (negsuc 0);
  window = max (c.window - window_decr) (window_min * window_mult);
}

unfoldable pub nak_conns : ℤ → List Conn → List Conn
unfolding search_pkt lost_pkt
nak_conns packet [] = []
nak_conns packet (c ∷ cs) = elim (search_pkt c packet) [
  | some i ↦ lost_pkt c i ∷ cs
  | none ↦ c ∷ nak_conns packet cs
]

unfoldable pub register_nak : ℤ → Sender → Sender
unfolding nak_conns
register_nak packet s = record s { conns = nak_conns packet s.conns }

-- in_flight_pkts * WINDOW_MULT is a product of ints. From 2147484 packets on it overflows, which C++
-- leaves undefined; the product modulo 2^32, as a signed number, stands for what is left of it.
abbrev pub in_flight_units : ℕ → ℤ
in_flight_units n = int32 ((n * window_mult) % 2 ^ 32)

-- The body of the loop where the ACK is found in slot i.
unfoldable pub acked_pkt : Conn → ℕ → Conn
acked_pkt c i =
    let left = c.in_flight_pkts - 1 in
    record c {
      in_flight_pkts = left;
      pkt_log = set c.pkt_log i (negsuc 0);
      window =
          if ltb_ℤ (pos c.window) (in_flight_units left)
          then c.window + (window_incr - 1)
          else c.window;
    }

unfoldable pub grow_window : Conn → Conn
grow_window c =
    if not (c.last_rcvd == 0)
    then record c { window = min (c.window + 1) (window_max * window_mult) }
    else c

abbrev pub acked_at : Conn → Option ℕ → Conn
acked_at c none = c
acked_at c (some i) = acked_pkt c i

-- `found` is set: no other log is searched.
unfoldable pub srtla_ack_conns : ℤ → List Conn → List Conn
unfolding search_pkt acked_pkt grow_window
srtla_ack_conns ack [] = []
srtla_ack_conns ack (c ∷ cs) = elim (search_pkt c ack) [
  | some i ↦ grow_window (acked_pkt c i) ∷ map grow_window cs
  | none ↦ grow_window c ∷ srtla_ack_conns ack cs
]

unfoldable pub register_srtla_ack : ℤ → Sender → Sender
unfolding srtla_ack_conns
register_srtla_ack ack s = record s { conns = srtla_ack_conns ack s.conns }

-- The loop with its variables pkt_log and count.
unfoldable pub drop_acked : ℤ → List ℕ → List ℤ → ℕ → List ℤ × ℕ
drop_acked ack [] log count = (log, count)
drop_acked ack (i ∷ is) log count =
    let older = ltb_ℤ (get_or log i (pos 0)) ack in
    drop_acked ack is (if older then set log i (negsuc 0) else log)
      (if older then count else count + 1)

unfoldable pub conn_register_srt_ack : ℤ → Conn → Conn
unfolding drop_acked slots
conn_register_srt_ack ack c =
    let (log, count) = drop_acked ack (slots c.pkt_idx) c.pkt_log 0 in
    record c { pkt_log = log; in_flight_pkts = count }

unfoldable pub register_srt_ack : ℤ → Sender → Sender
unfolding conn_register_srt_ack
register_srt_ack ack s = record s { conns = map (conn_register_srt_ack ack) s.conns }
