-- ===== src/Sender/Select.antt =====
-- Packets from the SRT caller in src/sender.cpp: select_conn and handle_srt_data.
pub mod Best
use srtla.Base.{
  ℕ, ◌+◌, ◌/◌, Bool, not, ◌&&◌, Option, none, some, List, [], ◌∷◌, ltb, if◌then◌else◌, ℤ, pos,
  negsuc, ltb_ℤ, eqb_ℤ, take,
}
use srtla.Addr.{SockAddr}
use srtla.Wire.{get_srt_sn}
use srtla.Sender.{Conn, Sender, Call, sendto, sendto_invalid, call, modify, conn_timeout}
use srtla.Sender.Log.{reg_pkt}

unfoldable pub conn_timed_out : Conn → ℕ → Bool
conn_timed_out c ts = ltb (c.last_rcvd + conn_timeout) ts

abbrev pub score : Conn → ℕ
score c = c.window / (c.in_flight_pkts + 1)

-- The loop with its variables min_c and max_score.
unfoldable pub select_from : ℕ → List Conn → Option Conn → ℤ → Option Conn
unfolding conn_timed_out
select_from t [] min_c max_score = min_c
select_from t (c ∷ cs) min_c max_score =
    let better = not (conn_timed_out c t) && ltb_ℤ max_score (pos (score c)) in
    select_from t cs (if better then some c else min_c)
      (if better then pos (score c) else max_score)

-- The connection as it is chosen; the time is `none` where get_seconds fails.
unfoldable pub select_conn : Option ℕ → Sender → Option Conn × Sender
unfolding select_from
select_conn none s = (none, s)
select_conn (some t) s = elim (select_from t s.conns none (negsuc 0)) [
  | none ↦ (none, s)
  | some c ↦ (some c, modify c.handle (λ c. record c { last_sent = t }) s)
]

-- What recvfrom returns, from whom, and what get_seconds returns.
pub record SrtRead : Type 0 where
  pub n : ℤ
  pub buf : List ℕ
  pub from : SockAddr
  pub now : Option ℕ

abbrev pub sn_of : List ℕ → ℤ → ℤ
sn_of buf (pos n) = get_srt_sn buf n
sn_of buf (negsuc n) = negsuc 0

abbrev pub send_call : ℤ → SockAddr → List ℕ → ℤ → Call
send_call fd dst buf (pos n) = sendto fd dst (take n buf)
send_call fd dst buf (negsuc n) = sendto_invalid fd dst

abbrev pub reg_sn : ℤ → Conn → Conn
reg_sn (pos sn) c = reg_pkt c sn
reg_sn (negsuc m) c = c

-- recvfrom writes the caller's address unless it fails.
abbrev pub caller : SrtRead → Sender → Sender
caller r s = elim r.n [ pos n ↦ record s { srt_addr = r.from } | negsuc n ↦ s ]

module _ (ret : List Call → Call → ℤ) where
  -- The packet goes out on the chosen connection.
  unfoldable pub send_on : Conn → SrtRead → Sender → Sender
  unfolding get_srt_sn reg_pkt
  send_on c r s =
      let (sent, s') = call ret (send_call c.fd s.srtla_addr r.buf r.n) s in
      if eqb_ℤ sent r.n
      then modify c.handle (reg_sn (sn_of r.buf r.n)) s'
      else modify c.handle (λ c. record c { last_rcvd = 1 }) s'

  unfoldable pub handle_srt_data : SrtRead → Sender → Sender
  unfolding select_conn send_on
  handle_srt_data r s =
      let (chosen, s') = select_conn r.now (caller r s) in
      elim chosen [ none ↦ s' | some c ↦ send_on c r s' ]
