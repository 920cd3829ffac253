-- ===== src/Sender/Housekeeping.antt =====
-- connection_housekeeping of src/sender.cpp.
pub mod Silent
pub mod GivesUp
use srtla.Base.{
  ℕ, ◌+◌, ◌*◌, ◌/◌, Bool, true, false, not, ◌&&◌, Option, none, some, List, [], ◌∷◌, ltb, ◌==◌,
  if◌then◌else◌, ℤ, pos, negsuc, replicate,
}
use srtla.Addr.{SockAddr}
use srtla.Wire.{put16, srtla_type_keepalive}
use srtla.Sender.{
  Conn, Sender, Call, Result, ok, exited, sendto, call_, is_open, is_pending, send_reg1, send_reg2,
  pkt_log_sz, global_timeout, idle_time, window_min, window_mult, housekeeping_int,
}
use srtla.Sender.Conns.{open_socket}
use srtla.Sender.Select.{conn_timed_out}

unfoldable pub set_srtla_addr : SockAddr → Sender → Sender
set_srtla_addr addr s = record s { srtla_addr = addr }

-- A failure that is first seen: the status is reset.
unfoldable pub reset_conn : Conn → Conn
reset_conn c = record c {
  last_rcvd = 0;
  last_sent = 0;
  window = window_min * window_mult;
  in_flight_pkts = 0;
  pkt_log = replicate pkt_log_sz (negsuc 0);
}

unfoldable pub note_failure : Conn → Conn
unfolding reset_conn
note_failure c = if ltb 0 c.last_rcvd then reset_conn c else c

-- A registration that has had no answer in time is given up.
abbrev pub expire_pending : ℕ → Sender → Sender
expire_pending time s =
    if ltb s.pending_reg_timeout time then record s { pending_reg2_conn = none } else s

module _ (ret : List Call → Call → ℤ) where
  unfoldable pub send_keepalive : Conn → Sender → Sender
  send_keepalive c s = call_ ret (sendto c.fd s.srtla_addr (put16 srtla_type_keepalive)) s

  -- By pending_reg2_conn.
  unfoldable pub reconnect_by : Option ℕ → Conn → Sender → Sender
  unfolding send_reg1 send_reg2
  reconnect_by none c s = (send_reg2 ret c s).1
  reconnect_by (some p) c s = if p == c.handle then (send_reg1 ret c s).1 else s

  abbrev pub reconnect : Conn → Sender → Sender
  reconnect c s = reconnect_by s.pending_reg2_conn c s

  abbrev pub keep_alive : ℕ → Conn → Sender → Sender
  keep_alive time c s =
      let counted = record s { active_connections = s.active_connections + 1 } in
      if ltb (c.last_sent + idle_time) time then send_keepalive c counted else counted

  -- The body of the loop for one connection.
  unfoldable pub keep_conn : ℕ → Conn → Sender → Conn × Sender
  unfolding conn_timed_out open_socket note_failure reconnect_by send_keepalive
  keep_conn time c s =
      if not (is_open c.fd)
      then (let (done, c', s') = open_socket ret c s in (c', s'))
      else if conn_timed_out c time
      then (note_failure c, reconnect (note_failure c) s)
      else (c, keep_alive time c s)

  unfoldable pub keep_conns : ℕ → List Conn → Sender → List Conn × Sender
  unfolding keep_conn
  keep_conns time [] s = ([], s)
  keep_conns time (c ∷ cs) s =
      let (c', s1) = keep_conn time c s in let (rest, s2) = keep_conns time cs s1 in (c' ∷ rest, s2)

  -- The walk through the resolved addresses.
  unfoldable pub try_addrs : List SockAddr → Sender → Result Sender
  unfolding set_srtla_addr
  try_addrs [] s = exited
  try_addrs (addr ∷ rest) s =
      ok (record (set_srtla_addr addr s) { addrs = rest; all_failed_at = 0 })

  -- All connections have failed for too long.
  unfoldable pub next_addr : Sender → Result Sender
  unfolding try_addrs
  next_addr s = if s.has_connected then exited else try_addrs s.addrs s

  abbrev pub failed_since : ℕ → Sender → ℕ
  failed_since ms s = if s.all_failed_at == 0 then ms else s.all_failed_at

  unfoldable pub check_failed : ℕ → Sender → Result Sender
  unfolding next_addr
  check_failed ms s =
      let noted = record s { all_failed_at = failed_since ms s } in
      if not (s.active_connections == 0)
      then ok (record s { all_failed_at = 0 })
      else if ltb (noted.all_failed_at + global_timeout * 1000) ms
      then next_addr noted
      else ok noted

  -- The loop, and what stands before it.
  abbrev pub kept : ℕ → Sender → Sender
  kept time s =
      let s1 = expire_pending time (record s { active_connections = 0 }) in
      let (cs, s2) = keep_conns time s1.conns s1 in record s2 { conns = cs }

  abbrev pub ran_at : ℕ → Result Sender → Result Sender
  ran_at ms (ok s) = ok (record s { last_ran = ms })
  ran_at ms exited = exited
  ran_at ms Result.undefined = Result.undefined

  -- The time is `none` where get_ms fails.
  unfoldable pub connection_housekeeping : Option ℕ → Sender → Result Sender
  unfolding keep_conns check_failed
  connection_housekeeping none s = ok s
  connection_housekeeping (some ms) s =
      if ltb ms (s.last_ran + housekeeping_int)
      then ok s
      else ran_at ms (check_failed ms (kept (ms / 1000) s))
