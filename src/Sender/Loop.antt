-- ===== src/Sender/Loop.antt =====
-- The main function of src/sender.cpp: what it sets up, and its loop.
use srtla.Base.{
  ℕ, ◌/◌, true, false, not, Option, none, some, List, [], ◌∷◌, ◌++◌, ltb, if◌then◌else◌, ℤ, pos,
  replicate, ◌==◌,
}
use srtla.Addr.{SockAddr, zero_addr}
use srtla.Wire.{srtla_id_len}
use srtla.Sender.{
  Conn, Sender, Call, Result, ok, exited, ◌>>=◌, socket, bind, call, is_open, find_conn,
  add_active_fd,
}
use srtla.Sender.Conns.{setup_conns, update_conns, open_conns}
use srtla.Sender.Housekeeping.{connection_housekeeping, set_srtla_addr}
use srtla.Sender.Receive.{Read, handle_srtla_data}
use srtla.Sender.Select.{SrtRead, handle_srt_data}

-- What a round of the loop meets: the file, where it is read; the time for housekeeping; what the
-- SRT caller sent, if its socket is ready; and what is read from the socket of the connection with
-- the given handle, if that is ready.
pub record Round : Type 0 where
  pub file : Option (List (List ℕ))
  pub ms : Option ℕ
  pub from_srt : Option SrtRead
  pub from_srtla : ℕ → Option Read

-- SIGHUP arrives, or the loop goes round.
pub data Event : Type 0 where
  sighup : Event
  round : Round → Event

-- The global variables before main.
abbrev pub globals : Sender
globals = record {
  conns = [];
  active_fds = [];
  listenfd = pos 0;
  srtla_addr = zero_addr;
  addrs = [];
  srt_addr = zero_addr;
  active_connections = 0;
  has_connected = false;
  pending_reg2_conn = none;
  pending_reg_timeout = 0;
  srtla_id = replicate srtla_id_len 0;
  do_update_conns = false;
  all_failed_at = 0;
  last_ran = 0;
  next = 0;
  calls = [];
}

unfoldable pub schedule_update_conns : Sender → Sender
schedule_update_conns s = record s { do_update_conns = true }

-- What main is given: the file, the random bytes, the address to listen on, and what getaddrinfo
-- returns.
pub record Setup : Type 0 where
  pub file : Option (List (List ℕ))
  pub random : List ℕ
  pub listen_addr : SockAddr
  pub resolved : List SockAddr

module _ (inet_addr : List ℕ → List ℕ) (ret : List Call → Call → ℤ) where
  unfoldable pub update_if_due : Option (List (List ℕ)) → Sender → Result Sender
  unfolding update_conns
  update_if_due file s =
      if s.do_update_conns
      then (update_conns ret inet_addr file s >>= λ s'. ok (record s' { do_update_conns = false }))
      else ok s

  abbrev pub read_srt : Option SrtRead → Sender → Sender
  read_srt none s = s
  read_srt (some r) s = handle_srt_data ret r s

  -- One connection of the loop over the sockets that are ready.
  unfoldable pub read_conn : (ℕ → Option Read) → Conn → Sender → Result Sender
  unfolding handle_srtla_data
  read_conn reads c s =
      if not (is_open c.fd)
      then ok s
      else elim (reads c.handle) [ none ↦ ok s | some r ↦ handle_srtla_data ret c r s ]

  -- The loop over the connections, by their handles.
  unfoldable pub read_conns : (ℕ → Option Read) → List Conn → Sender → Result Sender
  unfolding read_conn find_conn
  read_conns reads [] s = ok s
  read_conns reads (c ∷ cs) s = elim (find_conn c.handle s.conns) [
    | none ↦ read_conns reads cs s
    | some c' ↦ read_conn reads c' s >>= λ s'. read_conns reads cs s'
  ]

  unfoldable pub handle_round : Round → Sender → Result Sender
  unfolding update_if_due connection_housekeeping handle_srt_data read_conns
  handle_round r s = update_if_due r.file s >>= λ s1. connection_housekeeping ret r.ms s1 >>= λ s2.
      let s3 = read_srt r.from_srt s2 in read_conns r.from_srtla s3.conns s3

  unfoldable pub handle_event : Event → Sender → Result Sender
  unfolding handle_round schedule_update_conns
  handle_event sighup s = ok (schedule_update_conns s)
  handle_event (round r) s = handle_round r s

  unfoldable pub main_loop : List Event → Sender → Result Sender
  unfolding handle_event
  main_loop [] s = ok s
  main_loop (e ∷ es) s = handle_event e s >>= λ s'. main_loop es s'

  -- The socket of the SRT caller, bound.
  unfoldable pub listen : SockAddr → Sender → Result Sender
  unfolding add_active_fd
  listen addr s =
      let (fd, s1) = call ret socket s in
      let (bound, s2) = call ret (bind fd addr) s1 in
      if not (is_open fd)
      then exited
      else if not (is_open bound)
      then exited
      else ok (add_active_fd fd (record s2 { listenfd = fd }))

  -- The first address that getaddrinfo gives.
  unfoldable pub first_addr : List SockAddr → Sender → Result Sender
  unfolding set_srtla_addr
  first_addr [] s = exited
  first_addr (addr ∷ rest) s = ok (set_srtla_addr addr (record s { addrs = rest }))

  -- The sockets of the connections, and the receiver's address.
  unfoldable pub connect_first : List SockAddr → Sender → Result Sender
  unfolding open_conns first_addr
  connect_first resolved s =
      let (connected, s') = open_conns ret s in
      if ltb connected 1 then exited else first_addr resolved s'

  -- From the test on the number of connections on.
  unfoldable pub set_up_sockets : Setup → ℕ × Sender → Result Sender
  unfolding listen connect_first
  set_up_sockets u (conn_count, s) =
      if conn_count == 0
      then exited
      else (listen u.listen_addr
            (record s { srtla_id = u.random ++ replicate (srtla_id_len / 2) 0 })
          >>= λ t. connect_first u.resolved t)

  -- main, up to its loop.
  unfoldable pub set_up : Setup → Result Sender
  unfolding setup_conns set_up_sockets
  set_up u = setup_conns inet_addr u.file globals >>= λ counted. set_up_sockets u counted
