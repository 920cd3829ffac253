-- ===== src/Sender/Conns.antt =====
-- The connections and their sockets in src/sender.cpp, with parse_ip of src/common.c.
use srtla.Base.{
  ℕ, suc, ◌+◌, ◌*◌, Bool, true, false, not, ◌&&◌, Option, none, some, List, [], ◌∷◌, map, ◌==◌,
  if◌then◌else◌, ℤ, pos, negsuc, eqb_ℤ, replicate,
}
use srtla.Base.Assoc.{bytes_eq}
use srtla.Addr.{SockAddr, af_inet}
use srtla.Wire.{send_buf_size}
use srtla.Sender.{
  Conn, Sender, Call, Result, ok, exited, ◌>>=◌, socket, set_sndbuf, bind, close, call, call_,
  is_open, is_pending, add_active_fd, remove_active_fd, pkt_log_sz, window_def, window_mult,
}

-- memcmp of two `struct sockaddr` that parse_ip has filled: all other bytes are zero.
unfoldable pub same_src : SockAddr → SockAddr → Bool
same_src a b = a.family == b.family && a.port == b.port && bytes_eq.beq a.sin_addr b.sin_addr

unfoldable pub conn_find_by_src : SockAddr → List Conn → Option Conn
unfolding same_src
conn_find_by_src src [] = none
conn_find_by_src src (c ∷ cs) = if same_src src c.src then some c else conn_find_by_src src cs

-- What calloc leaves at 0, with the fields set after it.
unfoldable pub new_conn : ℕ → SockAddr → Conn
new_conn handle src = record {
  handle = handle;
  fd = negsuc 0;
  last_rcvd = 0;
  last_sent = 0;
  src = src;
  removed = false;
  in_flight_pkts = 0;
  window = window_def * window_mult;
  pkt_idx = 0;
  pkt_log = replicate pkt_log_sz (pos 0);
}

-- The first connection with this source is in the file.
unfoldable pub unmark : SockAddr → List Conn → List Conn
unfolding same_src
unmark src [] = []
unmark src (c ∷ cs) =
    if same_src src c.src then record c { removed = false } ∷ cs else c ∷ unmark src cs

-- The line up to its end.
abbrev pub cut_line : List ℕ → List ℕ
cut_line [] = []
cut_line (b ∷ bs) = let rest = cut_line bs in if b == 10 then [] else b ∷ rest

-- inet_addr gives the four bytes of the address, 255.255.255.255 for what it cannot read.
module _ (inet_addr : List ℕ → List ℕ) where
  unfoldable pub parse_ip : List ℕ → Option SockAddr
  parse_ip ip_str =
      if bytes_eq.beq (inet_addr ip_str) (replicate 4 255)
      then none
      else some (record { family = af_inet; port = 0; sin_addr = inet_addr ip_str; sin6_addr = [] })

  -- The source is looked up, and made if it is new.
  unfoldable pub add_src : SockAddr → Sender → ℕ × Sender
  unfolding conn_find_by_src unmark new_conn
  add_src src s = elim (conn_find_by_src src s.conns) [
    | none ↦ (1, record s { conns = new_conn s.next src ∷ s.conns; next = suc s.next })
    | some c ↦ (0, record s { conns = unmark src s.conns })
  ]

  -- One line of the file, and the connections made for it.
  unfoldable pub setup_line : List ℕ → Sender → ℕ × Sender
  unfolding parse_ip add_src
  setup_line line s = elim (parse_ip (cut_line line)) [ none ↦ (0, s) | some src ↦ add_src src s ]

  unfoldable pub setup_lines : List (List ℕ) → ℕ → Sender → ℕ × Sender
  unfolding setup_line
  setup_lines [] count s = (count, s)
  setup_lines (line ∷ lines) count s =
      let (made, s') = setup_line line s in setup_lines lines (count + made) s'

  -- The file's lines; `none` where it cannot be opened.
  unfoldable pub setup_conns : Option (List (List ℕ)) → Sender → Result (ℕ × Sender)
  unfolding setup_lines
  setup_conns none s = exited
  setup_conns (some lines) s = ok (setup_lines lines 0 s)

abbrev pub mark_removed : Conn → Conn
mark_removed c = record c { removed = true }

module _ (ret : List Call → Call → ℤ) where
  -- The steps that free a connection.
  unfoldable pub free_conn : Conn → Sender → Sender
  unfolding remove_active_fd
  free_conn c s =
      let pending = if is_pending s.pending_reg2_conn c.handle then none else s.pending_reg2_conn in
      call_ ret (close c.fd) (remove_active_fd c.fd (record s { pending_reg2_conn = pending }))

  unfoldable pub sweep : List Conn → Sender → List Conn × Sender
  unfolding free_conn
  sweep [] s = ([], s)
  sweep (c ∷ cs) s =
      let (kept, s') = sweep cs (if c.removed then free_conn c s else s) in
      (if c.removed then kept else c ∷ kept, s')

  abbrev pub swept : Sender → Sender
  swept s = record (sweep s.conns s).1 { conns = (sweep s.conns s).0 }

  unfoldable pub update_conns : (List ℕ → List ℕ) → Option (List (List ℕ)) → Sender → Result Sender
  unfolding setup_conns sweep
  update_conns inet_addr file s =
      setup_conns inet_addr file (record s { conns = map mark_removed s.conns }) >>= λ counted.
      ok (swept counted.1)

  abbrev pub close_old : Conn → Sender → Conn × Sender
  close_old c s =
      if is_open c.fd
      then (record c { fd = negsuc 0 }, call_ ret (close c.fd) (remove_active_fd c.fd s))
      else (c, s)

  -- The socket is made: its buffer is sized and it is bound, or it is closed again.
  unfoldable pub bind_socket : ℤ → Conn → Sender → Bool × Conn × Sender
  unfolding add_active_fd
  bind_socket fd c s =
      let (sized, s1) = call ret (set_sndbuf fd send_buf_size) s in
      let (bound, s2) = call ret (bind fd c.src) s1 in
      if not (eqb_ℤ sized (pos 0))
      then (false, c, call_ ret (close fd) s1)
      else if not (eqb_ℤ bound (pos 0))
      then (false, c, call_ ret (close fd) s2)
      else (true, record c { fd = fd }, add_active_fd fd s2)

  -- Whether the result is 0, and the connection after it.
  unfoldable pub open_socket : Conn → Sender → Bool × Conn × Sender
  unfolding bind_socket remove_active_fd
  open_socket c s =
      let (c', s1) = close_old c s in
      let (fd, s2) = call ret socket s1 in
      if not (is_open fd) then (false, c', s2) else bind_socket fd c' s2

  -- The loop with its variable `opened`.
  unfoldable pub open_each : List Conn → ℕ → Sender → ℕ × List Conn × Sender
  unfolding open_socket
  open_each [] opened s = (opened, [], s)
  open_each (c ∷ cs) opened s =
      let (done, c', s1) = open_socket c s in
      let (total, rest, s2) = open_each cs (if done then opened + 1 else opened) s1 in
      (total, c' ∷ rest, s2)

  unfoldable pub open_conns : Sender → ℕ × Sender
  unfolding open_each
  open_conns s = let (opened, cs, s') = open_each s.conns 0 s in (opened, record s' { conns = cs })
