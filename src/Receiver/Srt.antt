-- ===== src/Receiver/Srt.antt =====
-- src/protocol/srt_handler.cpp and forward_policy.h: the socket towards the SRT server.
-- What log_forward_drop tells the log is in DropLog.
pub mod Valid
pub mod Outcomes
use srtla.Base.{
  ℕ, suc, ◌+◌, ◌-◌, Bool, true, false, not, ◌&&◌, ◌||◌, Option, none, some, List, [], ◌∷◌, ◌++◌,
  leb, ltb, ◌==◌, if◌then◌else◌, ℤ, pos, negsuc, ltb_ℤ, eqb_ℤ, pos_part, length, take, map,
}
use srtla.Addr.{SockAddr, af_inet, af_inet6, slice}
use srtla.AuthLimiter.{record_failure}
use srtla.Connection.{Connection}
use srtla.Group.{Group, get_client_addresses}
use srtla.Metrics
use srtla.Metrics.{Counter}
use srtla.Os.{
  Os, Syscall, send, socket, set_rcvbuf, set_sndbuf, get_flags, set_nonblock, connect, epoll_add,
  close, sendmmsg,
}
use srtla.Quality.Evaluate.{is_empty}
use srtla.Registry.{max_conns_per_group}
use srtla.Wire.{is_srt_ack, is_srt_nak, is_srt_shutdown, is_srt_handshake_reject, srt_min_len}
use srtla.Receiver.{
  Receiver, count, call, pad_sendto, drop_group, put_group, write_socket_info_file,
}

-- EAGAIN (the same as EWOULDBLOCK), ENOBUFS and EINTR of Linux.
unfoldable pub is_transient_forward_error : ℕ → Bool
is_transient_forward_error err = err == 11 || err == 105 || err == 4

-- What the handler was given at its construction.
pub record Config : Type 0 where
  pub srt_addr : SockAddr
  pub epoll_fd : ℤ

module _ (os : Os) (cfg : Config) where
  abbrev pub is_ok : ℤ → Bool
  is_ok z = eqb_ℤ z (pos 0)

  -- The calls that set a new socket up, in order; the first that fails ends the row.
  unfoldable pub run_calls : List (Syscall × (ℤ → Bool)) → Receiver → Bool × Receiver
  run_calls [] r = (true, r)
  run_calls ((c, test) ∷ rest) r =
      let later = run_calls rest (call c r) in
      if test (os.ret r.calls c) then later else (false, call c r)

  abbrev pub is_ip : Bool
  is_ip = cfg.srt_addr.family == af_inet || cfg.srt_addr.family == af_inet6

  -- `connect` is not called for another family; `ret` is then -1, and the function gives up.
  abbrev pub connect_calls : ℤ → ℕ → List (Syscall × (ℤ → Bool))
  connect_calls sock handle =
      if is_ip then (connect sock cfg.srt_addr, is_ok) ∷ (epoll_add sock handle, is_ok) ∷ [] else []

  abbrev pub setup_calls : ℤ → ℕ → List (Syscall × (ℤ → Bool))
  setup_calls sock handle =
      (set_rcvbuf sock, is_ok)
      ∷ (set_sndbuf sock, is_ok)
      ∷ (get_flags sock, (λ z. not (eqb_ℤ z (negsuc 0))))
      ∷ (set_nonblock sock, (λ z. not (eqb_ℤ z (negsuc 0))))
      ∷ connect_calls sock handle

  -- What a group becomes once its socket is set up.
  abbrev pub with_socket : Group → ℤ → Group
  with_socket g sock = record g { srt_sock = sock; epoll_fd = cfg.epoll_fd }

  abbrev pub give_up : ℤ → Group → Receiver → Option Group × Receiver
  give_up sock g r = (none, drop_group Metrics.groups_removed_srt_error g (call (close sock) r))

  -- The group with its socket, or `none` where the group was removed.
  unfoldable pub set_up : ℤ → Group → Receiver → Option Group × Receiver
  set_up sock g r =
      let (okay, r') = run_calls (setup_calls sock g.handle) r in
      if not okay || not is_ip then give_up sock g r' else (
        some (with_socket g sock),
        write_socket_info_file (with_socket g sock) (put_group (with_socket g sock) r'),
      )

  unfoldable pub ensure_group_socket : Group → Receiver → Option Group × Receiver
  unfolding set_up
  ensure_group_socket g r =
      if not (ltb_ℤ g.srt_sock (pos 0))
      then (some g, r)
      else (let sock = os.ret r.calls (socket cfg.srt_addr.family) in
          let r' = call (socket cfg.srt_addr.family) r in
          if ltb_ℤ sock (pos 0)
          then (none, drop_group Metrics.groups_removed_srt_error g r')
          else set_up sock g r')

  -- The send and what follows it; the result is the handler's.
  unfoldable pub forward_on : Group → List ℕ → Receiver → Bool × Receiver
  forward_on g packet r =
      let ret = os.ret r.calls (send g.srt_sock packet) in
      let r' = call (send g.srt_sock packet) r in
      if eqb_ℤ ret (pos (length packet))
      then (
        true,
        count Metrics.forwarded_bytes (length packet) (count Metrics.forwarded_packets 1 r'),
      )
      else if ltb_ℤ ret (pos 0) && is_transient_forward_error (os.errno r'.calls)
      then (true, count Metrics.forward_dropped 1 r')
      else (
        false,
        drop_group Metrics.groups_removed_srt_error g (count Metrics.forward_errors 1 r'),
      )

  -- `packet` is the `length` bytes from `buffer` on.
  unfoldable pub forward_to_srt_server : Group → List ℕ → Receiver → Bool × Receiver
  unfolding ensure_group_socket forward_on
  forward_to_srt_server g packet r =
      let (ready, r') = ensure_group_socket g r in
      elim ready [ none ↦ (false, r') | some g' ↦ forward_on g' packet r' ]

  abbrev pub or_zero : Option ℕ → ℕ
  or_zero none = 0
  or_zero (some t) = t

  -- The packet is marked as an ACK of the group, and a rejection is counted against its address.
  unfoldable pub note_auth : Bool → Group → Receiver → Receiver
  note_auth failed g r =
      let (entries, values) =
        record_failure r.entries r.values g.last_addr (or_zero (os.get_seconds r.calls)) in
      if failed then record r { entries = entries; values = values } else r

  -- ACKs and NAKs go to the group's first sixteen connections.
  unfoldable pub broadcast : Group → List ℕ → Receiver → Receiver
  broadcast g packet r =
      let addrs = take max_conns_per_group (get_client_addresses g) in
      let sent = os.ret r.calls (sendmmsg addrs packet) in
      let r' = call (sendmmsg addrs packet) r in
      if ltb_ℤ sent (pos 0)
      then count Metrics.send_err_downstream (length addrs) r'
      else if ltb (pos_part sent) (length addrs)
      then count Metrics.send_err_downstream (length addrs - pos_part sent) r'
      else r'

  unfoldable pub send_back : Group → List ℕ → Receiver → Receiver
  send_back g packet r =
      let (ret, r') = pad_sendto os r g.last_addr packet in
      if eqb_ℤ ret (pos (length packet)) then r' else count Metrics.send_err_downstream 1 r'

  abbrev pub tear_down : Bool → Group → Receiver → Receiver
  tear_down failed g r = if failed then drop_group Metrics.groups_removed_auth g r else r

  -- The mark of an ACK, and the verdict that reads it.
  abbrev pub mark : Group → List ℕ → ℕ → Group
  mark g buf n = if is_srt_ack buf n then record g { established = true } else g

  unfoldable pub failed_auth : Group → List ℕ → ℕ → Bool
  failed_auth g buf n =
      is_srt_handshake_reject buf n || (is_srt_shutdown buf n && not (mark g buf n).established)

  -- A packet of at least sixteen bytes from the SRT server.
  unfoldable pub relay : Group → List ℕ → ℕ → Receiver → Receiver
  unfolding note_auth broadcast send_back
  relay g buf n r =
      let failed = failed_auth g buf n in
      let r' = note_auth failed g (put_group (mark g buf n) r) in
      if is_srt_ack buf n || is_srt_nak buf n
      then (if is_empty g.conns
          then r'
          else tear_down failed (mark g buf n) (broadcast g (slice buf 0 n) r'))
      else tear_down failed (mark g buf n) (send_back g (slice buf 0 n) r')

  -- `n` is what recv returned, and `buf` the buffer after it.
  unfoldable pub handle_srt_data : Group → ℤ → List ℕ → Receiver → Receiver
  unfolding relay
  handle_srt_data g n buf r =
      if ltb_ℤ n (pos srt_min_len)
      then drop_group Metrics.groups_removed_srt_error g r
      else relay g buf (pos_part n)
          (count Metrics.srt_bytes_received (pos_part n) (count Metrics.srt_packets_received 1 r))
