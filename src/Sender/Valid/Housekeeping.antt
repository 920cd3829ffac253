-- ===== src/Sender/Valid/Housekeeping.antt =====
-- What connection_housekeeping of src/sender.cpp leaves sound.
use srtla.Base.{
  ℕ, ◌+◌, ◌*◌, ◌/◌, refl, inl, inr, not, Option, none, some, List, [], ◌∷◌, ltb, ◌==◌, arith, ℤ,
  Bool-cases,
}
use srtla.Addr.{SockAddr}
use srtla.Sender.{global_timeout, housekeeping_int, Conn, Sender, Call, Result, ok, exited, is_open}
use srtla.Sender.Select.{conn_timed_out}
use srtla.Sender.Housekeeping.{
  note_failure, expire_pending, send_keepalive, reconnect_by, keep_alive, keep_conn, keep_conns,
  try_addrs, next_addr, set_srtla_addr, failed_since, check_failed, kept, ran_at,
  connection_housekeeping,
}
use srtla.Sender.Valid.{
  IsValid, KeepsConns, Keeps, KeepsConns-refl, KeepsConns-cons, Keeps-refl, Keeps-trans,
  Keeps-IsValid, send_reg1-Keeps, send_reg2-Keeps,
}
use srtla.Sender.Valid.Receive.{ValidOn}
use srtla.Sender.Valid.Sockets.{
  Stays, Stays-refl, note_failure-Stays, open_socket-Keeps, put_conns-Keeps,
}

module _ (ret : List Call → Call → ℤ) where
  reconnect_by-Keeps : (p : Option ℕ) (c : Conn) (s : Sender) → Keeps s (reconnect_by ret p c s)
  unfolding reconnect_by
  reconnect_by-Keeps none c s = send_reg2-Keeps ret c s
  reconnect_by-Keeps (some p) c s = elim (Bool-cases (p == c.handle)) [
    | inl e ↦ rw e (send_reg1-Keeps ret c s)
    | inr e ↦ rw e (Keeps-refl s)
  ]

  keep_alive-Keeps : (time : ℕ) (c : Conn) (s : Sender) → Keeps s (keep_alive ret time c s)
  unfolding send_keepalive
  keep_alive-Keeps time c s = ground (arith, KeepsConns-refl s.conns)

  keep_conn-Keeps :
      (time : ℕ) (c : Conn) (s : Sender)
      → Stays c (keep_conn ret time c s).0 × Keeps s (keep_conn ret time c s).1
  unfolding keep_conn
  keep_conn-Keeps time c s = elim (Bool-cases (not (is_open c.fd))) [
    | inl e ↦ simp e (open_socket-Keeps ret c s)
    | inr e ↦ simp e (elim (Bool-cases (conn_timed_out c time)) [
      | inl e ↦
          simp e (note_failure-Stays c, reconnect_by-Keeps s.pending_reg2_conn (note_failure c) s)
      | inr e ↦ simp e (Stays-refl c, keep_alive-Keeps time c s)
    ])
  ]

  keep_conns-Keeps :
      (time : ℕ) (cs : List Conn) (s : Sender)
      → KeepsConns cs (keep_conns ret time cs s).0 × Keeps s (keep_conns ret time cs s).1
  unfolding keep_conns
  keep_conns-Keeps time [] s = (KeepsConns-refl [], Keeps-refl s)
  keep_conns-Keeps time (c ∷ cs) s =
      let o = keep_conn ret time c s in
      let k = keep_conn-Keeps time c s in
      let l = keep_conns-Keeps time cs o.1 in
      let rest = keep_conns ret time cs o.1 in
      (
        KeepsConns-cons c o.0 cs rest.0 k.0.same_handle k.0.source_kept k.0.sound l.0,
        Keeps-trans s o.1 rest.1 k.1 l.1,
      )

  module _ (half : List ℕ) where
    expire_pending-IsValid :
        (time : ℕ) (s : Sender) → IsValid half s → IsValid half (expire_pending time s)
    expire_pending-IsValid time s v = elim (Bool-cases (ltb s.pending_reg_timeout time)) [
      | inl e ↦ rw e (record {
        okay = v.okay;
        apart = v.apart;
        distinct = v.distinct;
        pending = tt;
        id_length = v.id_length;
        id_half = v.id_half;
      })
      | inr e ↦ rw e v
    ]

    kept-IsValid : (time : ℕ) (s : Sender) → IsValid half s → IsValid half (kept ret time s)
    kept-IsValid time s v =
        let s0 = record s { active_connections = 0 } in
        let s1 = expire_pending time s0 in
        let k = keep_conns-Keeps time s1.conns s1 in
        let o = keep_conns ret time s1.conns s1 in
        Keeps-IsValid half s1 (record o.1 { conns = o.0 }) (put_conns-Keeps ret s1 o.1 o.0 k.0 k.1)
          (expire_pending-IsValid time s0 (
            Keeps-IsValid half s s0
              (record {
                conns_kept = KeepsConns-refl s.conns;
                next_kept = refl;
                pending_kept = refl;
                id_kept = refl;
              })
              v))

    try_addrs-ValidOn :
        (addrs : List SockAddr) (s : Sender)
        → IsValid half s
        → ValidOn ret half (try_addrs ret addrs s)
    unfolding try_addrs set_srtla_addr
    try_addrs-ValidOn [] s v = tt
    try_addrs-ValidOn (addr ∷ rest) s v = record {
      okay = v.okay;
      apart = v.apart;
      distinct = v.distinct;
      pending = v.pending;
      id_length = v.id_length;
      id_half = v.id_half;
    }

    next_addr-ValidOn : (s : Sender) → IsValid half s → ValidOn ret half (next_addr ret s)
    unfolding next_addr
    next_addr-ValidOn s v = elim (Bool-cases s.has_connected) [
      | inl e ↦ rw e tt
      | inr e ↦ simp e (try_addrs-ValidOn s.addrs s v)
    ]

    -- A variable that no clause of validity reads.
    failed_at-IsValid :
        (ms : ℕ) (s : Sender) → IsValid half s → IsValid half (record s { all_failed_at = ms })
    failed_at-IsValid ms s v = record {
      okay = v.okay;
      apart = v.apart;
      distinct = v.distinct;
      pending = v.pending;
      id_length = v.id_length;
      id_half = v.id_half;
    }

    check_failed-ValidOn :
        (ms : ℕ) (s : Sender) → IsValid half s → ValidOn ret half (check_failed ret ms s)
    unfolding check_failed
    check_failed-ValidOn ms s v =
        let since = failed_since ret ms s in
        let t = record s { all_failed_at = since } in
        let w = failed_at-IsValid since s v in
        elim (Bool-cases (not (s.active_connections == 0))) [
          | inl e ↦ rw e (failed_at-IsValid 0 s v)
          | inr e ↦ rw e (elim (Bool-cases (ltb (since + global_timeout * 1000) ms)) [
            | inl late ↦ rw late (next_addr-ValidOn t w)
            | inr early ↦ rw early w
          ])
        ]

    ran_at-ValidOn :
        (ms : ℕ) (r : Result Sender) → ValidOn ret half r → ValidOn ret half (ran_at ret ms r)
    ran_at-ValidOn ms (ok s) v = record {
      okay = v.okay;
      apart = v.apart;
      distinct = v.distinct;
      pending = v.pending;
      id_length = v.id_length;
      id_half = v.id_half;
    }
    ran_at-ValidOn ms exited v = tt
    ran_at-ValidOn ms Result.undefined v = tt

    pub connection_housekeeping-ValidOn :
        (now : Option ℕ) (s : Sender)
        → IsValid half s
        → ValidOn ret half (connection_housekeeping ret now s)
    unfolding connection_housekeeping
    connection_housekeeping-ValidOn none s v = v
    connection_housekeeping-ValidOn (some ms) s v =
        elim (Bool-cases (ltb ms (s.last_ran + housekeeping_int))) [
          | inl e ↦ rw e v
          | inr e ↦ rw e (
              ran_at-ValidOn ms (check_failed ret ms (kept ret (ms / 1000) s))
                (check_failed-ValidOn ms (kept ret (ms / 1000) s) (kept-IsValid (ms / 1000) s v)))
        ]
