-- ===== src/Receiver/Srt/Valid.antt =====
-- What the handler of src/protocol/srt_handler.cpp keeps valid.
use srtla.Base.{
  ℕ, ◌≡◌, refl, sym, subst, Bool, true, false, not, ◌&&◌, ◌||◌, List, [], ◌∷◌, arith, Bool-cases,
  Option-cases, inl, inr, length, ℤ, pos, ltb_ℤ, eqb_ℤ, pos_part,
}
use srtla.Addr.{slice}
use srtla.Group.{Group}
use srtla.Os.{Os, Syscall, close, socket, send}
use srtla.Registry.Lookup.{MemGroup, claims}
use srtla.Registry.Kin.{Kin, Kin-refl, Kin-IsValid}
use srtla.Receiver.{Receiver, count, call, pad_sendto, put_group}
use srtla.Receiver.Quiet.{
  Quiet, Quiet-refl, Quiet-trans, count-Quiet, call-Quiet, pad_sendto-Quiet,
  write_socket_info_file-Quiet, Valid, Quiet-Valid, drop_group-Valid,
}
use srtla.Quality.Evaluate.{is_empty}
use srtla.Wire.{is_srt_ack, is_srt_nak, srt_min_len}
use srtla.Receiver.Srt.{
  is_transient_forward_error, broadcast, send_back, note_auth, tear_down, mark, failed_auth, relay,
  handle_srt_data, Config, run_calls, setup_calls, with_socket, set_up, ensure_group_socket,
  forward_on, forward_to_srt_server, is_ip,
}

pub put_group-Valid :
    (r : Receiver) (g h : Group) → Valid r → MemGroup g r.groups → Kin g h → Valid (put_group h r)
unfolding put_group
put_group-Valid r g h v m k = Kin-IsValid r.groups r.next g h v m k

module _ (os : Os) (cfg : Config) where
  pub run_calls-Quiet :
      (cs : List (Syscall × (ℤ → Bool))) (r : Receiver) → Quiet r (run_calls os cfg cs r).1
  unfolding run_calls
  run_calls-Quiet [] r = Quiet-refl r
  run_calls-Quiet ((c, test) ∷ rest) r = elim (Bool-cases (test (os.ret r.calls c))) [
    | inl e ↦ rw e (Quiet-trans r (call c r) _ (call-Quiet c r) (run_calls-Quiet rest (call c r)))
    | inr e ↦ rw e (call-Quiet c r)
  ]

  with_socket-Kin : (g : Group) (sock : ℤ) → g.data_seen ≡ true → Kin g (with_socket os cfg g sock)
  unfolding claims
  with_socket-Kin g sock d = record {
    handle = refl;
    okay = λ k. record {
      few = k.few;
      apart = k.apart;
      logs = k.logs;
      closed = λ e. absurd (cc (d, e));
    };
    narrow = λ a p. p;
  }

  set_up-Valid :
      (sock : ℤ) (g : Group) (r : Receiver)
      → Valid r
      → MemGroup g r.groups
      → g.data_seen ≡ true
      → Valid (set_up os cfg sock g r).1
  unfolding set_up
  set_up-Valid sock g r v m d =
      let s = run_calls os cfg (setup_calls os cfg sock g.handle) r in
      let q = run_calls-Quiet (setup_calls os cfg sock g.handle) r in
      let v' = Quiet-Valid r s.1 q v in
      elim (Bool-cases (not s.0 || not (is_ip os cfg))) [
        | inl e ↦ rw e (
            drop_group-Valid _ g (call (close sock) s.1)
              (Quiet-Valid s.1 _ (call-Quiet (close sock) s.1) v'))
        | inr e ↦ rw e (
            Quiet-Valid (put_group (with_socket os cfg g sock) s.1) _
              (write_socket_info_file-Quiet (with_socket os cfg g sock) _)
              (put_group-Valid s.1 g (with_socket os cfg g sock) v'
                (subst (MemGroup g) (sym q.groups) m) (with_socket-Kin g sock d)))
      ]

  forward_on-Valid :
      (g : Group) (packet : List ℕ) (r : Receiver)
      → Valid r
      → Valid (forward_on os cfg g packet r).1
  unfolding forward_on count call
  forward_on-Valid g packet r v =
      let ret = os.ret r.calls (send g.srt_sock packet) in
      elim (Bool-cases (eqb_ℤ ret (pos (length packet)))) [
        | inl sent ↦ rw sent v
        | inr unsent ↦
            elim (Bool-cases (
              ltb_ℤ ret (pos 0)
              && is_transient_forward_error (os.errno (send g.srt_sock packet ∷ r.calls)))) [
                | inl full ↦ rw (unsent, full) v
                | inr broken ↦
                    rw (unsent, broken)
                      (drop_group-Valid _ g (count _ 1 (call (send g.srt_sock packet) r)) v)
              ]
      ]

  ensure_group_socket-Valid :
      (g : Group) (r : Receiver)
      → Valid r
      → MemGroup g r.groups
      → g.data_seen ≡ true
      → Valid (ensure_group_socket os cfg g r).1
  unfolding ensure_group_socket call
  ensure_group_socket-Valid g r v m d = elim (Bool-cases (ltb_ℤ g.srt_sock (pos 0))) [
    | inr there ↦ rw there v
    | inl missing ↦
        let sock = os.ret r.calls (socket cfg.srt_addr.family) in
        let r' = call (socket cfg.srt_addr.family) r in
        elim (Bool-cases (ltb_ℤ sock (pos 0))) [
          | inl failed ↦ rw (missing, failed) (drop_group-Valid _ g r' v)
          | inr made ↦ rw (missing, made) (set_up-Valid sock g r' v m d)
        ]
  ]

  -- Forwarding a packet for a group of the table that has seen data keeps the table valid, also
  -- where a socket has to be made, and where the group is dropped on the way.
  pub forward_to_srt_server-Valid :
      (g : Group) (packet : List ℕ) (r : Receiver)
      → Valid r
      → MemGroup g r.groups
      → g.data_seen ≡ true
      → Valid (forward_to_srt_server os cfg g packet r).1
  unfolding forward_to_srt_server
  forward_to_srt_server-Valid g packet r v m d =
      let e = ensure_group_socket os cfg g r in
      let ready = ensure_group_socket-Valid g r v m d in
      elim (Option-cases e.0) [
        | inl gone ↦ rw (gone, forward_to_srt_server) ready
        | inr (h, there) ↦ rw (there, forward_to_srt_server) (forward_on-Valid h packet e.1 ready)
      ]

  broadcast-Quiet :
      (g : Group) (packet : List ℕ) (r : Receiver) → Quiet r (broadcast os cfg g packet r)
  unfolding broadcast count call
  broadcast-Quiet g packet r = ground arith

  pub send_back-Quiet :
      (g : Group) (packet : List ℕ) (r : Receiver) → Quiet r (send_back os cfg g packet r)
  unfolding send_back
  send_back-Quiet g packet r =
      let s = pad_sendto os r g.last_addr packet in
      let p = pad_sendto-Quiet os r g.last_addr packet in
      elim (Bool-cases (eqb_ℤ s.0 (pos (length packet)))) [
        | inl sent ↦ rw sent p
        | inr failed ↦ rw failed (Quiet-trans r s.1 _ p (count-Quiet _ 1 s.1))
      ]

  note_auth-Valid :
      (failed : Bool) (g : Group) (r : Receiver) → Valid r → Valid (note_auth os cfg failed g r)
  unfolding note_auth
  note_auth-Valid true g r v = v
  note_auth-Valid false g r v = v

  tear_down-Valid :
      (failed : Bool) (g : Group) (r : Receiver) → Valid r → Valid (tear_down os cfg failed g r)
  tear_down-Valid true g r v = drop_group-Valid _ g r v
  tear_down-Valid false g r v = v

  pub mark-Kin : (g : Group) (buf : List ℕ) (n : ℕ) → Kin g (mark os cfg g buf n)
  unfolding claims
  mark-Kin g buf n = elim (Bool-cases (is_srt_ack buf n)) [
    | inr other ↦ rw other (Kin-refl g)
    | inl ack ↦ rw ack (record {
      handle = refl;
      okay = λ k. record { few = k.few; apart = k.apart; logs = k.logs; closed = k.closed };
      narrow = λ a p. p;
    })
  ]

  relay-Valid :
      (g : Group) (buf : List ℕ) (n : ℕ) (r : Receiver)
      → Valid r
      → MemGroup g r.groups
      → Valid (relay os cfg g buf n r)
  unfolding relay
  relay-Valid g buf n r v m =
      let failed = failed_auth os cfg g buf n in
      let h = mark os cfg g buf n in
      let r' = note_auth os cfg failed g (put_group h r) in
      let v' : Valid r' =
        note_auth-Valid failed g (put_group h r) (put_group-Valid r g h v m (mark-Kin g buf n)) in
      elim (Bool-cases (is_srt_ack buf n || is_srt_nak buf n)) [
        | inr other ↦ rw other (
            tear_down-Valid failed h _ (Quiet-Valid r' _ (send_back-Quiet g (slice buf 0 n) r') v'))
        | inl both ↦ elim (Bool-cases (is_empty g.conns)) [
          | inl nobody ↦ rw (both, nobody) v'
          | inr some_there ↦
              rw (both, some_there)
                (tear_down-Valid failed h _
                  (Quiet-Valid r' _ (broadcast-Quiet g (slice buf 0 n) r') v'))
        ]
      ]

  -- Whatever the SRT server's socket returns for a group of the table, an error or any packet,
  -- handling it keeps the table valid.
  pub handle_srt_data-Valid :
      (g : Group) (n : ℤ) (buf : List ℕ) (r : Receiver)
      → Valid r
      → MemGroup g r.groups
      → Valid (handle_srt_data os cfg g n buf r)
  unfolding handle_srt_data count
  handle_srt_data-Valid g n buf r v m = elim (Bool-cases (ltb_ℤ n (pos srt_min_len))) [
    | inl failed ↦ rw failed (drop_group-Valid _ g r v)
    | inr packet ↦
        rw packet (relay-Valid g buf (pos_part n) (count _ (pos_part n) (count _ 1 r)) v m)
  ]
