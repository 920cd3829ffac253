-- ===== src/Sender/Housekeeping/Silent.antt =====
-- What the loop of connection_housekeeping in src/sender.cpp does where nothing is heard.
use srtla.Base.{
  ℕ, ◌+◌, ◌<◌, ◌≤◌, ◌≡◌, refl, ◌∙◌, inl, inr, true, not, Option, none, some, List, [], ◌∷◌, ltb,
  arith, ℤ, Bool-cases,
}
use srtla.Sender.{Conn, Sender, Call, is_open, remove_active_fd}
use srtla.Sender.Conns.{close_old, bind_socket, open_socket}
use srtla.Sender.Select.{conn_timed_out}
use srtla.Sender.Housekeeping.{
  reset_conn, note_failure, expire_pending, reconnect_by, keep_conn, keep_conns, kept,
}

-- Nothing has been heard on any connection for so long that it has timed out.
abbrev pub Silent : ℕ → List Conn → Type 0
Silent time [] = Unit {0}
Silent time (c ∷ cs) = (c.last_rcvd + 4 < time) × Silent time cs

-- What the loop over silent connections leaves alone.
pub record Same (s t : Sender) : Type 0 where
  pub active : t.active_connections ≡ s.active_connections
  pub connected : t.has_connected ≡ s.has_connected
  pub addrs : t.addrs ≡ s.addrs
  pub failed_at : t.all_failed_at ≡ s.all_failed_at

Same-refl : (s : Sender) → Same s s
Same-refl s = record { active = refl; connected = refl; addrs = refl; failed_at = refl }

Same-trans : (s t u : Sender) → Same s t → Same t u → Same s u
Same-trans s t u k l = record {
  active = l.active ∙ k.active;
  connected = l.connected ∙ k.connected;
  addrs = l.addrs ∙ k.addrs;
  failed_at = l.failed_at ∙ k.failed_at;
}

module _ (ret : List Call → Call → ℤ) where
  close_old-Same :
      (c : Conn) (s : Sender)
      → ((close_old ret c s).0.last_rcvd ≡ c.last_rcvd) × Same s (close_old ret c s).1
  unfolding remove_active_fd
  close_old-Same c s = elim (Bool-cases (is_open c.fd)) [
    | inl e ↦
        simp e (refl, record { active = refl; connected = refl; addrs = refl; failed_at = refl })
    | inr e ↦ simp e (refl, Same-refl s)
  ]

  bind_socket-Same :
      (fd : ℤ) (c : Conn) (s : Sender)
      → ((bind_socket ret fd c s).1.last_rcvd ≡ c.last_rcvd) × Same s (bind_socket ret fd c s).2
  unfolding bind_socket
  bind_socket-Same fd c s = ground arith

  open_socket-Same :
      (c : Conn) (s : Sender)
      → ((open_socket ret c s).1.last_rcvd ≡ c.last_rcvd) × Same s (open_socket ret c s).2
  unfolding open_socket
  open_socket-Same c s =
      let d = (close_old ret c s).0 in
      let s1 = (close_old ret c s).1 in
      let fd = ret s1.calls Call.socket in
      let s2 = record s1 { calls = Call.socket ∷ s1.calls } in
      let k = close_old-Same c s in
      let b = bind_socket-Same fd d s2 in
      let k2 : Same s s2 = record {
        active = k.1.active;
        connected = k.1.connected;
        addrs = k.1.addrs;
        failed_at = k.1.failed_at;
      } in
      elim (Bool-cases (not (is_open fd))) [
        | inl e ↦ rw e (k.0, k2)
        | inr e ↦ rw e (b.0 ∙ k.0, Same-trans s s2 (bind_socket ret fd d s2).2 k2 b.1)
      ]

  reconnect_by-Same : (p : Option ℕ) (c : Conn) (s : Sender) → Same s (reconnect_by ret p c s)
  unfolding reconnect_by
  reconnect_by-Same none c s = ground arith
  reconnect_by-Same (some p) c s = ground arith

  note_failure-last : (c : Conn) → (note_failure c).last_rcvd ≤ c.last_rcvd
  unfolding note_failure reset_conn
  note_failure-last c = ground arith

  keep_conn-Same :
      (time : ℕ) (c : Conn) (s : Sender)
      → c.last_rcvd + 4 < time
      → ((keep_conn ret time c s).0.last_rcvd ≤ c.last_rcvd) × Same s (keep_conn ret time c s).1
  unfolding keep_conn conn_timed_out
  keep_conn-Same time c s quiet =
      let k = open_socket-Same c s in
      let out : conn_timed_out c time ≡ true = ground arith in
      elim (Bool-cases (not (is_open c.fd))) [
        | inl e ↦ simp e (omega (arith, k.0), k.1)
        | inr e ↦
            simp (e, out)
              (note_failure-last c, reconnect_by-Same s.pending_reg2_conn (note_failure c) s)
      ]

  keep_conns-Same :
      (time : ℕ) (cs : List Conn) (s : Sender)
      → Silent time cs
      → Silent time (keep_conns ret time cs s).0 × Same s (keep_conns ret time cs s).1
  unfolding keep_conns
  keep_conns-Same time [] s quiet = (tt, Same-refl s)
  keep_conns-Same time (c ∷ cs) s quiet =
      let o = keep_conn ret time c s in
      let k = keep_conn-Same time c s quiet.0 in
      let l = keep_conns-Same time cs o.1 quiet.1 in
      ((omega (arith, k.0, quiet.0), l.0), Same-trans s o.1 (keep_conns ret time cs o.1).1 k.1 l.1)

  pub kept-Same :
      (time : ℕ) (s : Sender)
      → Silent time s.conns
      → Silent time (kept ret time s).conns
        × Same (record s { active_connections = 0 }) (kept ret time s)
  kept-Same time s quiet =
      let s0 = record s { active_connections = 0 } in
      let s1 = expire_pending time s0 in
      let same : s1.conns ≡ s.conns = elim (Bool-cases (ltb s.pending_reg_timeout time)) [
        | inl e ↦ rw e refl
        | inr e ↦ rw e refl
      ] in
      let e : Same s0 s1 = elim (Bool-cases (ltb s.pending_reg_timeout time)) [
        | inl e ↦ rw e (record { active = refl; connected = refl; addrs = refl; failed_at = refl })
        | inr e ↦ rw e (Same-refl s0)
      ] in
      let k = keep_conns-Same time s1.conns s1 (rw same quiet) in
      let o = (keep_conns ret time s1.conns s1).1 in
      let l = Same-trans s0 s1 o e k.1 in
      (
        k.0,
        record {
          active = l.active;
          connected = l.connected;
          addrs = l.addrs;
          failed_at = l.failed_at;
        },
      )
