-- ===== src/Sender/Valid/Sockets.antt =====
-- What the sockets of src/sender.cpp leave sound.
use srtla.Base.{
  ℕ, ◌+◌, ◌≡◌, refl, ◌∙◌, inl, inr, not, List, [], ◌∷◌, length-replicate, ltb, if◌then◌else◌, arith,
  ℤ, pos, negsuc, Bool-cases, eqb_ℤ,
}
use srtla.Wire.{send_buf_size}
use srtla.Sender.{
  Conn, Sender, Call, socket, set_sndbuf, bind, close, is_open, add_active_fd, remove_active_fd,
  call_,
}
use srtla.Sender.Conns.{close_old, bind_socket, open_socket, open_each, open_conns}
use srtla.Sender.Housekeeping.{reset_conn, note_failure}
use srtla.Sender.Valid.{
  ConnOk, KeepsConns, Keeps, KeepsConns-refl, KeepsConns-cons, Keeps-refl, Keeps-trans,
}

-- One connection that stays itself.
pub record Stays (c d : Conn) : Type 0 where
  pub same_handle : d.handle ≡ c.handle
  pub source_kept : d.src ≡ c.src
  pub sound : ConnOk c → ConnOk d

pub Stays-refl : (c : Conn) → Stays c c
Stays-refl c = record { same_handle = refl; source_kept = refl; sound = λ o. o }

Stays-fd : (c : Conn) (fd : ℤ) → Stays c (record c { fd = fd })
Stays-fd c fd = record {
  same_handle = refl;
  source_kept = refl;
  sound = λ o. record { idx = o.idx; log = o.log; window_ge = o.window_ge };
}

Stays-trans : (c d e : Conn) → Stays c d → Stays d e → Stays c e
Stays-trans c d e k l = record {
  same_handle = l.same_handle ∙ k.same_handle;
  source_kept = l.source_kept ∙ k.source_kept;
  sound = λ o. l.sound (k.sound o);
}

pub note_failure-Stays : (c : Conn) → Stays c (note_failure c)
unfolding note_failure reset_conn
note_failure-Stays c = elim (Bool-cases (ltb 0 c.last_rcvd)) [
  | inl e ↦ simp e (record {
    same_handle = refl;
    source_kept = refl;
    sound =
        λ o. record { idx = o.idx; log = length-replicate 256 (negsuc 0); window_ge = omega arith };
  })
  | inr e ↦ simp e (Stays-refl c)
]

pub add_active_fd-Keeps : (fd : ℤ) (s : Sender) → Keeps s (add_active_fd fd s)
unfolding add_active_fd
add_active_fd-Keeps (pos n) s = record {
  conns_kept = KeepsConns-refl s.conns;
  next_kept = refl;
  pending_kept = refl;
  id_kept = refl;
}
add_active_fd-Keeps (negsuc n) s = Keeps-refl s

remove_active_fd-Keeps : (fd : ℤ) (s : Sender) → Keeps s (remove_active_fd fd s)
unfolding remove_active_fd
remove_active_fd-Keeps (pos n) s = record {
  conns_kept = KeepsConns-refl s.conns;
  next_kept = refl;
  pending_kept = refl;
  id_kept = refl;
}
remove_active_fd-Keeps (negsuc n) s = Keeps-refl s

module _ (ret : List Call → Call → ℤ) where
  call-Keeps : (k : Call) (s t : Sender) → Keeps s t → Keeps s (call_ ret k t)
  call-Keeps k s t l = record {
    conns_kept = l.conns_kept;
    next_kept = l.next_kept;
    pending_kept = l.pending_kept;
    id_kept = l.id_kept;
  }

  close_old-Keeps :
      (c : Conn) (s : Sender) → Stays c (close_old ret c s).0 × Keeps s (close_old ret c s).1
  close_old-Keeps c s = elim (Bool-cases (is_open c.fd)) [
    | inl e ↦ simp e (
      Stays-fd c (negsuc 0),
      call-Keeps (close c.fd) s (remove_active_fd c.fd s) (remove_active_fd-Keeps c.fd s),
    )
    | inr e ↦ simp e (Stays-refl c, Keeps-refl s)
  ]

  bind_socket-Keeps :
      (fd : ℤ) (c : Conn) (s : Sender)
      → Stays c (bind_socket ret fd c s).1 × Keeps s (bind_socket ret fd c s).2
  unfolding bind_socket
  bind_socket-Keeps fd c s =
      let s1 = call_ ret (set_sndbuf fd send_buf_size) s in
      let s2 = call_ ret (bind fd c.src) s1 in
      let k1 = call-Keeps (set_sndbuf fd send_buf_size) s s (Keeps-refl s) in
      let k2 = call-Keeps (bind fd c.src) s s1 k1 in
      elim (Bool-cases (not (eqb_ℤ (ret s.calls (set_sndbuf fd send_buf_size)) (pos 0)))) [
        | inl e ↦ simp e (Stays-refl c, call-Keeps (close fd) s s1 k1)
        | inr e ↦ simp e (elim (Bool-cases (not (eqb_ℤ (ret s1.calls (bind fd c.src)) (pos 0)))) [
          | inl e ↦ simp e (Stays-refl c, call-Keeps (close fd) s s2 k2)
          | inr e ↦
              simp e (
                Stays-fd c fd,
                Keeps-trans s s2 (add_active_fd fd s2) k2 (add_active_fd-Keeps fd s2),
              )
        ])
      ]

  pub open_socket-Keeps :
      (c : Conn) (s : Sender) → Stays c (open_socket ret c s).1 × Keeps s (open_socket ret c s).2
  unfolding open_socket
  open_socket-Keeps c s =
      let d = (close_old ret c s).0 in
      let s1 = (close_old ret c s).1 in
      let fd = ret s1.calls socket in
      let s2 = call_ ret socket s1 in
      let k = close_old-Keeps c s in
      let k2 = call-Keeps socket s s1 k.1 in
      let b = bind_socket-Keeps fd d s2 in
      elim (Bool-cases (not (is_open fd))) [
        | inl e ↦ rw e (k.0, k2)
        | inr e ↦ rw e (
          Stays-trans c d (bind_socket ret fd d s2).1 k.0 b.0,
          Keeps-trans s s2 (bind_socket ret fd d s2).2 k2 b.1,
        )
      ]

  open_each-Keeps :
      (cs : List Conn) (opened : ℕ) (s : Sender)
      → KeepsConns cs (open_each ret cs opened s).1 × Keeps s (open_each ret cs opened s).2
  unfolding open_each
  open_each-Keeps [] opened s = (KeepsConns-refl [], Keeps-refl s)
  open_each-Keeps (c ∷ cs) opened s =
      let o = open_socket ret c s in
      let count = if o.0 then opened + 1 else opened in
      let k = open_socket-Keeps c s in
      let l = open_each-Keeps cs count o.2 in
      let rest = open_each ret cs count o.2 in
      (
        KeepsConns-cons c o.1 cs rest.1 k.0.same_handle k.0.source_kept k.0.sound l.0,
        Keeps-trans s o.2 rest.2 k.1 l.1,
      )

  -- The connections that a loop has changed are written back.
  pub put_conns-Keeps :
      (s t : Sender) (ds : List Conn)
      → KeepsConns s.conns ds
      → Keeps s t
      → Keeps s (record t { conns = ds })
  put_conns-Keeps s t ds k l = record {
    conns_kept = k;
    next_kept = l.next_kept;
    pending_kept = l.pending_kept;
    id_kept = l.id_kept;
  }

  pub open_conns-Keeps : (s : Sender) → Keeps s (open_conns ret s).1
  unfolding open_conns
  open_conns-Keeps s =
      let k = open_each-Keeps s.conns 0 s in
      let o = open_each ret s.conns 0 s in put_conns-Keeps s o.2 o.1 k.0 k.1
