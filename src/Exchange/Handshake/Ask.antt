-- ===== src/Exchange/Handshake/Ask.antt =====
-- The handshake on the side of src/sender.cpp: REG1, the answer to it, and the broadcast of REG2.
use srtla.Base.{
  ℕ, ◌+◌, ◌≡◌, refl, ◌∙◌, ap, inl, inr, true, false, none, some, List, [], ◌∷◌, ◌++◌, length, arith,
  Bool-cases, ℤ, if◌then◌else◌,
}
use srtla.Base.Assoc.{bytes_eq}
use srtla.Addr.{SockAddr, slice}
use srtla.Sender.{
  Conn, Sender, Call, ok, sendto, is_open, is_pending, send_reg1, send_reg2, send_reg2_all,
  reg2_timeout, reg3_timeout,
}
use srtla.Sender.Receive.{may_register, handle_ngp, handle_reg2, handle_packet, id_matches}
use srtla.Wire.{put16, get_srt_type, srtla_type_reg1, srtla_type_reg2}
use srtla.Exchange.Handshake.Packets.{get_srt_type-put16}

-- The sends of one packet on every open connection, in turn.
abbrev pub broadcast : List Conn → SockAddr → List ℕ → List Call → List Call
broadcast [] addr packet calls = calls
broadcast (c ∷ cs) addr packet calls =
    broadcast cs addr packet (if is_open c.fd then sendto c.fd addr packet ∷ calls else calls)

-- The sender once it has answered the NGP by REG1.
abbrev pub asking : Conn → ℕ → Sender → Sender
asking c ts s = record s {
  calls = sendto c.fd s.srtla_addr (put16 srtla_type_reg1 ++ s.srtla_id) ∷ s.calls;
  pending_reg2_conn = some c.handle;
  pending_reg_timeout = ts + reg2_timeout;
}

module _ (ret : List Call → Call → ℤ) where
  abbrev sending_reg2 : Conn → Sender → Sender
  sending_reg2 c s = record s {
    calls = sendto c.fd s.srtla_addr (put16 srtla_type_reg2 ++ s.srtla_id) ∷ s.calls;
  }

  send_reg2-open :
      (c : Conn) (s : Sender) → is_open c.fd ≡ true → (send_reg2 ret c s).1 ≡ sending_reg2 c s
  unfolding send_reg2
  send_reg2-open c s e = rw e refl

  send_reg2-shut : (c : Conn) (s : Sender) → is_open c.fd ≡ false → (send_reg2 ret c s).1 ≡ s
  unfolding send_reg2
  send_reg2-shut c s e = rw e refl

  pub send_reg2_all-broadcast :
      (cs : List Conn) (s : Sender)
      → (send_reg2_all ret cs s).calls
        ≡ broadcast cs s.srtla_addr (put16 srtla_type_reg2 ++ s.srtla_id) s.calls
  unfolding send_reg2_all
  send_reg2_all-broadcast [] s = refl
  send_reg2_all-broadcast (c ∷ cs) s = elim (Bool-cases (is_open c.fd)) [
    | inl e ↦
        ap (λ t. (send_reg2_all ret cs t).calls) (send_reg2-open c s e)
        ∙ (rw e (send_reg2_all-broadcast cs (sending_reg2 c s)))
    | inr e ↦
        ap (λ t. (send_reg2_all ret cs t).calls) (send_reg2-shut c s e)
        ∙ (rw e (send_reg2_all-broadcast cs s))
  ]

  pub handle_ngp-asking :
      (c : Conn) (ts : ℕ) (s : Sender)
      → may_register ret ts s ≡ true
      → (send_reg1 ret c s).0 ≡ true
      → handle_ngp ret c ts s ≡ asking c ts s
  unfolding handle_ngp send_reg1
  handle_ngp-asking c ts s may went = elim (Bool-cases (is_open c.fd)) [
    | inl e ↦ rw (may, e, (rw e at went)) refl
    | inr e ↦ absurd (clash (rw e at went))
  ]
    where
      clash : false ≡ true → ⊥
      clash e = cc

  abbrev pub taking : List ℕ → ℕ → Sender → Sender
  taking buf ts s = record (send_reg2_all ret s.conns (record s { srtla_id = slice buf 2 256 })) {
    pending_reg2_conn = none;
    pending_reg_timeout = ts + reg3_timeout;
  }

  pub handle_packet-taking :
      (c : Conn) (id rest : List ℕ) (ts : ℕ) (s : Sender)
      → length id ≡ 256
      → is_pending s.pending_reg2_conn c.handle ≡ true
      → let reg2 = put16 srtla_type_reg2 ++ id in
        id_matches ret (reg2 ++ rest) s ≡ true
        → handle_packet ret c (length reg2) (reg2 ++ rest) ts s ≡ ok (taking (reg2 ++ rest) ts s)
  unfolding handle_packet handle_reg2
  handle_packet-taking c id rest ts s n pending same =
      let reg2 = put16 srtla_type_reg2 ++ id in
      let type : get_srt_type (reg2 ++ rest) (length reg2) ≡ srtla_type_reg2 =
        get_srt_type-put16 srtla_type_reg2 (id ++ rest) (length reg2) (omega arith)
          (omega (arith, n)) in
      rw (type, pending, same) refl
