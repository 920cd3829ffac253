-- ===== src/Sender/Receive/Ngp.antt =====
-- The packets of the handshake in handle_srtla_data of src/sender.cpp.
use srtla.Base.{ℕ, ◌+◌, ◌<◌, ◌≡◌, refl, inl, inr, ◌⊎◌, true, none, some, List, arith, ℤ, Bool-cases}
use srtla.Sender.{Conn, Sender, Call, ok, is_open, send_reg1}
use srtla.Sender.Receive.{may_register, handle_ngp, handle_packet}
use srtla.Wire.{get_srt_type, srtla_type_reg_ngp}

module _ (ret : List Call → Call → ℤ) where
  -- The connections, and with them the times at which they were heard, are as they were; a
  -- registration begins only on this connection, and only where there was none.
  pub record Started (c : Conn) (ts : ℕ) (s t : Sender) : Type 0 where
    pub same_conns : t.conns ≡ s.conns
    pub same_id : t.srtla_id ≡ s.srtla_id
    pub begins :
        (t.pending_reg2_conn ≡ s.pending_reg2_conn)
        ⊎ ((t.pending_reg2_conn ≡ some c.handle)
            × (t.pending_reg_timeout ≡ ts + 4)
            × (s.pending_reg2_conn ≡ none)
            × (s.active_connections ≡ 0)
            × (s.pending_reg_timeout < ts))

  may_register-fresh :
      (ts : ℕ) (s : Sender)
      → may_register ret ts s ≡ true
      → (s.pending_reg2_conn ≡ none) × (s.active_connections ≡ 0) × (s.pending_reg_timeout < ts)
  may_register-fresh ts s e = ground arith

  send_reg1-rest :
      (c : Conn) (s : Sender)
      → ((send_reg1 ret c s).1.conns ≡ s.conns)
        × ((send_reg1 ret c s).1.srtla_id ≡ s.srtla_id)
        × ((send_reg1 ret c s).1.pending_reg2_conn ≡ s.pending_reg2_conn)
  unfolding send_reg1
  send_reg1-rest c s = elim (Bool-cases (is_open c.fd)) [
    | inl e ↦ rw e (refl, refl, refl)
    | inr e ↦ rw e (refl, refl, refl)
  ]

  handle_ngp-Started : (c : Conn) (ts : ℕ) (s : Sender) → Started c ts s (handle_ngp ret c ts s)
  unfolding handle_ngp
  handle_ngp-Started c ts s =
      let k = send_reg1-rest c s in
      elim (Bool-cases (may_register ret ts s)) [
        | inr busy ↦ rw busy (record { same_conns = refl; same_id = refl; begins = inl refl })
        | inl may ↦
            let f = may_register-fresh ts s may in
            rw may (elim (Bool-cases (send_reg1 ret c s).0) [
              | inl sent ↦ rw sent (record {
                same_conns = k.0;
                same_id = k.1;
                begins = inr (refl, refl, f.0, f.1, f.2);
              })
              | inr unsent ↦
                  rw unsent (record { same_conns = k.0; same_id = k.1; begins = inl k.2 })
            ])
      ]

  -- A packet of type REG_NGP never counts as a sign of life: every connection, its last_rcvd
  -- included, is as it was, and so is the id. It begins a registration only on the connection that
  -- it came by, for 4 seconds, and only where no connection is active, none is pending and the
  -- last registration has timed out.
  pub reg_ngp-Started :
      (c : Conn) (n : ℕ) (buf : List ℕ) (ts : ℕ) (s : Sender)
      → get_srt_type buf n ≡ srtla_type_reg_ngp
      → (t : Sender) × (handle_packet ret c n buf ts s ≡ ok t) × Started c ts s t
  unfolding handle_packet
  reg_ngp-Started c n buf ts s e = (handle_ngp ret c ts s, rw e refl, handle_ngp-Started c ts s)
