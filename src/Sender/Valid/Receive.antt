-- ===== src/Sender/Valid/Receive.antt =====
-- What handle_srtla_data of src/sender.cpp leaves sound.
use srtla.Base.{
  ℕ, ◌-◌, ◌/◌, ◌≡◌, refl, ◌∙◌, inl, inr, true, false, not, List, take, ◌==◌, ℤ, pos, negsuc,
  Bool-cases,
}
use srtla.Base.Assoc.{bytes_eq}
use srtla.Addr.{slice}
use srtla.Wire.{
  be32, get_srt_type, int32, srt_type_ack, srt_type_nak, srtla_type_ack, srtla_type_keepalive,
  srtla_type_reg2, srtla_type_reg3, srtla_type_reg_ngp, srtla_id_len,
}
use srtla.Sender.{
  Conn, Sender, Call, Result, ok, exited, modify_all, is_pending, send_reg1, send_reg2_all,
}
use srtla.Sender.Log.{register_srt_ack}
use srtla.Sender.Receive.{
  Read, nak_words, may_register, handle_ngp, id_matches, handle_reg2, to_srt, handle_type,
  handle_packet, handle_bytes, handle_srtla_data,
}
use srtla.Sender.Valid.{
  Keeps, KeepsConns-refl, Keeps-refl, Keeps-trans, Keeps-conns, Keeps-IsValid, IsValid, handles,
  mem_handle, modify_all-Keeps, send_reg1-Keeps, send_reg2_all-Keeps,
}
use srtla.Sender.Valid.Log.{register_srt_ack-Keeps}
use srtla.Sender.Valid.Words.{
  KeepsOn, >>=-KeepsOn, KeepsOn-from, nak_words-Keeps, ack_words-Keeps, length-slice, take-slice,
}

module _ (ret : List Call → Call → ℤ) where
  to_srt-Keeps : (n : ℕ) (buf : List ℕ) (s : Sender) → Keeps s (to_srt ret n buf s)
  to_srt-Keeps n buf s = record {
    conns_kept = KeepsConns-refl s.conns;
    next_kept = refl;
    pending_kept = refl;
    id_kept = refl;
  }

  handle_type-Keeps :
      (type n : ℕ) (buf : List ℕ) (s : Sender) → KeepsOn s (handle_type ret type n buf s)
  unfolding handle_type
  handle_type-Keeps type n buf s = elim (Bool-cases (type == srt_type_ack)) [
    | inl e ↦
        let t = register_srt_ack (int32 (be32 buf 16)) s in
        rw e (
          Keeps-trans s t (to_srt ret n buf t) (register_srt_ack-Keeps (int32 (be32 buf 16)) s)
            (to_srt-Keeps n buf t))
    | inr e ↦ rw e (elim (Bool-cases (type == srt_type_nak)) [
      | inl e ↦ rw e (
          >>=-KeepsOn s (nak_words buf (n / 4 - 4) 4 false s) (λ t. ok (to_srt ret n buf t))
            (nak_words-Keeps buf (n / 4 - 4) 4 false s) (to_srt-Keeps n buf))
      | inr e ↦ rw e (elim (Bool-cases (type == srtla_type_ack)) [
        | inl e ↦ rw e (ack_words-Keeps buf (n / 4 - 1) 1 s)
        | inr e ↦ rw e (elim (Bool-cases (type == srtla_type_keepalive)) [
          | inl e ↦ rw e (Keeps-refl s)
          | inr e ↦ rw e (elim (Bool-cases (type == srtla_type_reg3)) [
            | inl e ↦ rw e (record {
              conns_kept = KeepsConns-refl s.conns;
              next_kept = refl;
              pending_kept = refl;
              id_kept = refl;
            })
            | inr e ↦ rw e (to_srt-Keeps n buf s)
          ])
        ])
      ])
    ])
  ]

  -- The connection c is one of the state's.
  handle_ngp-IsValid :
      (half : List ℕ) (c : Conn) (ts : ℕ) (s : Sender)
      → mem_handle c.handle (handles s.conns) ≡ true
      → IsValid half s
      → IsValid half (handle_ngp ret c ts s)
  unfolding handle_ngp
  handle_ngp-IsValid half c ts s m v =
      let t = (send_reg1 ret c s).1 in
      let k = send_reg1-Keeps ret c s in
      let w = Keeps-IsValid half s t k v in
      elim (Bool-cases (not (may_register ret ts s))) [
        | inl e ↦ rw e v
        | inr e ↦ rw e (elim (Bool-cases (send_reg1 ret c s).0) [
          | inl sent ↦ rw sent (record {
            okay = w.okay;
            apart = w.apart;
            distinct = w.distinct;
            pending = rw k.conns_kept.same_handles m;
            id_length = w.id_length;
            id_half = w.id_half;
          })
          | inr unsent ↦ rw unsent w
        ])
      ]

  handle_reg2-IsValid :
      (half : List ℕ) (c : Conn) (buf : List ℕ) (ts : ℕ) (s : Sender)
      → IsValid half s
      → IsValid half (handle_reg2 ret c buf ts s)
  unfolding handle_reg2
  handle_reg2-IsValid half c buf ts s v =
      let t = record s { srtla_id = slice buf 2 srtla_id_len } in
      let u = send_reg2_all ret s.conns t in
      let k = send_reg2_all-Keeps ret s.conns t in
      elim (Bool-cases (not (is_pending s.pending_reg2_conn c.handle))) [
        | inl e ↦ rw e v
        | inr e ↦ rw e (elim (Bool-cases (id_matches ret buf s)) [
          | inr other ↦ rw other v
          | inl same ↦ rw same (record {
            okay = k.conns_kept.still_ok v.okay;
            apart = rw (k.next_kept, k.conns_kept.same_handles) v.apart;
            distinct = rw k.conns_kept.same_sources v.distinct;
            pending = tt;
            id_length = rw k.id_kept (length-slice buf 2 256);
            id_half = rw k.id_kept (
                take-slice buf 128 2 128
                ∙ (bytes_eq.beq_iff (slice buf 2 128) (take 128 s.srtla_id)).0 same
                ∙ v.id_half);
          })
        ])
      ]

  abbrev pub ValidOn : List ℕ → Result Sender → Type 0
  ValidOn half (ok t) = IsValid half t
  ValidOn half exited = Unit {0}
  ValidOn half Result.undefined = Unit {0}

  pub KeepsOn-ValidOn :
      (half : List ℕ) (s : Sender) (r : Result Sender)
      → KeepsOn s r
      → IsValid half s
      → ValidOn half r
  KeepsOn-ValidOn half s (ok t) k v = Keeps-IsValid half s t k v
  KeepsOn-ValidOn half s exited k v = tt
  KeepsOn-ValidOn half s Result.undefined k v = tt

  handle_packet-ValidOn :
      (half : List ℕ) (c : Conn) (n : ℕ) (buf : List ℕ) (ts : ℕ) (s : Sender)
      → mem_handle c.handle (handles s.conns) ≡ true
      → IsValid half s
      → ValidOn half (handle_packet ret c n buf ts s)
  unfolding handle_packet
  handle_packet-ValidOn half c n buf ts s m v =
      let type = get_srt_type buf n in
      let heard = λ (d : Conn). record d { last_rcvd = ts } in
      let t = record s { conns = modify_all c.handle heard s.conns } in
      elim (Bool-cases (type == srtla_type_reg_ngp)) [
        | inl e ↦ rw e (handle_ngp-IsValid half c ts s m v)
        | inr e ↦ rw e (elim (Bool-cases (type == srtla_type_reg2)) [
          | inl e ↦ rw e (handle_reg2-IsValid half c buf ts s v)
          | inr e ↦ rw e (
              KeepsOn-ValidOn half s (handle_type ret type n buf t)
                (KeepsOn-from s t (handle_type ret type n buf t)
                  (Keeps-conns s (modify_all c.handle heard s.conns) (
                    modify_all-Keeps c.handle heard s.conns (λ d. refl) (λ d. refl)
                      (λ d o. record { idx = o.idx; log = o.log; window_ge = o.window_ge })))
                  (handle_type-Keeps type n buf t))
                v)
        ])
      ]

  handle_bytes-ValidOn :
      (half : List ℕ) (c : Conn) (n : ℤ) (buf : List ℕ) (ts : ℕ) (s : Sender)
      → mem_handle c.handle (handles s.conns) ≡ true
      → IsValid half s
      → ValidOn half (handle_bytes ret c n buf ts s)
  handle_bytes-ValidOn half c (pos n) buf ts s m v = elim (Bool-cases (n == 0)) [
    | inl e ↦ rw e v
    | inr e ↦ rw e (handle_packet-ValidOn half c n buf ts s m v)
  ]
  handle_bytes-ValidOn half c (negsuc n) buf ts s m v = v

  -- Whatever is read for a connection of a sound state.
  pub handle_srtla_data-ValidOn :
      (half : List ℕ) (c : Conn) (r : Read) (s : Sender)
      → mem_handle c.handle (handles s.conns) ≡ true
      → IsValid half s
      → ValidOn half (handle_srtla_data ret c r s)
  unfolding handle_srtla_data
  handle_srtla_data-ValidOn half c r s m v = handle_bytes-ValidOn half c r.n r.buf r.ts s m v
