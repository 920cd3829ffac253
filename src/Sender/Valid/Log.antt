-- ===== src/Sender/Valid/Log.antt =====
-- What the packet log operations and handle_srt_data of src/sender.cpp leave sound.
use srtla.Base.{
  ℕ, ◌+◌, ◌≡◌, refl, ◌∙◌, inl, inr, Bool, true, false, not, Option, none, some, List, [], ◌∷◌, map,
  length, set, length-set, ◌==◌, if◌then◌else◌, arith, ℤ, pos, negsuc, ltb_ℤ, get_or, Bool-cases,
  Option-cases, eqb_ℤ,
}
use srtla.Sender.{Conn, Sender, Call, modify_all}
use srtla.Sender.Log.{
  reg_pkt, slots, search_pkt, lost_pkt, nak_conns, register_nak, acked_pkt, grow_window,
  srtla_ack_conns, register_srtla_ack, drop_acked, conn_register_srt_ack, register_srt_ack,
}
use srtla.Sender.Select.{
  SrtRead, caller, select_from, select_conn, send_on, send_call, reg_sn, sn_of, handle_srt_data,
}
use srtla.Sender.Valid.{
  ConnOk, KeepsConns, Keeps, KeepsConns-refl, KeepsConns-cons, Keeps-refl, Keeps-trans, Keeps-conns,
  modify_all-Keeps,
}

reg_pkt-ConnOk : (c : Conn) (sn : ℕ) → ConnOk c → ConnOk (reg_pkt c sn)
unfolding reg_pkt
reg_pkt-ConnOk c sn o = record {
  idx = omega arith;
  log = length-set c.pkt_log c.pkt_idx (pos sn) ∙ o.log;
  window_ge = o.window_ge;
}

lost_pkt-ConnOk : (c : Conn) (i : ℕ) → ConnOk c → ConnOk (lost_pkt c i)
unfolding lost_pkt
lost_pkt-ConnOk c i o = record {
  idx = o.idx;
  log = length-set c.pkt_log i (negsuc 0) ∙ o.log;
  window_ge = omega arith;
}

nak_conns-Keeps : (packet : ℤ) (cs : List Conn) → KeepsConns cs (nak_conns packet cs)
unfolding nak_conns lost_pkt
nak_conns-Keeps packet [] = KeepsConns-refl []
nak_conns-Keeps packet (c ∷ cs) = elim (Option-cases (search_pkt c packet)) [
  | inl e ↦
      rw (e, nak_conns)
        (KeepsConns-cons c c cs (nak_conns packet cs) refl refl (λ o. o)
          (nak_conns-Keeps packet cs))
  | inr (i, e) ↦
      rw (e, nak_conns)
        (KeepsConns-cons c (lost_pkt c i) cs cs refl refl (lost_pkt-ConnOk c i)
          (KeepsConns-refl cs))
]

pub register_nak-Keeps : (packet : ℤ) (s : Sender) → Keeps s (register_nak packet s)
unfolding register_nak
register_nak-Keeps packet s =
    Keeps-conns s (nak_conns packet s.conns) (nak_conns-Keeps packet s.conns)

grow_window-ConnOk : (c : Conn) → ConnOk c → ConnOk (grow_window c)
unfolding grow_window
grow_window-ConnOk c o = elim (Bool-cases (not (c.last_rcvd == 0))) [
  | inl e ↦
      rw e (record { idx = o.idx; log = o.log; window_ge = let w = o.window_ge in omega arith })
  | inr e ↦ rw e o
]

grow_window-handle : (c : Conn) → (grow_window c).handle ≡ c.handle
unfolding grow_window
grow_window-handle c = ground arith

grow_window-src : (c : Conn) → (grow_window c).src ≡ c.src
unfolding grow_window
grow_window-src c = elim (Bool-cases (not (c.last_rcvd == 0))) [ inl e ↦ rw e | inr e ↦ rw e ]

acked_pkt-ConnOk : (c : Conn) (i : ℕ) → ConnOk c → ConnOk (acked_pkt c i)
unfolding acked_pkt
acked_pkt-ConnOk c i o = record {
  idx = o.idx;
  log = length-set c.pkt_log i (negsuc 0) ∙ o.log;
  window_ge = let w = o.window_ge in ground arith;
}

grow_all-Keeps : (cs : List Conn) → KeepsConns cs (map grow_window cs)
grow_all-Keeps [] = KeepsConns-refl []
grow_all-Keeps (c ∷ cs) =
    KeepsConns-cons c (grow_window c) cs (map grow_window cs) (grow_window-handle c)
      (grow_window-src c) (grow_window-ConnOk c) (grow_all-Keeps cs)

srtla_ack_conns-Keeps : (ack : ℤ) (cs : List Conn) → KeepsConns cs (srtla_ack_conns ack cs)
unfolding srtla_ack_conns acked_pkt
srtla_ack_conns-Keeps ack [] = KeepsConns-refl []
srtla_ack_conns-Keeps ack (c ∷ cs) = elim (Option-cases (search_pkt c ack)) [
  | inl e ↦
      rw (e, srtla_ack_conns)
        (KeepsConns-cons c (grow_window c) cs (srtla_ack_conns ack cs) (grow_window-handle c)
          (grow_window-src c) (grow_window-ConnOk c) (srtla_ack_conns-Keeps ack cs))
  | inr (i, e) ↦
      rw (e, srtla_ack_conns)
        (KeepsConns-cons c (grow_window (acked_pkt c i)) cs (map grow_window cs)
          (grow_window-handle (acked_pkt c i)) (grow_window-src (acked_pkt c i))
          (λ o. grow_window-ConnOk (acked_pkt c i) (acked_pkt-ConnOk c i o)) (grow_all-Keeps cs))
]

pub register_srtla_ack-Keeps : (ack : ℤ) (s : Sender) → Keeps s (register_srtla_ack ack s)
unfolding register_srtla_ack
register_srtla_ack-Keeps ack s =
    Keeps-conns s (srtla_ack_conns ack s.conns) (srtla_ack_conns-Keeps ack s.conns)

length-if_set :
    (t : Bool) (log : List ℤ) (i : ℕ) (v : ℤ) → length (if t then set log i v else log) ≡ length log
length-if_set true log i v = length-set log i v
length-if_set false log i v = refl

length-drop_acked :
    (ack : ℤ) (is : List ℕ) (log : List ℤ) (count : ℕ)
    → length (drop_acked ack is log count).0 ≡ length log
unfolding drop_acked
length-drop_acked ack [] log count = refl
length-drop_acked ack (i ∷ is) log count =
    let older = ltb_ℤ (get_or log i (pos 0)) ack in
    length-drop_acked ack is (if older then set log i (negsuc 0) else log)
      (if older then count else count + 1)
    ∙ length-if_set older log i (negsuc 0)

srt_ack_conns-Keeps :
    (ack : ℤ) (cs : List Conn) → KeepsConns cs (map (conn_register_srt_ack ack) cs)
unfolding conn_register_srt_ack
srt_ack_conns-Keeps ack [] = KeepsConns-refl []
srt_ack_conns-Keeps ack (c ∷ cs) =
    KeepsConns-cons c (conn_register_srt_ack ack c) cs (map (conn_register_srt_ack ack) cs) refl
      refl
      (λ o. record {
        idx = o.idx;
        log = length-drop_acked ack (slots c.pkt_idx) c.pkt_log 0 ∙ o.log;
        window_ge = o.window_ge;
      })
      (srt_ack_conns-Keeps ack cs)

pub register_srt_ack-Keeps : (ack : ℤ) (s : Sender) → Keeps s (register_srt_ack ack s)
unfolding register_srt_ack
register_srt_ack-Keeps ack s =
    Keeps-conns s (map (conn_register_srt_ack ack) s.conns) (srt_ack_conns-Keeps ack s.conns)

select_conn-Keeps : (now : Option ℕ) (s : Sender) → Keeps s (select_conn now s).1
unfolding select_conn
select_conn-Keeps none s = Keeps-refl s
select_conn-Keeps (some t) s = elim (Option-cases (select_from t s.conns none (negsuc 0))) [
  | inl e ↦ rw (e, select_conn) (Keeps-refl s)
  | inr (c, e) ↦
      rw (e, select_conn)
        (Keeps-conns s (modify_all c.handle (λ d. record d { last_sent = t }) s.conns) (
          modify_all-Keeps c.handle (λ d. record d { last_sent = t }) s.conns (λ d. refl)
            (λ d. refl) (λ d o. record { idx = o.idx; log = o.log; window_ge = o.window_ge })))
]

reg_sn-ConnOk : (sn : ℤ) (c : Conn) → ConnOk c → ConnOk (reg_sn sn c)
reg_sn-ConnOk (pos sn) c o = reg_pkt-ConnOk c sn o
reg_sn-ConnOk (negsuc n) c o = o

reg_sn-handle : (sn : ℤ) (c : Conn) → (reg_sn sn c).handle ≡ c.handle
unfolding reg_pkt
reg_sn-handle (pos sn) c = refl
reg_sn-handle (negsuc n) c = refl

reg_sn-src : (sn : ℤ) (c : Conn) → (reg_sn sn c).src ≡ c.src
unfolding reg_pkt
reg_sn-src (pos sn) c = refl
reg_sn-src (negsuc n) c = refl

module _ (ret : List Call → Call → ℤ) where
  send_on-Keeps : (c : Conn) (r : SrtRead) (s : Sender) → Keeps s (send_on ret c r s)
  unfolding send_on
  send_on-Keeps c r s =
      let k = send_call c.fd s.srtla_addr r.buf r.n in
      let sn = sn_of r.buf r.n in
      elim (Bool-cases (eqb_ℤ (ret s.calls k) r.n)) [
        | inl e ↦ rw e (record {
          conns_kept =
              modify_all-Keeps c.handle (reg_sn sn) s.conns (reg_sn-handle sn) (reg_sn-src sn)
                (reg_sn-ConnOk sn);
          next_kept = refl;
          pending_kept = refl;
          id_kept = refl;
        })
        | inr e ↦ rw e (record {
          conns_kept =
              modify_all-Keeps c.handle (λ d. record d { last_rcvd = 1 }) s.conns (λ d. refl)
                (λ d. refl) (λ d o. record { idx = o.idx; log = o.log; window_ge = o.window_ge });
          next_kept = refl;
          pending_kept = refl;
          id_kept = refl;
        })
      ]

  caller-Keeps : (r : SrtRead) (s : Sender) → Keeps s (caller r s)
  caller-Keeps r s = by_n r.n
    where
      by_n : (n : ℤ) → Keeps s (elim n [ pos m ↦ record s { srt_addr = r.from } | negsuc m ↦ s ])
      by_n (pos m) = record {
        conns_kept = KeepsConns-refl s.conns;
        next_kept = refl;
        pending_kept = refl;
        id_kept = refl;
      }
      by_n (negsuc m) = Keeps-refl s

  pub handle_srt_data-Keeps : (r : SrtRead) (s : Sender) → Keeps s (handle_srt_data ret r s)
  unfolding handle_srt_data
  handle_srt_data-Keeps r s =
      let t = caller r s in
      let u = (select_conn r.now t).1 in
      let k = Keeps-trans s t u (caller-Keeps r s) (select_conn-Keeps r.now t) in
      elim (Option-cases (select_conn r.now t).0) [
        | inl e ↦ rw (e, handle_srt_data) k
        | inr (c, e) ↦
            rw (e, handle_srt_data) (Keeps-trans s u (send_on ret c r u) k (send_on-Keeps c r u))
      ]
