-- ===== src/Receiver/Packet/Traffic.antt =====
-- The packets of a known connection, and what the table needs of their handling.
use srtla.Base.{
  ℕ, ◌+◌, ◌≡◌, refl, sym, ◌∙◌, subst, Bool, true, false, ◌&&◌, List, arith, Bool-cases, inl, inr,
  pos, eqb_ℤ, ltb, if◌then◌else◌,
}
use srtla.Addr.{SockAddr, slice}
use srtla.Connection.{Connection, on_nak_detected}
use srtla.Float.{Float}
use srtla.Group.{Group}
use srtla.Metrics
use srtla.Os.{Os}
use srtla.Registry.Lookup.{MemGroup, claims}
use srtla.Registry.Valid.{claims-respects}
use srtla.Registry.Kin.{Like-has_conn_at, Kin, Kin-trans, mem-store_self}
use srtla.Wire.{is_srtla_keepalive, get_srt_sn, srt_min_len, parse_keepalive_conn_info}
use srtla.Receiver.{Receiver, count, pad_sendto, put_group}
use srtla.Receiver.Quiet.{
  Quiet, Quiet-refl, Quiet-trans, count-Quiet, pad_sendto-Quiet, Valid, Quiet-Valid,
}
use srtla.Receiver.Srt.{Config, or_zero}
use srtla.Receiver.Srt.Valid.{put_group-Valid, forward_to_srt_server-Valid}
use srtla.Receiver.Packet.Keeps.{
  on_conn-Like, change-Kin, touch-Keeps, learn-Keeps, packet-Keeps, nak-Keeps, evaluate_group-Kin,
  evaluate_group-data_seen,
}
use srtla.Receiver.Packet.{
  change, is_recovering, touch, learn, is_srt_nak_packet, accept_nak, handle_keepalive, numbered,
  carry_on, struck, handle_nak, carried, traffic, receive,
}
use srtla.Receiver.Packet.Numbered.{numbered-Numbered}

module _ (os : Os) (fl : Float) (cfg : Config) where
  -- The group `g` has been changed, but not written back: it is `h` by now.
  module _ (g : Group) (r : Receiver) (v : Valid r) (m : MemGroup g r.groups) where
    written-Valid : (h : Group) (s : Receiver) → Kin g h → Quiet r s → Valid (put_group h s)
    written-Valid h s k q =
        put_group-Valid s g h (Quiet-Valid r s q v) (subst (MemGroup g) (sym q.groups) m) k

    written-mem :
        (h : Group) (s : Receiver) → Kin g h → Quiet r s → MemGroup h (put_group h s).groups
    unfolding put_group
    written-mem h s k q = mem-store_self s.groups g h (subst (MemGroup g) (sym q.groups) m) k.handle

    carry_on-Valid :
        (h : Group) (c : Connection) (buf : List ℕ) (n : ℕ) (s : Receiver)
        → Kin g h
        → Quiet r s
        → h.data_seen ≡ true
        → Valid (carry_on os fl cfg h c buf n s)
    unfolding carry_on
    carry_on-Valid h c buf n s k q d =
        let out = numbered os fl cfg h c (get_srt_sn buf n) s in
        let o = numbered-Numbered os fl cfg h c (get_srt_sn buf n) s in
        let k' = Kin-trans g h out.0 k o.kin in
        let q' = Quiet-trans r s out.1 q o.quiet in
        forward_to_srt_server-Valid os cfg out.0 (slice buf 0 n) (put_group out.0 out.1)
          (written-Valid out.0 out.1 k' q') (written-mem out.0 out.1 k' q') (o.seen ∙ d)

    struck-Kin :
        (h : Group) (c : Connection) (ts : ℕ) (s : Receiver) → Kin h (struck os fl cfg h c ts s)
    struck-Kin h c ts s =
        let h' = change c (λ d. record d { stats = on_nak_detected d.stats 1 }) h in
        let k = change-Kin h c _ nak-Keeps in
        elim (Bool-cases
          (ltb 5 (on_nak_detected c.stats 1).nack_count && ltb (h.last_quality_eval + 1) ts)) [
            | inl often ↦
                rw often (Kin-trans h h' _ k (evaluate_group-Kin fl h' ts (os.get_ms s.calls)))
            | inr seldom ↦ rw seldom k
          ]

    struck-data_seen :
        (h : Group) (c : Connection) (ts : ℕ) (s : Receiver)
        → (struck os fl cfg h c ts s).data_seen ≡ h.data_seen
    struck-data_seen h c ts s =
        let h' = change c (λ d. record d { stats = on_nak_detected d.stats 1 }) h in
        elim (Bool-cases
          (ltb 5 (on_nak_detected c.stats 1).nack_count && ltb (h.last_quality_eval + 1) ts)) [
            | inl often ↦ rw often (evaluate_group-data_seen fl h' ts (os.get_ms s.calls))
            | inr seldom ↦ rw seldom refl
          ]

    accept_nak-Kin :
        (h : Group) (buf : List ℕ) (n : ℕ) (s : Receiver) → Kin h (accept_nak os fl cfg h buf n s).1
    unfolding accept_nak claims
    accept_nak-Kin h buf n s = record {
      handle = refl;
      okay = λ o. record { few = o.few; apart = o.apart; logs = o.logs; closed = o.closed };
      narrow = λ a p. p;
    }

    accept_nak-data_seen :
        (h : Group) (buf : List ℕ) (n : ℕ) (s : Receiver)
        → (accept_nak os fl cfg h buf n s).1.data_seen ≡ h.data_seen
    unfolding accept_nak
    accept_nak-data_seen h buf n s = refl

    handle_nak-Valid :
        (h : Group) (c : Connection) (buf : List ℕ) (n ts : ℕ) (s : Receiver)
        → Kin g h
        → Quiet r s
        → h.data_seen ≡ true
        → Valid (handle_nak os fl cfg h c buf n ts s)
    unfolding handle_nak
    handle_nak-Valid h c buf n ts s k q d =
        let h' = (accept_nak os fl cfg h buf n s).1 in
        let k' = Kin-trans g h h' k (accept_nak-Kin h buf n s) in
        let hit = struck os fl cfg h' c ts s in
        elim (Bool-cases (accept_nak os fl cfg h buf n s).0) [
          | inr again ↦
              rw again (written-Valid h' (count _ 1 s) k' (Quiet-trans r s _ q (count-Quiet _ 1 s)))
          | inl fresh ↦ rw fresh (
              carry_on-Valid hit c buf n (count _ 1 s)
                (Kin-trans g h' hit k' (struck-Kin h' c ts s))
                (Quiet-trans r s _ q (count-Quiet _ 1 s))
                (struck-data_seen h' c ts s ∙ accept_nak-data_seen h buf n s ∙ d))
        ]

    -- The new last address is one that the group had claimed.
    carried-Kin :
        (h : Group) (c : Connection) (addr : SockAddr) (n : ℕ)
        → claims h addr ≡ true
        → Kin h (carried os fl cfg h c addr n)
    unfolding claims
    carried-Kin h c addr n mine =
        let k = change-Kin h c _ (packet-Keeps n) in
        record {
          handle = refl;
          okay = λ o.
              let p = k.okay o in
              record { few = p.few; apart = p.apart; logs = p.logs; closed = λ e. absurd (cc e) };
          narrow = λ a p. ground (arith, k.narrow a, claims-respects h addr a, mine);
        }

    handle_keepalive-Valid :
        (h : Group) (c : Connection) (addr : SockAddr) (buf : List ℕ) (n : ℕ) (s : Receiver)
        → Kin g h
        → Quiet r s
        → Valid (handle_keepalive os fl cfg h c addr buf n s)
    unfolding handle_keepalive
    handle_keepalive-Valid h c addr buf n s k q =
        let info = parse_keepalive_conn_info buf n in
        let f = learn info (or_zero os cfg (os.get_seconds s.calls)) in
        let h' = change c f h in
        let v' =
          written-Valid h' s (Kin-trans g h h' k (change-Kin h c f (learn-Keeps info _))) q in
        let sent = pad_sendto os (put_group h' s) addr (slice buf 0 n) in
        let v'' =
          Quiet-Valid (put_group h' s) sent.1
            (pad_sendto-Quiet os (put_group h' s) addr (slice buf 0 n)) v' in
        elim (Bool-cases (eqb_ℤ sent.0 (pos n))) [
          | inl went ↦ rw went v''
          | inr failed ↦ rw failed (Quiet-Valid sent.1 _ (count-Quiet _ 1 sent.1) v'')
        ]

    traffic-Valid :
        (h : Group) (c : Connection) (addr : SockAddr) (buf : List ℕ) (n ts : ℕ) (s : Receiver)
        → Kin g h
        → Quiet r s
        → claims h addr ≡ true
        → Valid (traffic os fl cfg h c addr buf n ts s)
    unfolding traffic
    traffic-Valid h c addr buf n ts s k q mine =
        let h' = carried os fl cfg h c addr n in
        let k' = Kin-trans g h h' k (carried-Kin h c addr n mine) in
        elim (Bool-cases (is_srt_nak_packet buf n)) [
          | inl nak ↦ rw nak (handle_nak-Valid h' c buf n ts s k' q refl)
          | inr other ↦ rw other (carry_on-Valid h' c buf n s k' q refl)
        ]

    touched-claims :
        (c : Connection) (ts : ℕ) (a : SockAddr)
        → claims g a ≡ true
        → claims (change c (touch ts) g) a ≡ true
    unfolding claims
    touched-claims c ts a p = ground (
      arith,
      Like-has_conn_at g.conns _ a (on_conn-Like c.handle (touch ts) g.conns (touch-Keeps ts)),
    )

    pub receive-Valid :
        (c : Connection) (addr : SockAddr) (buf : List ℕ) (n ts : ℕ)
        → claims g addr ≡ true
        → Valid (receive os fl cfg g c addr buf n ts r)
    unfolding receive
    receive-Valid c addr buf n ts mine =
        let h = change c (touch ts) g in
        let k = change-Kin g c (touch ts) (touch-Keeps ts) in
        let s = (if is_recovering c ts then count Metrics.recovery_started 1 r else r) in
        let q : Quiet r s = started (is_recovering c ts) in
        elim (Bool-cases (is_srtla_keepalive buf n)) [
          | inl keepalive ↦ rw keepalive (handle_keepalive-Valid h c addr buf n s k q)
          | inr other ↦ elim (Bool-cases (ltb n srt_min_len)) [
            | inl short ↦ rw (other, short) (written-Valid h s k q)
            | inr long ↦
                rw (other, long)
                  (traffic-Valid h c addr buf n ts s k q (touched-claims c ts addr mine))
          ]
        ]
      where
        started : (b : Bool) → Quiet r (if b then count Metrics.recovery_started 1 r else r)
        started true = count-Quiet _ 1 r
        started false = Quiet-refl r
