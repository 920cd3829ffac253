-- ===== src/Receiver/Packet/Keeps.antt =====
-- What process_single_packet and an evaluation may do to the connections of a group.
use srtla.Base.{
  ℕ, suc, ◌+◌, ◌-◌, ◌≡◌, refl, sym, ◌∙◌, ap, subst, true, not, ◌||◌, Option, none, some, List, [],
  ◌∷◌, arith, Bool-cases, inl, inr, length, length-set, ltb, ◌==◌,
}
use srtla.Addr.{addresses_equal}
use srtla.Connection.{Connection, on_packet_received, on_nak_detected}
use srtla.Float.{Float}
use srtla.Group.{Group}
use srtla.Quality.{QualityMetrics, connection_grace_period}
use srtla.Quality.Evaluate.{
  is_empty, evaluate_connection, measure_all, evaluate_all, evaluate_group,
}
use srtla.Registry.Lookup.{claims, has_conn_at}
use srtla.Registry.Kin.{LogOk, Like, Like-refl, Kin, Kin-conns}
use srtla.Wire.{ConnectionInfo}
use srtla.Receiver.Packet.{on_conn, change, is_recovering, touch, learn, logged, next_idx, is_full}

-- What a handler may do to a connection.
abbrev pub Keeps : (Connection → Connection) → Type 0
Keeps f = (d : Connection) → ((f d).addr ≡ d.addr) × (LogOk d → LogOk (f d))

pub on_conn-Like :
    (handle : ℕ) (f : Connection → Connection) (cs : List Connection)
    → Keeps f
    → Like cs (on_conn handle f cs)
unfolding on_conn
on_conn-Like handle f [] k = tt
on_conn-Like handle f (c ∷ cs) k = elim (Bool-cases (c.handle == handle)) [
  | inl e ↦ rw e ((k c).0, (k c).1, on_conn-Like handle f cs k)
  | inr e ↦ rw e (refl, (λ l. l), on_conn-Like handle f cs k)
]

pub change-Kin :
    (g : Group) (c : Connection) (f : Connection → Connection) → Keeps f → Kin g (change c f g)
change-Kin g c f k = Kin-conns g (on_conn c.handle f g.conns) (on_conn-Like c.handle f g.conns k)

pub touch-Keeps : (ts : ℕ) → Keeps (touch ts)
unfolding touch
touch-Keeps ts d = elim (Bool-cases (is_recovering d ts)) [
  | inl e ↦ rw e (refl, (λ l. l))
  | inr e ↦ rw e (refl, (λ l. l))
]

pub learn-Keeps : (info : Option ConnectionInfo) (now : ℕ) → Keeps (learn info now)
unfolding learn
learn-Keeps none now d = (refl, (λ l. l))
learn-Keeps (some info) now d = (refl, (λ l. l))

pub logged-Keeps : (sn : ℕ) → Keeps (logged sn)
unfolding logged next_idx is_full
logged-Keeps sn d = (refl, (λ l. (ground arith, length-set d.recv_log (next_idx d - 1) sn ∙ l.1)))

pub packet-Keeps : (n : ℕ) → Keeps (λ d. record d { stats = on_packet_received d.stats n })
packet-Keeps n d = (refl, (λ l. l))

pub nak-Keeps : Keeps (λ d. record d { stats = on_nak_detected d.stats 1 })
nak-Keeps d = (refl, (λ l. l))

module _ (fl : Float) where
  evaluate_connection-Keeps :
      (now ms : ℕ) (median expected : fl.F) (m : QualityMetrics fl.F)
      → Keeps (evaluate_connection fl now ms median expected m)
  unfolding evaluate_connection
  evaluate_connection-Keeps now ms median expected m d =
      elim (Bool-cases (ltb (now - d.connection_start) connection_grace_period)) [
        | inl e ↦ rw e (refl, (λ l. l))
        | inr e ↦ rw e (refl, (λ l. l))
      ]

  measure_all-length :
      (ms : ℕ) (cs : List Connection) (total : ℕ)
      → length (measure_all fl ms cs total).0 ≡ length cs
  unfolding measure_all
  measure_all-length ms [] total = refl
  measure_all-length ms (c ∷ cs) total = ap suc (measure_all-length ms cs _)

  evaluate_all-Like :
      (now ms : ℕ) (median expected : fl.F) (qs : List (QualityMetrics fl.F)) (cs : List Connection)
      → length qs ≡ length cs
      → Like cs (evaluate_all fl now ms median expected qs cs)
  unfolding evaluate_all
  evaluate_all-Like now ms median expected [] cs e = Like-refl cs
  evaluate_all-Like now ms median expected (q ∷ qs) [] e = absurd (omega arith)
  evaluate_all-Like now ms median expected (q ∷ qs) (c ∷ cs) e =
      let k = evaluate_connection-Keeps now ms median expected q c in
      (k.0, k.1, evaluate_all-Like now ms median expected qs cs (omega arith))

  evaluated-Kin :
      (g h : Group)
      → h.handle ≡ g.handle
      → h.last_addr ≡ g.last_addr
      → h.srt_sock ≡ g.srt_sock
      → h.data_seen ≡ g.data_seen
      → Like g.conns h.conns
      → Kin g h
  unfolding claims
  evaluated-Kin g h handle addr sock seen l =
      let k = Kin-conns g h.conns l in
      record {
        handle = handle;
        okay = λ o.
            let p = k.okay o in
            record {
              few = p.few;
              apart = p.apart;
              logs = p.logs;
              closed = λ e. sock ∙ o.closed (sym seen ∙ e);
            };
        narrow = λ a p.
            k.narrow a (subst (λ x. (has_conn_at h.conns a || addresses_equal x a) ≡ true) addr p);
      }

  evaluated-Like :
      (g : Group) (now : ℕ) (clock : Option ℕ) → Like g.conns (evaluate_group fl g now clock).conns
  unfolding evaluate_group
  evaluated-Like g now none = ground (arith, Like-refl g.conns)
  evaluated-Like g now (some ms) =
      elim (Bool-cases (is_empty g.conns || not g.load_balancing_enabled)) [
        | inl off ↦ rw off (Like-refl g.conns)
        | inr on ↦ elim (Bool-cases (ltb now (g.last_quality_eval + 5))) [
          | inl early ↦ rw (on, early) (Like-refl g.conns)
          | inr due ↦
              rw (on, due)
                (evaluate_all-Like now ms _ _ _ g.conns (measure_all-length ms g.conns 0))
        ]
      ]

  -- An evaluation leaves the addresses and the socket.
  pub evaluate_group-Kin :
      (g : Group) (now : ℕ) (clock : Option ℕ) → Kin g (evaluate_group fl g now clock)
  unfolding evaluate_group
  evaluate_group-Kin g now clock =
      evaluated-Kin g (evaluate_group fl g now clock) (ground arith) (ground arith) (ground arith)
        (ground arith) (evaluated-Like g now clock)

  pub evaluate_group-data_seen :
      (g : Group) (now : ℕ) (clock : Option ℕ)
      → (evaluate_group fl g now clock).data_seen ≡ g.data_seen
  unfolding evaluate_group
  evaluate_group-data_seen g now clock = ground arith
