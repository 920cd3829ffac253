-- ===== src/Receiver/Cleanup/Valid.antt =====
-- What a cleanup leaves valid.
use srtla.Base.{
  ℕ, ◌+◌, ◌≡◌, refl, sym, subst, some, List, [], ◌∷◌, Bool-cases, Option-cases, inl, inr, length,
  ltb, ◌==◌, pos, eqb_ℤ,
}
use srtla.Connection.{Connection, conn_timed_out}
use srtla.Float.{Float}
use srtla.Group.{Group}
use srtla.Metrics
use srtla.Os.{Os}
use srtla.Registry.Lookup.{MemGroup}
use srtla.Registry.Kin.{LogOk}
use srtla.Wire.{put16, srtla_type_keepalive}
use srtla.Receiver.{Receiver, count, pad_sendto, put_group, deref, for_each}
use srtla.Receiver.Quiet.{
  Quiet, Quiet-refl, Quiet-trans, count-Quiet, pad_sendto-Quiet, write_socket_info_file-Quiet,
  Valid, Quiet-Valid, drop_group-Valid,
}
use srtla.Receiver.Srt.{Config}
use srtla.Receiver.Srt.Valid.{put_group-Valid}
use srtla.Receiver.Packet.{send_keepalive}
use srtla.Receiver.Cleanup.{
  has_recovered, has_failed, settle, is_idle, sweep_conn, sweep_conns, sweep_group,
  cleanup_inactive, cleanup_period, keepalive_period,
}
use srtla.Receiver.Cleanup.Thin.{Thin, done, kept, dropped, Thin-Kin}

pub deref-mem :
    (handle : ℕ) (gs : List Group) (g : Group) → deref handle gs ≡ some g → MemGroup g gs
unfolding deref
deref-mem handle [] g e = absurd (cc)
deref-mem handle (h ∷ hs) g e = elim (Bool-cases (h.handle == handle)) [
  | inl same ↦
      let eq : h ≡ g = cc (rw same at e) in subst (λ x. MemGroup x (h ∷ hs)) eq MemGroup.head
  | inr other ↦ MemGroup.tail (deref-mem handle hs g (rw other at e))
]

-- A loop keeps the table valid if its body does, on every group of the table.
pub for_each-Valid :
    (body : Group → Receiver → Receiver)
    → ((g : Group) (r : Receiver) → Valid r → MemGroup g r.groups → Valid (body g r))
    → (gs : List Group) (r : Receiver) → Valid r
    → Valid (for_each body gs r)
unfolding for_each
for_each-Valid body keeps [] r v = v
for_each-Valid body keeps (g ∷ gs) r v =
    for_each-Valid body keeps gs _ (elim (Option-cases (deref g.handle r.groups)) [
      | inl gone ↦ rw gone v
      | inr (h, there) ↦ rw there (keeps h r v (deref-mem g.handle r.groups h there))
    ])

settle-addr :
    (c : Connection) (now : ℕ) (r : Receiver)
    → ((settle c now r).0.addr ≡ c.addr)
      × (LogOk c → LogOk (settle c now r).0)
      × Quiet r (settle c now r).1
unfolding settle
settle-addr c now r = elim (Bool-cases (has_recovered c now)) [
  | inl e ↦ rw e (refl, (λ l. l), count-Quiet _ 1 r)
  | inr n ↦ elim (Bool-cases (has_failed c now)) [
    | inl e ↦ rw (n, e) (refl, (λ l. l), count-Quiet _ 1 r)
    | inr m ↦ rw (n, m) (refl, (λ l. l), Quiet-refl r)
  ]
]

module _ (os : Os) (fl : Float) (cfg : Config) where
  send_keepalive-Quiet : (c : Connection) (r : Receiver) → Quiet r (send_keepalive os fl cfg c r)
  unfolding send_keepalive
  send_keepalive-Quiet c r =
      let p = pad_sendto-Quiet os r c.addr (put16 srtla_type_keepalive) in
      let sent = pad_sendto os r c.addr (put16 srtla_type_keepalive) in
      elim (Bool-cases (eqb_ℤ sent.0 (pos 2))) [
        | inl e ↦ rw e p
        | inr e ↦ rw e (Quiet-trans r sent.1 _ p (count-Quiet _ 1 sent.1))
      ]

  pub sweep_conns-Thin :
      (cs : List Connection) (now : ℕ) (r : Receiver)
      → Thin cs (sweep_conns os fl cfg cs now r).0 × Quiet r (sweep_conns os fl cfg cs now r).1
  unfolding sweep_conns sweep_conn
  sweep_conns-Thin [] now r = (done, Quiet-refl r)
  sweep_conns-Thin (c ∷ cs) now r =
      let s = settle-addr c now r in
      let c' = (settle c now r).0 in
      let r' = (settle c now r).1 in
      elim (Bool-cases (conn_timed_out c' now)) [
        | inl late ↦
            let rest = sweep_conns-Thin cs now (count Metrics.connections_removed 1 r') in
            rw late (
              dropped rest.0,
              Quiet-trans r r' _ s.2
                  (Quiet-trans r' _ _ (count-Quiet Metrics.connections_removed 1 r') rest.1),
            )
        | inr alive ↦ elim (Bool-cases (ltb (c'.last_rcvd + keepalive_period) now)) [
          | inl silent ↦
              let rest = sweep_conns-Thin cs now (send_keepalive os fl cfg c' r') in
              rw (alive, silent)
                (
                  kept s.0 s.1 rest.0,
                  Quiet-trans r r' _ s.2 (Quiet-trans r' _ _ (send_keepalive-Quiet c' r') rest.1),
                )
          | inr heard ↦
              let rest = sweep_conns-Thin cs now r' in
              rw (alive, heard) (kept s.0 s.1 rest.0, Quiet-trans r r' _ s.2 rest.1)
        ]
      ]

  sweep_group-Valid :
      (now : ℕ) (g : Group) (r : Receiver)
      → Valid r
      → MemGroup g r.groups
      → Valid (sweep_group os fl cfg now g r)
  unfolding sweep_group
  sweep_group-Valid now g r v m =
      let s = sweep_conns os fl cfg g.conns now r in
      let t = sweep_conns-Thin g.conns now r in
      let g' = record g { conns = s.0 } in
      let v' = Quiet-Valid r s.1 t.1 v in
      let stored =
        put_group-Valid s.1 g g' v' (subst (MemGroup g) (sym t.1.groups) m) (Thin-Kin g s.0 t.0) in
      elim (Bool-cases (is_idle g' now)) [
        | inl idle ↦ rw idle (drop_group-Valid _ g' s.1 v')
        | inr busy ↦ elim (Bool-cases (length s.0 == length g.conns)) [
          | inl same ↦ rw (busy, same) stored
          | inr fewer ↦
              rw (busy, fewer)
                (Quiet-Valid (put_group g' s.1) _ (write_socket_info_file-Quiet g' _) stored)
        ]
      ]

  -- A cleanup at any time keeps the table valid.
  pub cleanup_inactive-Valid :
      (now : ℕ) (r : Receiver) → Valid r → Valid (cleanup_inactive os fl cfg now r)
  unfolding cleanup_inactive
  cleanup_inactive-Valid now r v = elim (Bool-cases (ltb now (r.last_run + cleanup_period))) [
    | inl early ↦ rw early v
    | inr due ↦ rw due (
        for_each-Valid (sweep_group os fl cfg now) (sweep_group-Valid now) r.groups
          (record r { last_run = now }) v)
  ]
