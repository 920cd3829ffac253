-- ===== src/Receiver/Cleanup/Swept.antt =====
-- What a cleanup makes of one group, and what it leaves alone.
use srtla.Base.{
  ℕ, ◌+◌, ◌≡◌, refl, ◌∙◌, ap, subst, true, false, ◌&&◌, Option, none, some, List, [], ◌∷◌, map,
  Bool-cases, inl, inr, ltb, ◌==◌, if◌then◌else◌, length, arith,
}
use srtla.Connection.{Connection, conn_timed_out}
use srtla.Float.{Float}
use srtla.Group.{Group}
use srtla.Metrics
use srtla.Os.{Os}
use srtla.Quality.Evaluate.{is_empty}
use srtla.Receiver.{Receiver, count, deref, put_group}
use srtla.Receiver.Quiet.{write_socket_info_file-Quiet, drop_group-groups}
use srtla.Receiver.Srt.{Config}
use srtla.Receiver.Packet.{send_keepalive}
use srtla.Receiver.Cleanup.{
  has_recovered, has_failed, settle, is_idle, sweep_conn, sweep_conns, sweep_group,
  keepalive_period,
}
use srtla.Receiver.Cleanup.Valid.{sweep_conns-Thin}
use srtla.Registry.{store}
use srtla.Receiver.Cleanup.Deref.{deref-store, deref-store_other, deref-remove, deref-remove_other}

-- The connections that have been heard of within 15 seconds.
unfoldable pub alive : ℕ → List Connection → List Connection
alive now [] = []
alive now (c ∷ cs) =
    let rest = alive now cs in if ltb (c.last_rcvd + 15) now then rest else c ∷ rest

-- A recovery ends after 5 seconds, whether the connection has been heard of in between or not.
unfoldable pub refreshed : ℕ → Connection → Connection
refreshed now c =
    if ltb 0 c.recovery_start && ltb (c.recovery_start + 5) now
    then record c { recovery_start = 0 }
    else c

-- What becomes of a group: it goes once it is empty and 30 seconds old, or 5 where it has not seen
-- data.
unfoldable pub swept : ℕ → Option Group → Option Group
swept now none = none
swept now (some g) =
    if is_empty (alive now g.conns) && ltb (g.created_at + (if g.data_seen then 30 else 5)) now
    then none
    else some (record g { conns = map (refreshed now) (alive now g.conns) })

settle-refreshed : (c : Connection) (now : ℕ) (r : Receiver) → (settle c now r).0 ≡ refreshed now c
unfolding settle has_recovered has_failed refreshed
settle-refreshed c now r = ground arith

refreshed-last_rcvd : (now : ℕ) (c : Connection) → (refreshed now c).last_rcvd ≡ c.last_rcvd
unfolding refreshed
refreshed-last_rcvd now c = ground arith

is_empty-map :
    (f : Connection → Connection) (cs : List Connection) → is_empty (map f cs) ≡ is_empty cs
is_empty-map f [] = refl
is_empty-map f (c ∷ cs) = refl

module _ (os : Os) (fl : Float) (cfg : Config) where
  sweep_conns-swept :
      (cs : List Connection) (now : ℕ) (r : Receiver)
      → (sweep_conns os fl cfg cs now r).0 ≡ map (refreshed now) (alive now cs)
  unfolding sweep_conns sweep_conn alive conn_timed_out
  sweep_conns-swept [] now r = refl
  sweep_conns-swept (c ∷ cs) now r =
      let c' = (settle c now r).0 in
      let r' = (settle c now r).1 in
      let is : c' ≡ refreshed now c = settle-refreshed c now r in
      let heard : c'.last_rcvd ≡ c.last_rcvd =
        ap (λ x. x.last_rcvd) is ∙ refreshed-last_rcvd now c in
      elim (Bool-cases (ltb (c.last_rcvd + 15) now)) [
        | inl late ↦
            rw (heard, late) (sweep_conns-swept cs now (count Metrics.connections_removed 1 r'))
        | inr near ↦ elim (Bool-cases (ltb (c.last_rcvd + keepalive_period) now)) [
          | inl silent ↦
              rw (heard, near, silent)
                (λ i. is i ∷ sweep_conns-swept cs now (send_keepalive os fl cfg c' r') i)
          | inr recent ↦ rw (heard, near, recent) (λ i. is i ∷ sweep_conns-swept cs now r' i)
        ]
      ]

  -- The group itself.
  pub sweep_group-swept :
      (now : ℕ) (g : Group) (r : Receiver)
      → deref g.handle r.groups ≡ some g
      → deref g.handle (sweep_group os fl cfg now g r).groups ≡ swept now (some g)
  unfolding sweep_group is_idle swept put_group
  sweep_group-swept now g r e =
      let s = sweep_conns os fl cfg g.conns now r in
      let quiet = (sweep_conns-Thin os fl cfg g.conns now r).1 in
      let g' = record g { conns = s.0 } in
      let k = sweep_conns-swept g.conns now r in
      let empty : is_empty s.0 ≡ is_empty (alive now g.conns) =
        ap is_empty k ∙ is_empty-map (refreshed now) (alive now g.conns) in
      let stored : deref g.handle (store g' s.1.groups) ≡ some g' =
        deref-store g' s.1.groups g (ap (deref g.handle) quiet.groups ∙ e) in
      let is_new : some g' ≡ some (record g { conns = map (refreshed now) (alive now g.conns) }) =
        ap (λ cs. some (record g { conns = cs })) k in
      elim (Bool-cases (is_idle g' now)) [
        | inl idle ↦
            let gone =
              subst (λ b. (b && ltb (g.created_at + (if g.data_seen then 30 else 5)) now) ≡ true)
                empty idle in
            rw (idle, gone)
              (ap (deref g.handle) (drop_group-groups Metrics.groups_removed_idle g' s.1).0
                ∙ deref-remove g.handle s.1.groups)
        | inr busy ↦
            let stays =
              subst (λ b. (b && ltb (g.created_at + (if g.data_seen then 30 else 5)) now) ≡ false)
                empty busy in
            elim (Bool-cases (length s.0 == length g.conns)) [
              | inl same ↦ rw (busy, stays, same) (stored ∙ is_new)
              | inr fewer ↦
                  rw (busy, stays, fewer)
                    (ap (deref g.handle) (write_socket_info_file-Quiet g' (put_group g' s.1)).groups
                      ∙ stored
                      ∙ is_new)
            ]
      ]

  -- No other group.
  pub sweep_group-others :
      (now h : ℕ) (g : Group) (r : Receiver)
      → (g.handle == h) ≡ false
      → deref h (sweep_group os fl cfg now g r).groups ≡ deref h r.groups
  unfolding sweep_group put_group
  sweep_group-others now h g r n =
      let s = sweep_conns os fl cfg g.conns now r in
      let quiet = ap (deref h) (sweep_conns-Thin os fl cfg g.conns now r).1.groups in
      let g' = record g { conns = s.0 } in
      let stored = deref-store_other h g' s.1.groups n ∙ quiet in
      elim (Bool-cases (is_idle g' now)) [
        | inl idle ↦ rw idle (
            ap (deref h) (drop_group-groups Metrics.groups_removed_idle g' s.1).0
            ∙ deref-remove_other h g.handle s.1.groups n
            ∙ quiet)
        | inr busy ↦ elim (Bool-cases (length s.0 == length g.conns)) [
          | inl same ↦ rw (busy, same) stored
          | inr fewer ↦
              rw (busy, fewer)
                (ap (deref h) (write_socket_info_file-Quiet g' (put_group g' s.1)).groups ∙ stored)
        ]
      ]
