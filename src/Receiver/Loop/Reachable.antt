-- ===== src/Receiver/Loop/Reachable.antt =====
-- The states that srtla_rec reaches.
use srtla.Base.{
  ℕ, refl, not, Option, none, some, List, [], ◌∷◌, map, Bool-cases, Option-cases, inl, inr, length,
  ltb, ◌==◌,
}
use srtla.Connection.{Connection}
use srtla.Float.{Float}
use srtla.Group.{Group}
use srtla.LoadBalancer.{weight_for, adjust_weight, skips, adjust_weights}
use srtla.Os.{Os}
use srtla.Quality.Evaluate.{evaluate_group}
use srtla.Registry.{find_group_by_id}
use srtla.Registry.Lookup.{MemGroup, claims}
use srtla.Registry.Valid.{empty-IsValid}
use srtla.Registry.Kin.{Like, Kin, Kin-refl, Kin-trans, Kin-conns}
use srtla.Receiver.{Receiver, start}
use srtla.Receiver.Quiet.{Valid}
use srtla.Receiver.Register.Join.{find_group_by_id-mem}
use srtla.Receiver.Srt.{Config}
use srtla.Receiver.Srt.Valid.{handle_srt_data-Valid, put_group-Valid}
use srtla.Receiver.Packet.Keeps.{evaluate_group-Kin}
use srtla.Receiver.Packet.Valid.{process_packets-Valid}
use srtla.Receiver.Cleanup.{cleanup_inactive}
use srtla.Receiver.Cleanup.Valid.{for_each-Valid, cleanup_inactive-Valid}
use srtla.Receiver.Loop.{
  Event, packets, scrape, srt_data, handle_event, handle_events, rate, limiter_cleanup, maintain,
  turn, run,
}

adjust_weight-Like : (cs : List Connection) → Like cs (map adjust_weight cs)
unfolding adjust_weight
adjust_weight-Like [] = tt
adjust_weight-Like (c ∷ cs) =
    elim (Bool-cases (not (weight_for c.stats.error_points == c.stats.weight_percent))) [
      | inl e ↦ rw e (refl, (λ l. l), adjust_weight-Like cs)
      | inr e ↦ rw e (refl, (λ l. l), adjust_weight-Like cs)
    ]

adjust_weights-Kin : (g : Group) (now : ℕ) → Kin g (adjust_weights g now)
unfolding adjust_weights claims
adjust_weights-Kin g now =
    let k = Kin-conns g (map adjust_weight g.conns) (adjust_weight-Like g.conns) in
    elim (Bool-cases (skips g now)) [
      | inl early ↦ rw early (Kin-refl g)
      | inr due ↦ rw due (record {
        handle = refl;
        okay = λ o.
            let p = k.okay o in
            record { few = p.few; apart = p.apart; logs = p.logs; closed = p.closed };
        narrow = λ a p. k.narrow a p;
      })
    ]

module _ (os : Os) (fl : Float) (cfg : Config) where
  handle_event-Valid :
      (e : Event) (ts : ℕ) (r : Receiver) → Valid r → Valid (handle_event os fl cfg e ts r)
  unfolding handle_event
  handle_event-Valid (packets batch) ts r v = process_packets-Valid os fl cfg batch ts r v
  handle_event-Valid scrape ts r v = v
  handle_event-Valid (srt_data id n buf) ts r v =
      elim (Option-cases (find_group_by_id r.groups id)) [
        | inl gone ↦ rw (gone, handle_event) v
        | inr (g, there) ↦
            rw (there, handle_event)
              (handle_srt_data-Valid os cfg g n buf r v (find_group_by_id-mem r.groups id g there))
      ]

  handle_events-Valid :
      (es : List Event) (ts : ℕ) (r : Receiver) → Valid r → Valid (handle_events os fl cfg es ts r)
  unfolding handle_events
  handle_events-Valid [] ts r v = v
  handle_events-Valid (e ∷ es) ts r v =
      let r' = handle_event os fl cfg e ts r in
      let v' = handle_event-Valid e ts r v in
      elim (Bool-cases (ltb (length r'.groups) (length r.groups))) [
        | inl shrunk ↦ rw shrunk v'
        | inr on ↦ rw on (handle_events-Valid es ts r' v')
      ]

  rate-Valid :
      (ts : ℕ) (g : Group) (r : Receiver)
      → Valid r
      → MemGroup g r.groups
      → Valid (rate os fl cfg ts g r)
  unfolding rate
  rate-Valid ts g r v m =
      let h = evaluate_group fl g ts (os.get_ms r.calls) in
      put_group-Valid r g (adjust_weights h ts) v m (
        Kin-trans g h (adjust_weights h ts) (evaluate_group-Kin fl g ts (os.get_ms r.calls))
          (adjust_weights-Kin h ts))

  turn-Valid : (t : List Event × Option ℕ) (r : Receiver) → Valid r → Valid (turn os fl cfg t r)
  unfolding turn maintain
  turn-Valid (es, none) r v = v
  turn-Valid (es, some ts) r v =
      let s = handle_events os fl cfg es ts r in
      let s' = limiter_cleanup os fl cfg ts (cleanup_inactive os fl cfg ts s) in
      for_each-Valid (rate os fl cfg ts) (rate-Valid ts) s'.groups s'
        (cleanup_inactive-Valid os fl cfg ts s (handle_events-Valid es ts r v))

  run-keeps :
      (ts : List (List Event × Option ℕ)) (r : Receiver) → Valid r → Valid (run os fl cfg ts r)
  unfolding run
  run-keeps [] r v = v
  run-keeps (t ∷ ts) r v = run-keeps ts (turn os fl cfg t r) (turn-Valid t r v)

  -- From the start, after any turns of the loop with any packets, any times and any results of the
  -- operating system's calls, the table is valid: at most 200 groups, each with at most 16
  -- connections of distinct addresses whose logs are within bounds, and no address belongs to two
  -- groups.
  pub run-Valid : (turns : List (List Event × Option ℕ)) → Valid (run os fl cfg turns start)
  run-Valid turns = run-keeps turns start (empty-IsValid 0)
