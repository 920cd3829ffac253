-- ===== src/Receiver/Loop.antt =====
-- The main loop of src/receiver_main.cpp. Each turn is given what epoll_wait and the reads bring.
pub mod Reachable
use srtla.Base.{
  ℕ, Bool, true, false, Option, none, some, List, [], ◌∷◌, ltb, if◌then◌else◌, length, ℤ,
}
use srtla.Addr.{SockAddr}
use srtla.AuthLimiter
use srtla.Float.{Float}
use srtla.Group.{Group}
use srtla.LoadBalancer.{adjust_weights}
use srtla.Os.{Os}
use srtla.Quality.Evaluate.{evaluate_group}
use srtla.Registry.{find_group_by_id}
use srtla.Receiver.{Receiver, put_group, for_each, start}
use srtla.Receiver.Srt.{Config, handle_srt_data}
use srtla.Receiver.Packet.{process_packets}
use srtla.Receiver.Cleanup.{cleanup_inactive}

-- What an epoll event is for: the SRTLA socket, with what recvmmsg returns; the metrics exporter,
-- which only reads; or the socket of the group with this id, with what recv returns.
pub data Event : Type 0 where
  packets : Option (List (SockAddr × List ℕ)) → Event
  scrape : Event
  srt_data : List ℕ → ℤ → List ℕ → Event

module _ (os : Os) (fl : Float) (cfg : Config) where
  unfoldable pub handle_event : Event → ℕ → Receiver → Receiver
  handle_event (packets batch) ts r = process_packets os fl cfg batch ts r
  handle_event scrape ts r = r
  handle_event (srt_data id n buf) ts r = elim (find_group_by_id r.groups id) [
    | none ↦ r
    | some g ↦ handle_srt_data os cfg g n buf r
  ]

  -- The loop ends once a group has gone.
  unfoldable pub handle_events : List Event → ℕ → Receiver → Receiver
  unfolding handle_event
  handle_events [] ts r = r
  handle_events (e ∷ es) ts r =
      let r' = handle_event e ts r in
      let rest = handle_events es ts r' in
      if ltb (length r'.groups) (length r.groups) then r' else rest

  -- Quality and weights of one group.
  unfoldable pub rate : ℕ → Group → Receiver → Receiver
  rate ts g r = put_group (adjust_weights (evaluate_group fl g ts (os.get_ms r.calls)) ts) r

  abbrev pub limiter_cleanup : ℕ → Receiver → Receiver
  limiter_cleanup ts r = record r { entries = AuthLimiter.cleanup r.entries ts }

  -- What follows the events.
  unfoldable pub maintain : ℕ → Receiver → Receiver
  unfolding rate
  maintain ts r =
      let r' = limiter_cleanup ts (cleanup_inactive os fl cfg ts r) in
      for_each (rate ts) r'.groups r'

  -- One turn of the loop: the time is `none` where get_seconds fails.
  unfoldable pub turn : List Event × Option ℕ → Receiver → Receiver
  unfolding handle_events maintain
  turn (events, none) r = r
  turn (events, some ts) r = maintain ts (handle_events events ts r)

  unfoldable pub run : List (List Event × Option ℕ) → Receiver → Receiver
  unfolding turn
  run [] r = r
  run (t ∷ ts) r = run ts (turn t r)
