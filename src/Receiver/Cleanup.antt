-- ===== src/Receiver/Cleanup.antt =====
-- cleanup_inactive of src/connection/connection_registry.cpp, with send_keepalive as its callback.
pub mod Thin
pub mod Deref
pub mod Swept
pub mod Alive
pub mod Valid
use srtla.Base.{
  ℕ, ◌+◌, ◌-◌, Bool, true, false, not, ◌&&◌, Option, none, some, List, [], ◌∷◌, ltb, ◌==◌,
  if◌then◌else◌, length,
}
use srtla.Connection.{Connection, conn_timed_out}
use srtla.Float.{Float}
use srtla.Group.{Group}
use srtla.Metrics
use srtla.Os.{Os}
use srtla.Quality.Evaluate.{is_empty}
use srtla.Receiver.{Receiver, count, put_group, drop_group, write_socket_info_file, for_each}
use srtla.Receiver.Srt.{Config}
use srtla.Receiver.Packet.{send_keepalive}

abbrev pub cleanup_period : ℕ
cleanup_period = 3

abbrev pub group_timeout : ℕ
group_timeout = 30

abbrev pub pending_group_timeout : ℕ
pending_group_timeout = 5

abbrev pub keepalive_period : ℕ
keepalive_period = 1

abbrev pub recovery_chance_period : ℕ
recovery_chance_period = 5

-- A recovering connection either has been heard of again, or has had its chance.
unfoldable pub has_recovered : Connection → ℕ → Bool
has_recovered c now =
    ltb 0 c.recovery_start
    && ltb c.recovery_start c.last_rcvd
    && ltb recovery_chance_period (now - c.recovery_start)

unfoldable pub has_failed : Connection → ℕ → Bool
has_failed c now =
    ltb 0 c.recovery_start
    && not (ltb c.recovery_start c.last_rcvd)
    && ltb (c.recovery_start + recovery_chance_period) now

unfoldable pub settle : Connection → ℕ → Receiver → Connection × Receiver
settle c now r =
    if has_recovered c now
    then (record c { recovery_start = 0 }, count Metrics.recovery_completed 1 r)
    else if has_failed c now
    then (record c { recovery_start = 0 }, count Metrics.recovery_failed 1 r)
    else (c, r)

unfoldable pub is_idle : Group → ℕ → Bool
is_idle g now =
    is_empty g.conns
    && ltb (g.created_at + (if g.data_seen then group_timeout else pending_group_timeout)) now

module _ (os : Os) (fl : Float) (cfg : Config) where
  -- One connection: what stays of it.
  unfoldable pub sweep_conn : Connection → ℕ → Receiver → Option Connection × Receiver
  unfolding settle
  sweep_conn c now r =
      let (c', r') = settle c now r in
      if conn_timed_out c' now
      then (none, count Metrics.connections_removed 1 r')
      else if ltb (c'.last_rcvd + keepalive_period) now
      then (some c', send_keepalive os fl cfg c' r')
      else (some c', r')

  abbrev pub keep : Option Connection → List Connection → List Connection
  keep none cs = cs
  keep (some c) cs = c ∷ cs

  unfoldable pub sweep_conns : List Connection → ℕ → Receiver → List Connection × Receiver
  unfolding sweep_conn
  sweep_conns [] now r = ([], r)
  sweep_conns (c ∷ cs) now r =
      let (oc, r') = sweep_conn c now r in
      let (cs', r'') = sweep_conns cs now r' in (keep oc cs', r'')

  unfoldable pub sweep_group : ℕ → Group → Receiver → Receiver
  unfolding sweep_conns
  sweep_group now g r =
      let (cs, r') = sweep_conns g.conns now r in
      let g' = record g { conns = cs } in
      if is_idle g' now
      then drop_group Metrics.groups_removed_idle g' r'
      else if length cs == length g.conns
      then put_group g' r'
      else write_socket_info_file g' (put_group g' r')

  unfoldable pub cleanup_inactive : ℕ → Receiver → Receiver
  unfolding sweep_group
  cleanup_inactive now r =
      if ltb now (r.last_run + cleanup_period)
      then r
      else for_each (sweep_group now) r.groups (record r { last_run = now })
