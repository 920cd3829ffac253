-- ===== src/Exporter/Table.antt =====
-- The tables of src/metrics/prometheus.cpp: which name and which labels a counter has in a scrape,
-- and what is exported of a connection.
use srtla.Base.{ℕ, ◌-◌, List, [], ◌∷◌, ℤ, pos, negsuc, leb, if◌then◌else◌}
use srtla.Connection.{Connection}
use srtla.Metrics
use srtla.Metrics.{Counter}
use srtla.Text.{Text, codes, long_long}

pub record Def : Type 0 where
  pub id : Counter
  pub name : Text
  pub labels : Text
  pub help : Text

abbrev entry : Counter → Text → Text → Text → Def
entry id name labels help = record { id = id; name = name; labels = labels; help = help }

unfoldable pub k_defs : List Def
k_defs =
    entry Metrics.auth_failures (codes "srtla_auth_failures_total") (codes "")
      (codes "SRT authentication failures relayed back from the SRT server")
    ∷ entry Metrics.bytes_received (codes "srtla_bytes_received_total") (codes "")
        (codes "Bytes received from SRTLA clients")
    ∷ entry Metrics.conn_registrations (codes "srtla_conn_registrations_total") (codes "")
        (codes "Accepted connection registrations (REG2)")
    ∷ entry Metrics.conn_reg_no_group (codes "srtla_conn_registrations_rejected_total")
        (codes "{reason=\"no_group\"}") (codes "Rejected connection registrations")
    ∷ entry Metrics.conn_reg_group_mismatch (codes "srtla_conn_registrations_rejected_total")
        (codes "{reason=\"group_mismatch\"}") (codes "")
    ∷ entry Metrics.conn_reg_max_conns (codes "srtla_conn_registrations_rejected_total")
        (codes "{reason=\"max_conns\"}") (codes "")
    ∷ entry Metrics.conn_reg_send_error (codes "srtla_conn_registrations_rejected_total")
        (codes "{reason=\"send_error\"}") (codes "")
    ∷ entry Metrics.connections_removed (codes "srtla_connections_removed_total") (codes "")
        (codes "Connections dropped after CONN_TIMEOUT without traffic")
    ∷ entry Metrics.forward_dropped (codes "srtla_forward_dropped_total") (codes "") (
        codes
          "Client packets dropped because the SRT socket send buffer was full; SRT recovers them when a later packet exposes the gap")
    ∷ entry Metrics.forward_errors (codes "srtla_forward_errors_total") (codes "")
        (codes "Failures forwarding a client packet to the SRT server that ended the group")
    ∷ entry Metrics.forwarded_bytes (codes "srtla_forwarded_bytes_total") (codes "")
        (codes "Bytes forwarded to the SRT server")
    ∷ entry Metrics.forwarded_packets (codes "srtla_forwarded_packets_total") (codes "")
        (codes "Packets forwarded to the SRT server")
    ∷ entry Metrics.group_registrations (codes "srtla_group_registrations_total") (codes "")
        (codes "Accepted group registrations (REG1)")
    ∷ entry Metrics.group_reg_throttled (codes "srtla_group_registrations_rejected_total")
        (codes "{reason=\"throttled\"}") (codes "Rejected group registrations")
    ∷ entry Metrics.group_reg_table_full (codes "srtla_group_registrations_rejected_total")
        (codes "{reason=\"table_full\"}") (codes "")
    ∷ entry Metrics.group_reg_dup_addr (codes "srtla_group_registrations_rejected_total")
        (codes "{reason=\"duplicate_address\"}") (codes "")
    ∷ entry Metrics.group_reg_send_error (codes "srtla_group_registrations_rejected_total")
        (codes "{reason=\"send_error\"}") (codes "")
    ∷ entry Metrics.groups_removed_idle (codes "srtla_groups_removed_total")
        (codes "{reason=\"idle_timeout\"}") (codes "Groups torn down, by cause")
    ∷ entry Metrics.groups_removed_auth (codes "srtla_groups_removed_total")
        (codes "{reason=\"auth_failed\"}") (codes "")
    ∷ entry Metrics.groups_removed_srt_error (codes "srtla_groups_removed_total")
        (codes "{reason=\"srt_error\"}") (codes "")
    ∷ entry Metrics.groups_removed_evicted (codes "srtla_groups_removed_total")
        (codes "{reason=\"evicted\"}") (codes "")
    ∷ entry Metrics.naks_received (codes "srtla_naks_received_total") (codes "")
        (codes "SRT NAK packets accepted from clients")
    ∷ entry Metrics.naks_suppressed (codes "srtla_naks_suppressed_total") (codes "")
        (codes "SRT NAK packets dropped as duplicates")
    ∷ entry Metrics.packets_received (codes "srtla_packets_received_total") (codes "")
        (codes "Packets received from SRTLA clients")
    ∷ entry Metrics.recovery_started (codes "srtla_recoveries_total") (codes "{result=\"started\"}")
        (codes "Connection recovery attempts")
    ∷ entry Metrics.recovery_completed (codes "srtla_recoveries_total")
        (codes "{result=\"completed\"}") (codes "")
    ∷ entry Metrics.recovery_failed (codes "srtla_recoveries_total") (codes "{result=\"failed\"}")
        (codes "")
    ∷ entry Metrics.recv_batches (codes "srtla_recv_batches_total") (codes "") (
        codes
          "recvmmsg() calls that returned at least one packet; packets/batches is the receive-loop fill ratio")
    ∷ entry Metrics.send_err_ack (codes "srtla_send_errors_total") (codes "{path=\"ack\"}")
        (codes "Failed sends towards clients, by path")
    ∷ entry Metrics.send_err_keepalive (codes "srtla_send_errors_total")
        (codes "{path=\"keepalive\"}") (codes "")
    ∷ entry Metrics.send_err_downstream (codes "srtla_send_errors_total")
        (codes "{path=\"downstream\"}") (codes "")
    ∷ entry Metrics.srt_bytes_received (codes "srtla_srt_bytes_received_total") (codes "")
        (codes "Bytes received from the SRT server")
    ∷ entry Metrics.srt_packets_received (codes "srtla_srt_packets_received_total") (codes "")
        (codes "Packets received from the SRT server")
    ∷ []

-- `type` is a word of the exposition format, "counter" or "gauge".
pub record ConnDef : Type 0 where
  pub name : Text
  pub kind : Text
  pub help : Text
  pub value : Connection → ℕ → ℤ

abbrev conn_entry : Text → Text → Text → (Connection → ℕ → ℤ) → ConnDef
conn_entry name kind help value = record { name = name; kind = kind; help = help; value = value }

-- a - b of two times.
unfoldable pub seconds_since : ℕ → ℕ → ℤ
seconds_since b a = if leb b a then pos (a - b) else negsuc (b - a - 1)

unfoldable pub k_conn_defs : List ConnDef
unfolding long_long seconds_since
k_conn_defs =
    conn_entry (codes "srtla_conn_bytes_received_total") (codes "counter")
      (codes "Bytes received on this connection") (λ c now. long_long c.stats.bytes_received)
    ∷ conn_entry (codes "srtla_conn_packets_received_total") (codes "counter")
        (codes "Packets received on this connection") (λ c now. long_long c.stats.packets_received)
    ∷ conn_entry (codes "srtla_conn_packets_lost_total") (codes "counter")
        (codes "Packets reported lost (NAKs) on this connection")
        (λ c now. pos c.stats.packets_lost)
    ∷ conn_entry (codes "srtla_conn_weight_percent") (codes "gauge")
        (codes "Load-balancing weight assigned to this connection")
        (λ c now. pos c.stats.weight_percent)
    ∷ conn_entry (codes "srtla_conn_error_points") (codes "gauge")
        (codes "Quality error points accumulated in the last evaluation")
        (λ c now. pos c.stats.error_points)
    ∷ conn_entry (codes "srtla_conn_rtt_ms") (codes "gauge")
        (codes "Round-trip time reported by the sender (extended keepalives only)")
        (λ c now. pos c.stats.rtt_ms)
    ∷ conn_entry (codes "srtla_conn_window") (codes "gauge")
        (codes "Sender-side congestion window (extended keepalives only)") (λ c now. c.stats.window)
    ∷ conn_entry (codes "srtla_conn_in_flight") (codes "gauge")
        (codes "Sender-side in-flight packets (extended keepalives only)")
        (λ c now. c.stats.in_flight)
    ∷ conn_entry (codes "srtla_conn_sender_bitrate_bytes_per_second") (codes "gauge")
        (codes "Send rate reported by the sender (extended keepalives only)")
        (λ c now. pos c.stats.sender_bitrate_bps)
    ∷ conn_entry (codes "srtla_conn_idle_seconds") (codes "gauge")
        (codes "Seconds since the last packet on this connection")
        (λ c now. seconds_since c.last_rcvd now)
    ∷ conn_entry (codes "srtla_conn_extended_keepalives") (codes "gauge")
        (codes "1 if the sender sends extended keepalives with telemetry")
        (λ c now. pos (if c.stats.sender_supports_extended_keepalives then 1 else 0))
    ∷ []
