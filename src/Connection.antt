-- ===== src/Connection.antt =====
-- src/connection/connection.h and connection.cpp, ConnectionStats of src/receiver_config.h, and
-- src/quality/metrics_collector.cpp. Unsigned counters wrap as in the source; times are seconds of
-- the monotonic clock and do not.
pub mod Period
use srtla.Base.{
  ℕ, ◌+◌, ◌-◌, ◌%◌, ◌^◌, Bool, true, false, ◌||◌, List, ltb, ◌==◌, if◌then◌else◌, ℤ, pos, ltb_ℤ,
  replicate,
}
use srtla.Addr.{SockAddr}

abbrev pub recv_ack_int : ℕ
recv_ack_int = 10

abbrev pub rtt_history_size : ℕ
rtt_history_size = 5

abbrev pub keepalive_staleness_threshold : ℕ
keepalive_staleness_threshold = 2

abbrev pub conn_timeout : ℕ
conn_timeout = 15

abbrev pub weight_full : ℕ
weight_full = 100

pub record ConnectionStats : Type 0 where
  pub bytes_received : ℕ
  pub packets_received : ℕ
  pub packets_lost : ℕ
  pub last_eval_time : ℕ
  pub last_bytes_received : ℕ
  pub last_packets_received : ℕ
  pub last_packets_lost : ℕ
  pub error_points : ℕ
  pub weight_percent : ℕ
  pub nack_count : ℕ
  pub rtt_ms : ℕ
  pub rtt_history : List ℕ
  pub rtt_history_idx : ℕ
  pub last_keepalive : ℕ
  pub window : ℤ
  pub in_flight : ℤ
  pub sender_nak_count : ℕ
  pub last_sender_nak_count : ℕ
  pub sender_bitrate_bps : ℕ
  pub sender_supports_extended_keepalives : Bool
  pub legacy_error_points : ℕ
  pub legacy_weight_percent : ℕ

abbrev pub initial_stats : ConnectionStats
initial_stats = record {
  bytes_received = 0;
  packets_received = 0;
  packets_lost = 0;
  last_eval_time = 0;
  last_bytes_received = 0;
  last_packets_received = 0;
  last_packets_lost = 0;
  error_points = 0;
  weight_percent = weight_full;
  nack_count = 0;
  rtt_ms = 0;
  rtt_history = replicate rtt_history_size 0;
  rtt_history_idx = 0;
  last_keepalive = 0;
  window = pos 0;
  in_flight = pos 0;
  sender_nak_count = 0;
  last_sender_nak_count = 0;
  sender_bitrate_bps = 0;
  sender_supports_extended_keepalives = false;
  legacy_error_points = 0;
  legacy_weight_percent = weight_full;
}

-- Telemetry is of use if a keepalive brought it at most 2 seconds ago and it says something.
unfoldable pub has_valid_sender_telemetry : ConnectionStats → ℕ → Bool
has_valid_sender_telemetry s now =
    if s.last_keepalive == 0
    then false
    else if ltb keepalive_staleness_threshold (now - s.last_keepalive)
    then false
    else ltb 0 s.rtt_ms || ltb_ℤ (pos 0) s.window

-- `handle` stands for the object's identity, what two `ConnectionPtr` are compared by.
pub record Connection : Type 0 where
  pub handle : ℕ
  pub addr : SockAddr
  pub last_rcvd : ℕ
  pub recv_idx : ℕ
  pub recv_log : List ℕ
  pub stats : ConnectionStats
  pub recovery_start : ℕ
  pub connection_start : ℕ

-- The constructor.
unfoldable pub new_connection : ℕ → SockAddr → ℕ → Connection
new_connection handle addr timestamp = record {
  handle = handle;
  addr = addr;
  last_rcvd = timestamp;
  recv_idx = 0;
  recv_log = replicate recv_ack_int 0;
  stats = initial_stats;
  recovery_start = 0;
  connection_start = timestamp;
}

unfoldable pub conn_timed_out : Connection → ℕ → Bool
conn_timed_out c ts = ltb (c.last_rcvd + conn_timeout) ts

abbrev pub add64 : ℕ → ℕ → ℕ
add64 a b = (a + b) % 2 ^ 64

abbrev pub sub64 : ℕ → ℕ → ℕ
sub64 a b = (a + 2 ^ 64 - b) % 2 ^ 64

abbrev pub sub32 : ℕ → ℕ → ℕ
sub32 a b = (a + 2 ^ 32 - b) % 2 ^ 32

-- MetricsCollector.
unfoldable pub on_packet_received : ConnectionStats → ℕ → ConnectionStats
on_packet_received s bytes = record s {
  bytes_received = add64 s.bytes_received bytes;
  packets_received = add64 s.packets_received 1;
}

unfoldable pub on_nak_detected : ConnectionStats → ℕ → ConnectionStats
on_nak_detected s nak_count = record s {
  packets_lost = (s.packets_lost + nak_count) % 2 ^ 32;
  nack_count = (s.nack_count + nak_count) % 2 ^ 16;
}

unfoldable pub reset_period : ConnectionStats → ℕ → ConnectionStats
reset_period s current_ms = record s {
  last_bytes_received = s.bytes_received;
  last_packets_received = s.packets_received;
  last_packets_lost = s.packets_lost;
  last_eval_time = current_ms;
}

unfoldable pub bytes_in_period : ConnectionStats → ℕ
bytes_in_period s = sub64 s.bytes_received s.last_bytes_received

unfoldable pub packets_in_period : ConnectionStats → ℕ
packets_in_period s = sub64 s.packets_received s.last_packets_received

unfoldable pub naks_in_period : ConnectionStats → ℕ
naks_in_period s = sub32 s.packets_lost s.last_packets_lost
