-- ===== src/Quality/Points.antt =====
-- How many error points src/quality/quality_evaluator.cpp gives, and what an evaluation resets.
use srtla.Base.{ℕ, ◌^◌, ◌≤◌, ◌<◌, ◌≡◌, refl, false, if◌then◌else◌, arith, Bool-cases, inl, inr}
use srtla.Float.{Float}
use srtla.Connection.{
  ConnectionStats, has_valid_sender_telemetry, bytes_in_period, packets_in_period, naks_in_period,
  reset_period,
}
use srtla.Quality.{
  QualityMetrics, light_bandwidth_points, bandwidth_points, loss_points, calculate_rtt_error_points,
  calculate_nak_error_points, calculate_window_error_points, evaluate_connection_legacy,
  legacy_weight,
}
use srtla.Quality.Evaluate.{evaluate_stats, telemetry_points, performance_ratio}

module _ (fl : Float) where
  open fl use {F}

  receiver-le :
      (r : F)
      → (light_bandwidth_points fl r ≤ 10) × (bandwidth_points fl r ≤ 40) × (loss_points fl r ≤ 40)
  unfolding light_bandwidth_points bandwidth_points loss_points
  receiver-le r = (ground arith, ground arith, ground arith)

  rtt-le : (s : ConnectionStats) (now : ℕ) → calculate_rtt_error_points fl s now ≤ 30
  unfolding calculate_rtt_error_points
  rtt-le s now = ground arith

  nak-le : (s : ConnectionStats) (n : ℕ) → (calculate_nak_error_points fl s n).0 ≤ 40
  unfolding calculate_nak_error_points
  nak-le s n = ground arith

  window-le : (s : ConnectionStats) → calculate_window_error_points fl s ≤ 15
  unfolding calculate_window_error_points
  window-le s = ground arith

  record Kept (s t : ConnectionStats) : Type 0 where
    bytes : t.bytes_received ≡ s.bytes_received
    packets : t.packets_received ≡ s.packets_received
    lost : t.packets_lost ≡ s.packets_lost
    weight : t.weight_percent ≡ s.weight_percent

  calculate_nak-Kept : (s : ConnectionStats) (n : ℕ) → Kept s (calculate_nak_error_points fl s n).1
  unfolding calculate_nak_error_points
  calculate_nak-Kept s n = ground arith

  telemetry-le : (s : ConnectionStats) (n now : ℕ) → (telemetry_points fl s n now).0 ≤ 85
  unfolding telemetry_points
  telemetry-le s n now =
      ground (arith, rtt-le s now, nak-le s n, window-le (calculate_nak_error_points fl s n).1)

  telemetry-none :
      (s : ConnectionStats) (n now : ℕ)
      → has_valid_sender_telemetry s now ≡ false
      → (telemetry_points fl s n now).0 ≡ 0
  unfolding telemetry_points
  telemetry-none s n now h = rw h

  telemetry-Kept : (s : ConnectionStats) (n now : ℕ) → Kept s (telemetry_points fl s n now).1
  unfolding telemetry_points
  telemetry-Kept s n now = elim (Bool-cases (has_valid_sender_telemetry s now)) [
    | inl h ↦ rw h (calculate_nak-Kept s n)
    | inr h ↦ rw h (record { bytes = refl; packets = refl; lost = refl; weight = refl })
  ]

  -- An evaluation gives 165 error points at most; without valid telemetry 50 where the sender has
  -- extended keepalives, and 80 where it has not. The legacy weight follows from the legacy points,
  -- and the weight is left to the load balancer.
  pub evaluate_stats-points :
      (now current_ms : ℕ) (median min_expected : F) (m : QualityMetrics F) (s : ConnectionStats)
      → let t = evaluate_stats fl now current_ms median min_expected m s in
        (t.error_points ≤ (
          if has_valid_sender_telemetry s now
          then 165
          else if s.sender_supports_extended_keepalives
          then 50
          else 80))
        × (t.legacy_weight_percent ≡ legacy_weight t.legacy_error_points)
        × (t.weight_percent ≡ s.weight_percent)
  unfolding evaluate_stats evaluate_connection_legacy reset_period
  evaluate_stats-points now current_ms median min_expected m s =
      let loss = (receiver-le m.packet_loss_ratio).2 in
      let ratio = performance_ratio fl m.bandwidth_kbits_per_sec median min_expected in
      let le = receiver-le ratio in
      let t = telemetry-le s m.packets_diff now in
      let n = telemetry-none s m.packets_diff now in
      let k = telemetry-Kept s m.packets_diff now in
      (ground (arith, loss, le, t, n), refl, k.weight)

  -- For a sender that has never sent an extended keepalive, and without valid telemetry, the two
  -- algorithms give the same points.
  evaluate_stats-legacy :
      (now current_ms : ℕ) (median min_expected : F) (m : QualityMetrics F) (s : ConnectionStats)
      → has_valid_sender_telemetry s now ≡ false
      → s.sender_supports_extended_keepalives ≡ false
      → let t = evaluate_stats fl now current_ms median min_expected m s in
        t.error_points ≡ t.legacy_error_points
  unfolding evaluate_stats evaluate_connection_legacy reset_period
  evaluate_stats-legacy now current_ms median min_expected m s h e =
      let n = telemetry-none s m.packets_diff now h in ground (arith, n)

  -- After an evaluation, the totals being in their range, no byte, packet or loss is counted a second time: the period counters are
  -- zero, and so is the count of NAKs.
  pub evaluate_stats-period :
      (now current_ms : ℕ) (median min_expected : F) (m : QualityMetrics F) (s : ConnectionStats)
      → s.bytes_received < 2 ^ 64
      → s.packets_received < 2 ^ 64
      → s.packets_lost < 2 ^ 32
      → let t = evaluate_stats fl now current_ms median min_expected m s in
        (bytes_in_period t ≡ 0)
        × (packets_in_period t ≡ 0)
        × (naks_in_period t ≡ 0)
        × (t.nack_count ≡ 0)
        × (t.last_eval_time ≡ current_ms)
  unfolding evaluate_stats evaluate_connection_legacy reset_period bytes_in_period packets_in_period
      naks_in_period
  evaluate_stats-period now current_ms median min_expected m s b p l =
      let k = telemetry-Kept s m.packets_diff now in
      (omega (arith, k.bytes), omega (arith, k.packets), omega (arith, k.lost), refl, refl)
