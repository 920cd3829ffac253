-- ===== src/Quality.antt =====
-- src/quality/quality_evaluator.h and quality_evaluator.cpp, over any floating-point numbers.
-- Error points stay far below 2^32, so their sums are written without the wrap.
pub mod Evaluate
pub mod Points
use srtla.Base.{
  ℕ, zero, suc, ◌+◌, ◌-◌, ◌/◌, ◌%◌, ◌^◌, Bool, true, false, not, ◌&&◌, ◌||◌, Option, none, some,
  List, [], ◌∷◌, ltb, leb, ◌==◌, if◌then◌else◌, ℤ, pos, ltb_ℤ, get_or, length,
}
use srtla.Float.{Float}
use srtla.Connection.{
  Connection, ConnectionStats, has_valid_sender_telemetry, keepalive_staleness_threshold, sub64,
  sub32, add64, bytes_in_period, packets_in_period, naks_in_period, reset_period,
}
use srtla.Group.{Group}

abbrev pub conn_quality_eval_period : ℕ
conn_quality_eval_period = 5

abbrev pub connection_grace_period : ℕ
connection_grace_period = 10

pub record QualityMetrics (F : Type 0) : Type 0 where
  pub bandwidth_kbits_per_sec : F
  pub packet_loss_ratio : F
  pub packets_diff : ℕ

-- The weight for a number of error points, in evaluate_connection_legacy.
unfoldable pub legacy_weight : ℕ → ℕ
legacy_weight points =
    if leb 40 points
    then 10
    else if leb 30 points
    then 40
    else if leb 20 points
    then 55
    else if leb 10 points
    then 70
    else if leb 5 points
    then 85
    else 100

module _ (fl : Float) where
  open fl use {F, of_nat, of_int, lit, add, sub, mul, div, sqrt, lt, trunc}

  -- std::max
  abbrev pub fmax : F → F → F
  fmax a b = if lt a b then b else a

  -- Penalties by bandwidth, for senders with extended keepalives and for legacy ones.
  unfoldable pub light_bandwidth_points : F → ℕ
  light_bandwidth_points ratio =
      if lt ratio (lit 3 1)
      then 10
      else if lt ratio (lit 5 1)
      then 7
      else if lt ratio (lit 7 1)
      then 4
      else if lt ratio (lit 85 2)
      then 2
      else 0

  unfoldable pub bandwidth_points : F → ℕ
  bandwidth_points ratio =
      if lt ratio (lit 3 1)
      then 40
      else if lt ratio (lit 5 1)
      then 25
      else if lt ratio (lit 7 1)
      then 15
      else if lt ratio (lit 85 2)
      then 5
      else 0

  unfoldable pub loss_points : F → ℕ
  loss_points ratio =
      if lt (lit 20 2) ratio
      then 40
      else if lt (lit 10 2) ratio
      then 20
      else if lt (lit 5 2) ratio
      then 10
      else if lt (lit 1 2) ratio
      then 5
      else 0

  count_samples : List ℕ → ℕ
  count_samples [] = 0
  count_samples (r ∷ rs) = (if ltb 0 r then 1 else 0) + count_samples rs

  sum_samples : List ℕ → F → F
  sum_samples [] sum = sum
  sum_samples (r ∷ rs) sum = sum_samples rs (if ltb 0 r then add sum (of_nat r) else sum)

  sum_squares : List ℕ → F → F → F
  sum_squares [] mean sum = sum
  sum_squares (r ∷ rs) mean sum =
      sum_squares rs mean
        (if ltb 0 r then add sum (mul (sub (of_nat r) mean) (sub (of_nat r) mean)) else sum)

  unfoldable pub calculate_rtt_variance : ConnectionStats → F
  unfolding count_samples sum_samples sum_squares
  calculate_rtt_variance s =
      let count = count_samples s.rtt_history in
      let mean = div (sum_samples s.rtt_history (of_nat 0)) (of_nat count) in
      if ltb count 2
      then of_nat 0
      else sqrt (div (sum_squares s.rtt_history mean (of_nat 0)) (of_nat count))

  unfoldable pub rtt_base_points : ℕ → ℕ
  rtt_base_points rtt_ms =
      if ltb 500 rtt_ms then 20 else if ltb 200 rtt_ms then 10 else if ltb 100 rtt_ms then 5 else 0

  unfoldable pub calculate_rtt_error_points : ConnectionStats → ℕ → ℕ
  unfolding rtt_base_points
  calculate_rtt_error_points s now =
      if s.last_keepalive == 0 || ltb keepalive_staleness_threshold (now - s.last_keepalive)
      then 0
      else rtt_base_points s.rtt_ms + (if lt (of_nat 50) (calculate_rtt_variance s) then 10 else 0)

  unfoldable pub nak_points : F → ℕ
  nak_points rate =
      if lt (lit 20 2) rate
      then 40
      else if lt (lit 10 2) rate
      then 20
      else if lt (lit 5 2) rate
      then 10
      else if lt (lit 1 2) rate
      then 5
      else 0

  -- The points, and the stats with last_sender_nak_count brought up to date.
  unfoldable pub calculate_nak_error_points : ConnectionStats → ℕ → ℕ × ConnectionStats
  unfolding nak_points
  calculate_nak_error_points s packets_diff =
      if packets_diff == 0 || s.sender_nak_count == 0 then (0, s) else (
        nak_points
            (div (of_nat (sub32 s.sender_nak_count s.last_sender_nak_count)) (of_nat packets_diff)),
        record s { last_sender_nak_count = s.sender_nak_count },
      )

  unfoldable pub calculate_window_error_points : ConnectionStats → ℕ
  calculate_window_error_points s =
      if not (ltb_ℤ (pos 0) s.window)
      then 0
      else if lt (lit 95 2) (div (of_int s.in_flight) (of_int s.window))
      then 15
      else 0

  unfoldable pub evaluate_connection_legacy : ConnectionStats → F → F → ConnectionStats
  evaluate_connection_legacy s packet_loss_ratio performance_ratio =
      let points = bandwidth_points performance_ratio + loss_points packet_loss_ratio in
      record s { legacy_error_points = points; legacy_weight_percent = legacy_weight points }

  -- The first loop: what came in on a connection since its last evaluation, and the bytes per
  -- second that are added to the group's total.
  unfoldable pub measure : ℕ → ConnectionStats → QualityMetrics F × ℕ
  measure current_ms s =
      let time_diff_ms =
        (if ltb 0 s.last_eval_time then sub64 current_ms s.last_eval_time else 0) in
      let packets_diff = packets_in_period s in
      let lost_diff = naks_in_period s in
      let bandwidth_bytes_per_sec =
        div (of_nat (bytes_in_period s)) (div (of_nat time_diff_ms) (of_nat 1000)) in
      if not (ltb 0 time_diff_ms)
      then (
        record {
          bandwidth_kbits_per_sec = of_nat 0;
          packet_loss_ratio = of_nat 0;
          packets_diff = 0;
        },
        0,
      )
      else (
        record {
          bandwidth_kbits_per_sec = div (mul bandwidth_bytes_per_sec (of_nat 8)) (of_nat 1000);
          packet_loss_ratio =
              if ltb 0 packets_diff
              then div (of_nat lost_diff) (of_nat (add64 packets_diff lost_diff))
              else of_nat 0;
          packets_diff = packets_diff;
        },
        trunc bandwidth_bytes_per_sec,
      )
