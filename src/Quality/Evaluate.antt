-- ===== src/Quality/Evaluate.antt =====
-- QualityEvaluator::evaluate_group of src/quality/quality_evaluator.cpp: the medians and the second
-- loop.
use srtla.Base.{
  ℕ, ◌+◌, ◌-◌, ◌/◌, ◌%◌, Bool, true, false, not, ◌||◌, Option, none, some, List, [], ◌∷◌, map, ltb,
  ◌==◌, if◌then◌else◌, get_or, length,
}
use srtla.Float.{Float}
use srtla.Connection.{Connection, ConnectionStats, has_valid_sender_telemetry, add64, reset_period}
use srtla.Group.{Group}
use srtla.Quality.{
  QualityMetrics, measure, light_bandwidth_points, bandwidth_points, loss_points,
  calculate_rtt_error_points, calculate_nak_error_points, calculate_window_error_points,
  evaluate_connection_legacy, conn_quality_eval_period, connection_grace_period, fmax,
}

abbrev pub is_empty {ℓ} : {A : Type ℓ} → List A → Bool
is_empty [] = true
is_empty (x ∷ xs) = false

module _ (fl : Float) where
  open fl use {F, of_nat, lit, add, sub, mul, div, abs, lt, le}

  -- std::sort
  insert_sorted : F → List F → List F
  insert_sorted a [] = a ∷ []
  insert_sorted a (b ∷ bs) = if lt b a then b ∷ insert_sorted a bs else a ∷ b ∷ bs

  sort : List F → List F
  unfolding insert_sorted
  sort [] = []
  sort (a ∷ bs) = insert_sorted a (sort bs)

  -- Whether it logs a warning; it does nothing else.
  unfoldable pub validate_bitrate : ConnectionStats → F → Bool
  validate_bitrate s receiver_bitrate_bps =
      let sender = of_nat s.sender_bitrate_bps in
      let ratio = div (abs (sub receiver_bitrate_bps sender)) sender in
      if s.sender_bitrate_bps == 0 then false else lt (lit 20 2) ratio

  compute_median : List F → F
  unfolding sort
  compute_median values =
      let sorted = sort values in
      let mid = length values / 2 in
      if length values % 2 == 0
      then div (add (get_or sorted (mid - 1) (of_nat 0)) (get_or sorted mid (of_nat 0))) (of_nat 2)
      else get_or sorted mid (of_nat 0)

  max_of : F → List F → F
  max_of m [] = m
  max_of m (b ∷ bs) = max_of (fmax fl m b) bs

  at_least : F → List F → List F
  at_least threshold [] = []
  at_least threshold (b ∷ bs) =
      if le threshold b then b ∷ at_least threshold bs else at_least threshold bs

  unfoldable pub median_kbits : List F → F
  unfolding compute_median max_of at_least
  median_kbits bandwidths =
      let most = max_of (of_nat 0) bandwidths in
      let good = at_least (mul most (lit 5 1)) bandwidths in
      if is_empty bandwidths || not (lt (of_nat 0) most)
      then of_nat 0
      else if is_empty good
      then compute_median bandwidths
      else compute_median good

  unfoldable pub min_expected_kbits : ℕ → F
  min_expected_kbits count = fmax fl (of_nat 100) (div (of_nat 1000) (of_nat count))

  abbrev pub performance_ratio : F → F → F → F
  performance_ratio bandwidth median min_expected =
      let is_poor = lt bandwidth (mul median (lit 5 1)) in
      let expected = fmax fl (if is_poor then min_expected else median) min_expected in
      if lt (of_nat 0) expected then div bandwidth expected else of_nat 0

  -- Points from the sender's telemetry, and the stats with last_sender_nak_count brought up to date.
  unfoldable pub telemetry_points : ConnectionStats → ℕ → ℕ → ℕ × ConnectionStats
  telemetry_points s packets_diff now =
      if has_valid_sender_telemetry s now
      then (let (nak, s') = calculate_nak_error_points fl s packets_diff in
          (calculate_rtt_error_points fl s now + nak + calculate_window_error_points fl s', s'))
      else (0, s)

  -- The second loop's body.
  unfoldable pub evaluate_stats :
      ℕ → ℕ → F → F → QualityMetrics F → ConnectionStats → ConnectionStats
  unfolding telemetry_points
  evaluate_stats now current_ms median min_expected m s =
      let ratio = performance_ratio m.bandwidth_kbits_per_sec median min_expected in
      let receiver_points =
        (if s.sender_supports_extended_keepalives
          then light_bandwidth_points fl ratio
          else bandwidth_points fl ratio)
        + loss_points fl m.packet_loss_ratio in
      let (telemetry, s') = telemetry_points s m.packets_diff now in
      let s'' = record (reset_period s' current_ms) {
        error_points = receiver_points + telemetry;
        nack_count = 0;
      } in
      evaluate_connection_legacy fl s'' m.packet_loss_ratio ratio

  unfoldable pub evaluate_connection : ℕ → ℕ → F → F → QualityMetrics F → Connection → Connection
  unfolding evaluate_stats
  evaluate_connection now current_ms median min_expected m c =
      if ltb (now - c.connection_start) connection_grace_period
      then c
      else record c { stats = evaluate_stats now current_ms median min_expected m c.stats }

  -- The measures of the first loop, connection by connection, and the group's total bandwidth.
  unfoldable pub measure_all : ℕ → List Connection → ℕ → List (QualityMetrics F) × ℕ
  measure_all current_ms [] total = ([], total)
  measure_all current_ms (c ∷ cs) total =
      let (m, bytes) = measure fl current_ms c.stats in
      let (ms, total') = measure_all current_ms cs (add64 total bytes) in (m ∷ ms, total')

  unfoldable pub evaluate_all :
      ℕ → ℕ → F → F → List (QualityMetrics F) → List Connection → List Connection
  evaluate_all now current_ms median min_expected [] cs = cs
  evaluate_all now current_ms median min_expected (m ∷ ms) [] = []
  evaluate_all now current_ms median min_expected (m ∷ ms) (c ∷ cs) =
      evaluate_connection now current_ms median min_expected m c
      ∷ evaluate_all now current_ms median min_expected ms cs

  -- `clock` is what get_ms gives, `none` if it fails.
  unfoldable pub evaluate_group : Group → ℕ → Option ℕ → Group
  unfolding measure_all evaluate_all
  evaluate_group g now clock =
      if is_empty g.conns || not g.load_balancing_enabled
      then g
      else if ltb now (g.last_quality_eval + conn_quality_eval_period)
      then g
      else elim clock [
        | none ↦ record g { total_target_bandwidth = 0 }
        | some current_ms ↦
            let (ms, total) = measure_all current_ms g.conns 0 in
            let median = median_kbits (map (λ m. m.bandwidth_kbits_per_sec) ms) in
            record g {
              total_target_bandwidth = total;
              conns =
                  evaluate_all now current_ms median (min_expected_kbits (length ms)) ms g.conns;
              last_quality_eval = now;
            }
      ]
