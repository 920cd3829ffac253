-- ===== src/Tests/Measures.antt =====
-- The evaluation, the weights and the period counters on concrete inputs.
use srtla.Base.{ℕ, ◌≤◌, ◌<◌, ◌≡◌, ◌↔◌, ◌⊎◌, if◌then◌else◌}
use srtla.Connection.{ConnectionStats, initial_stats, has_valid_sender_telemetry}
use srtla.Float.{thousandths}
use srtla.LoadBalancer.{weight_for}
use srtla.LoadBalancer.Weights.{legacy_weight_lem}
use srtla.Quality.{QualityMetrics, legacy_weight}
use srtla.Quality.Evaluate.{evaluate_stats}
use srtla.Quality.Points.{evaluate_stats-points}

abbrev lossy : QualityMetrics ℕ
lossy = record { bandwidth_kbits_per_sec = 800000; packet_loss_ratio = 150; packets_diff = 40 }

abbrev busy : ConnectionStats
busy = record initial_stats { bytes_received = 70000; packets_received = 50; packets_lost = 4 }

abbrev evaluated : ConnectionStats
evaluated = evaluate_stats thousandths 100 100000 900000 1000000 lossy busy

evaluate_stats-points_example :
    (evaluated.error_points ≤ (
      if has_valid_sender_telemetry busy 100
      then 165
      else if busy.sender_supports_extended_keepalives
      then 50
      else 80))
    × (evaluated.legacy_weight_percent ≡ legacy_weight evaluated.legacy_error_points)
    × (evaluated.weight_percent ≡ busy.weight_percent)
evaluate_stats-points_example =
    evaluate_stats-points thousandths 100 100000 900000 1000000 lossy busy

legacy_weight_lem_example :
    (weight_for 17 ≤ legacy_weight 17)
    × ((weight_for 17 < legacy_weight 17) ↔ ((15 ≤ 17) × (17 < 20) ⊎ (25 ≤ 17) × (17 < 30)))
legacy_weight_lem_example = legacy_weight_lem 17
