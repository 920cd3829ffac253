-- ===== src/LoadBalancer.antt =====
-- src/quality/load_balancer.cpp. The largest weight and the count of active connections, which are
-- only logged, are left out.
pub mod Weights
use srtla.Base.{
  ℕ, ◌+◌, Bool, true, false, not, ◌&&◌, ◌||◌, List, map, ltb, leb, ◌==◌, if◌then◌else◌,
}
use srtla.Connection.{Connection}
use srtla.Group.{Group}
use srtla.Quality.{conn_quality_eval_period}
use srtla.Quality.Evaluate.{is_empty}

-- The weight for a number of error points.
unfoldable pub weight_for : ℕ → ℕ
weight_for points =
    if leb 40 points
    then 10
    else if leb 25 points
    then 40
    else if leb 15 points
    then 55
    else if leb 10 points
    then 70
    else if leb 5 points
    then 85
    else 100

unfoldable pub adjust_weight : Connection → Connection
unfolding weight_for
adjust_weight c =
    let new_weight = weight_for c.stats.error_points in
    if not (new_weight == c.stats.weight_percent)
    then record c { stats = record (c.stats) { weight_percent = new_weight } }
    else c

-- The early returns: without connections, or too soon.
unfoldable pub skips : Group → ℕ → Bool
skips g now =
    is_empty g.conns
    || (if g.load_balancing_enabled
        then leb g.last_quality_eval g.last_load_balance_eval
        else not (g.last_load_balance_eval == 0)
          && ltb now (g.last_load_balance_eval + conn_quality_eval_period))

unfoldable pub adjust_weights : Group → ℕ → Group
adjust_weights g now =
    if skips g now
    then g
    else record g { conns = map adjust_weight g.conns; last_load_balance_eval = now }
