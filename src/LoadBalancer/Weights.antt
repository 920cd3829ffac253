-- ===== src/LoadBalancer/Weights.antt =====
-- The weights that adjust_weights of src/quality/load_balancer.cpp assigns.
use srtla.Base.{
  ℕ, ◌≤◌, ◌<◌, ◌≡◌, ◌⊎◌, ◌↔◌, inl, inr, refl, false, List, [], ◌∷◌, map, arith, Bool-cases,
}
use srtla.Connection.{Connection}
use srtla.Group.{Group}
use srtla.Quality.{legacy_weight}
use srtla.LoadBalancer.{weight_for, adjust_weight, skips, adjust_weights}

-- More error points never give more weight, and a weight is from 10 to 100.
weight_for_antitone :
    (p q : ℕ) → p ≤ q → (weight_for q ≤ weight_for p) × (10 ≤ weight_for q) × (weight_for p ≤ 100)
unfolding weight_for
weight_for_antitone p q h = ground arith

-- The legacy weight for the same points is never lower, and it is higher exactly from 15 to 19 and
-- from 25 to 29 points, where the two tables of thresholds differ.
pub legacy_weight_lem :
    (p : ℕ)
    → (weight_for p ≤ legacy_weight p)
      × ((weight_for p < legacy_weight p) ↔ ((15 ≤ p) × (p < 20) ⊎ (25 ≤ p) × (p < 30)))
unfolding weight_for legacy_weight
legacy_weight_lem p = (ground arith, ((λ h. ground arith), (λ h. ground arith)))

abbrev Weighted : List Connection → Type 0
Weighted [] = Unit {0}
Weighted (c ∷ cs) = (c.stats.weight_percent ≡ weight_for c.stats.error_points) × Weighted cs

map-Weighted : (cs : List Connection) → Weighted (map adjust_weight cs)
unfolding adjust_weight
map-Weighted [] = tt
map-Weighted (c ∷ cs) = (ground arith, map-Weighted cs)

adjust_weight_twice : (c : Connection) → adjust_weight (adjust_weight c) ≡ adjust_weight c
unfolding adjust_weight
adjust_weight_twice c = ground arith

map_twice : (cs : List Connection) → map adjust_weight (map adjust_weight cs) ≡ map adjust_weight cs
map_twice [] = refl
map_twice (c ∷ cs) = rw (adjust_weight_twice c, map_twice cs)

-- Where adjust_weights does not return early, every connection ends with the weight for its error
-- points, and a second call at once changes nothing more.
adjust_weights_lem :
    (g : Group) (now : ℕ)
    → skips g now ≡ false
    → Weighted (adjust_weights g now).conns
      × (adjust_weights (adjust_weights g now) now ≡ adjust_weights g now)
unfolding adjust_weights
adjust_weights_lem g now h = rw h (
  map-Weighted g.conns,
  elim (Bool-cases (skips (adjusted) now)) [ inl s ↦ rw s | inr s ↦ rw (s, map_twice g.conns) ],
)
  where
    adjusted : Group
    adjusted = record g { conns = map adjust_weight g.conns; last_load_balance_eval = now }
