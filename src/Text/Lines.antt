-- ===== src/Text/Lines.antt =====
-- Lines and words of a text are found again.
use srtla.Base.{ℕ, ◌≡◌, refl, false, [], ◌∷◌, ◌++◌, any, arith}
use srtla.Text.{Text, has, lines, split_at}

pub lines_line :
    (l rest : Text) → has b'\n' l ≡ false → lines (l ++ (b'\n' ∷ rest)) ≡ l ∷ lines rest
unfolding lines has any
lines_line [] rest h = refl
lines_line (c ∷ l) rest h = ground (arith, lines_line l rest)

pub split_at-append :
    (b : ℕ) (l rest : Text) → has b l ≡ false → split_at b (l ++ (b ∷ rest)) ≡ (l, rest)
unfolding split_at has any
split_at-append b [] rest h = ground arith
split_at-append b (c ∷ l) rest h = ground (arith, split_at-append b l rest)
