-- ===== src/Exporter/Scrape.antt =====
-- A scrape as a client of the exporter reads it: the lines of the text exposition format.
use mathlib.Core.List.{append_assoc}
use srtla.Base.{
  ℕ, ◌≡◌, ◌≢◌, refl, sym, ◌∙◌, ap, false, Option, none, List, [], ◌∷◌, ◌++◌, ◌==◌, if◌then◌else◌,
  any, ℤ, arith,
}
use srtla.Base.Assoc.{bytes_beq}
use srtla.Exporter.{header, sample}
use srtla.Text.{Text, codes, has, number, lines, split_at}
use srtla.Text.Decimal.{has-append}
use srtla.Text.Lines.{lines_line, split_at-append}

-- A line with the help of a metric, one with its type, or one with the value of a series.
pub data Line : Type 0 where
  help : Text → Text → Line
  kind : Text → Text → Line
  metric : Text → Option ℤ → Line

-- The word behind the `#` tells them apart.
abbrev comment : Text × Text → Line
comment (word, rest) =
    let (name, text) = split_at b' ' rest in
    if bytes_beq word (codes "HELP") then help name text else kind name text

unfoldable pub read_line : Text → Line
unfolding split_at number
read_line [] = metric [] none
read_line (c ∷ l) =
    if c == b'#'
    then comment (split_at b' ' (split_at b' ' l).1)
    else (let (series, v) = split_at b' ' (c ∷ l) in metric series (number v))

abbrev pub read_each : List Text → List Line
read_each [] = []
read_each (l ∷ ls) = read_line l ∷ read_each ls

unfoldable pub read_lines : Text → List Line
unfolding lines read_line
read_lines text = read_each (lines text)

-- A word of a line, and a line.
abbrev pub IsWord : Text → Type 0
IsWord s = (has b' ' s ≡ false) × (has b'\n' s ≡ false)

read_lines_line :
    (l rest : Text)
    → has b'\n' l ≡ false
    → read_lines (l ++ (b'\n' ∷ rest)) ≡ read_line l ∷ read_lines rest
unfolding read_lines
read_lines_line l rest h = ap read_each (lines_line l rest h)

read_help :
    (name text : Text)
    → has b' ' name ≡ false
    → read_line (codes "# HELP " ++ (name ++ (b' ' ∷ text))) ≡ help name text
unfolding read_line split_at
read_help name text h = ap (λ (p : Text × Text). help p.0 p.1) (split_at-append b' ' name text h)

read_kind :
    (name text : Text)
    → has b' ' name ≡ false
    → read_line (codes "# TYPE " ++ (name ++ (b' ' ∷ text))) ≡ kind name text
unfolding read_line split_at
read_kind name text h = ap (λ (p : Text × Text). kind p.0 p.1) (split_at-append b' ' name text h)

read_metric :
    (c : ℕ) (series v : Text)
    → c ≢ b'#'
    → has b' ' (c ∷ series) ≡ false
    → read_line ((c ∷ series) ++ (b' ' ∷ v)) ≡ metric (c ∷ series) (number v)
unfolding read_line
read_metric c series v ne h =
    let other : (c == b'#') ≡ false = ground arith in
    rw other
      (ap (λ (p : Text × Text). metric p.0 (number p.1)) (split_at-append b' ' (c ∷ series) v h))

-- A series begins with a byte that is not `#`.
abbrev pub IsSeries : Text → Type 0
IsSeries [] = ⊥
IsSeries (c ∷ s) = (c ≢ b'#') × IsWord (c ∷ s)

pub has_joined : (b : ℕ) (s t : Text) → has b s ≡ false → has b t ≡ false → has b (s ++ t) ≡ false
has_joined b s t h k = has-append b s t ∙ rw (h, k) refl

pub read_lines-sample :
    (series v rest : Text)
    → IsSeries series
    → has b'\n' v ≡ false
    → read_lines (sample series v rest) ≡ metric series (number v) ∷ read_lines rest
unfolding sample
read_lines-sample [] v rest h n = absurd h
read_lines-sample (c ∷ s) v rest h n =
    let joined : has b'\n' ((c ∷ s) ++ (b' ' ∷ v)) ≡ false =
      has_joined b'\n' (c ∷ s) (b' ' ∷ v) h.1.1 (unfold has any in ground (arith, n)) in
    ap read_lines (sym (append_assoc (c ∷ s) (b' ' ∷ v) (b'\n' ∷ rest)))
    ∙ read_lines_line ((c ∷ s) ++ (b' ' ∷ v)) rest joined
    ∙ ap (λ l. l ∷ read_lines rest) (read_metric c s v h.0 h.1.0)

comment_line :
    (word name text rest : Text)
    → has b'\n' word ≡ false
    → has b'\n' name ≡ false
    → has b'\n' text ≡ false
    → read_lines (word ++ (name ++ (b' ' ∷ (text ++ (b'\n' ∷ rest)))))
      ≡ read_line (word ++ (name ++ (b' ' ∷ text))) ∷ read_lines rest
comment_line word name text rest w n t =
    let inner = has_joined b'\n' name (b' ' ∷ text) n (unfold has any in ground (arith, t)) in
    ap read_lines (simp append_assoc)
    ∙ read_lines_line (word ++ (name ++ (b' ' ∷ text))) rest
        (has_joined b'\n' word (name ++ (b' ' ∷ text)) w inner)

pub read_lines-header :
    (name text k rest : Text)
    → IsWord name
    → has b'\n' text ≡ false
    → has b'\n' k ≡ false
    → read_lines (header name text k rest) ≡ help name text ∷ kind name k ∷ read_lines rest
unfolding header
read_lines-header name text k rest w t n =
    let fixed : has b'\n' (codes "# HELP ") ≡ false = unfold has any in refl in
    let fixed' : has b'\n' (codes "# TYPE ") ≡ false = unfold has any in refl in
    comment_line (codes "# HELP ") name text
      (codes "# TYPE " ++ (name ++ (b' ' ∷ (k ++ (b'\n' ∷ rest))))) fixed w.1 t
    ∙ ap (λ l. l ∷ read_lines (codes "# TYPE " ++ (name ++ (b' ' ∷ (k ++ (b'\n' ∷ rest))))))
        (read_help name text w.0)
    ∙ ap (λ ls. help name text ∷ ls)
        (comment_line (codes "# TYPE ") name k rest fixed' w.1 n
          ∙ ap (λ l. l ∷ read_lines rest) (read_kind name k w.0))
