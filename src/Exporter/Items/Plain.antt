-- ===== src/Exporter/Items/Plain.antt =====
-- The counters and gauges of Exporter::render of src/metrics/prometheus.cpp, read back.
use srtla.Base.{
  ℕ, ◌<◌, ◌^◌, ◌≡◌, refl, ◌∙◌, ap, Bool, true, false, not, ◌&&◌, some, List, [], ◌∷◌, ◌++◌, ◌==◌,
  any, ℤ, pos, length, arith, Bool-cases, inl, inr,
}
use srtla.Base.Assoc.{bytes_beq}
use srtla.AuthLimiter.{blocked_count}
use srtla.Exporter.{
  Exporter, Platform, sample, append_gauge, render_counters, established, connections, build_series,
  render_gauges,
}
use srtla.Exporter.Scrape.{
  metric, read_lines, IsWord, IsSeries, has_joined, read_lines-sample, read_lines-header,
}
use srtla.Exporter.Table.{Def, k_defs}
use srtla.Metrics.{value}
use srtla.Receiver.{Receiver}
use srtla.Text.{Text, codes, has, to_string, to_string_ℤ, number, is_digit}
use srtla.Text.Decimal.{IsLong, number-to_string_ℤ, has-to_string, has-to_string_ℤ}
use srtla.Exporter.Items.{introduce, counter_items, gauge_item, IsPlain, gauge_items, Countable}

abbrev pub is_plain : Text → Bool
is_plain s = not (has b' ' s) && not (has b'\n' s)

abbrev pub is_series : Text → Bool
is_series [] = false
is_series (c ∷ s) = not (c == b'#') && is_plain (c ∷ s)

pub is_series-IsSeries : (s : Text) → is_series s ≡ true → IsSeries s
is_series-IsSeries [] h = absurd (cc h)
is_series-IsSeries (c ∷ s) h = ground arith

pub IsSeries-IsWord : (s : Text) → IsSeries s → IsWord s
IsSeries-IsWord [] h = absurd h
IsSeries-IsWord (c ∷ s) h = h.1

pub IsWord-append : (s t : Text) → IsWord s → IsWord t → IsWord (s ++ t)
IsWord-append s t h k = (has_joined b' ' s t h.0 k.0, has_joined b'\n' s t h.1 k.1)

pub IsSeries-append : (s t : Text) → IsSeries s → IsWord t → IsSeries (s ++ t)
IsSeries-append [] t h k = absurd h
IsSeries-append (c ∷ s) t h k = (h.0, IsWord-append (c ∷ s) t h.1 k)

-- A counter's number as a signed one.
pub read_counter : (n : ℕ) → n < 2 ^ 64 → number (to_string n) ≡ some (pos n)
read_counter n h = unfold to_string_ℤ in number-to_string_ℤ (pos n) h

pub no_newline : (n : ℕ) → has b'\n' (to_string n) ≡ false
no_newline n = has-to_string b'\n' n (unfold is_digit in refl)

pub no_newline_ℤ : (z : ℤ) → has b'\n' (to_string_ℤ z) ≡ false
no_newline_ℤ z = has-to_string_ℤ b'\n' z (unfold is_digit in refl) (λ e. absurd (omega (arith, e)))

abbrev plain_defs : List Def → Bool
plain_defs [] = true
plain_defs (d ∷ ds) =
    is_plain d.name && not (has b'\n' d.help) && is_series (d.name ++ d.labels) && plain_defs ds

pub plain_table : plain_defs k_defs ≡ true
unfolding k_defs has any
plain_table = refl

pub read-counters :
    (values : List ℕ) (prev : Text) (ds : List Def) (rest : Text)
    → plain_defs ds ≡ true
    → ((i : ℕ) → value values i < 2 ^ 64)
    → read_lines (render_counters values prev ds rest)
      ≡ counter_items values prev ds (read_lines rest)
unfolding render_counters counter_items
read-counters values prev [] rest p b = refl
read-counters values prev (d ∷ ds) rest p b =
    let tail = render_counters values d.name ds rest in
    let s : read_lines (sample (d.name ++ d.labels) (to_string (value values d.id)) tail)
        ≡ metric (d.name ++ d.labels) (some (pos (value values d.id)))
          ∷ counter_items values d.name ds (read_lines rest) =
      read_lines-sample (d.name ++ d.labels) (to_string (value values d.id)) tail
        (is_series-IsSeries (d.name ++ d.labels) (ground (arith, p)))
        (no_newline (value values d.id))
      ∙ rw
          (
            read_counter (value values d.id) (b d.id),
            read-counters values d.name ds rest (ground (arith, p)) b,
          )
          refl in
    elim (Bool-cases (bytes_beq prev d.name)) [
      | inl e ↦ rw e s
      | inr e ↦ rw e (
          read_lines-header d.name d.help (codes "counter")
            (sample (d.name ++ d.labels) (to_string (value values d.id)) tail) (ground (arith, p))
            (ground (arith, p)) (unfold has any in refl)
          ∙ ap (introduce d.name d.help (codes "counter")) s)
    ]

read-gauge :
    (name text : Text) (v : ℤ) (rest : Text)
    → is_series name ≡ true
    → has b'\n' text ≡ false
    → IsLong v
    → read_lines (append_gauge name text v rest) ≡ gauge_item name text v (read_lines rest)
unfolding append_gauge
read-gauge name text v rest s t long =
    let w = is_series-IsSeries name s in
    read_lines-header name text (codes "gauge") (sample name (to_string_ℤ v) rest)
      (IsSeries-IsWord name w) t (unfold has any in refl)
    ∙ ap (introduce name text (codes "gauge")) (
        read_lines-sample name (to_string_ℤ v) rest w (no_newline_ℤ v)
        ∙ rw (number-to_string_ℤ v long) refl)

module _ (os : Platform) where
  build_series-IsSeries : IsPlain os → IsSeries (build_series os)
  unfolding build_series
  build_series-IsSeries w =
      IsSeries-append (codes "srtla_build_info{version=\"") (os.version ++ codes "\"}")
        (is_series-IsSeries (codes "srtla_build_info{version=\"") (unfold has any in refl))
        (IsWord-append os.version (codes "\"}") w.version (unfold has any in (refl, refl)))

  pub read-gauges :
      (e : Exporter) (r : Receiver) (now : ℕ) (rest : Text)
      → IsPlain os
      → Countable os e r now
      → read_lines (render_gauges os e r now rest) ≡ gauge_items os e r now (read_lines rest)
  unfolding render_gauges gauge_items has any number
  read-gauges e r now rest w c =
      read_lines-header (codes "srtla_build_info") (codes "Build information") (codes "gauge") _
        (refl, refl) refl refl
      ∙ ap (introduce (codes "srtla_build_info") (codes "Build information") (codes "gauge")) (
          read_lines-sample (build_series os) (codes "1") _ (build_series-IsSeries w) refl
          ∙ ap (λ ls. metric (build_series os) (some (pos 1)) ∷ ls)
              (read-gauge _ _ e.start_time _ refl refl c.start_time
                ∙ ap (gauge_item _ _ e.start_time) (
                    read-gauge _ _ (pos (length r.groups)) _ refl refl c.groups
                    ∙ ap (gauge_item _ _ (pos (length r.groups))) (
                        read-gauge _ _ (pos (established r.groups)) _ refl refl c.established
                        ∙ ap (gauge_item _ _ (pos (established r.groups))) (
                            read-gauge _ _ (pos (connections r.groups)) _ refl refl c.connections
                            ∙ ap (gauge_item _ _ (pos (connections r.groups))) (
                                read-gauge _ _ (pos (blocked_count r.entries now)) _ refl refl
                                  c.blocked))))))
