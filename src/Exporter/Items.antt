-- ===== src/Exporter/Items.antt =====
-- What is to be read in a scrape of src/metrics/prometheus.cpp, line by line.
pub mod Plain
pub mod Read
use srtla.Base.{
  ℕ, ◌+◌, ◌<◌, ◌^◌, ◌≡◌, refl, ◌∙◌, ap, Bool, true, false, not, ◌&&◌, Option, some, List, [], ◌∷◌,
  ◌++◌, ◌==◌, if◌then◌else◌, any, ℤ, pos, length, arith, Bool-cases, inl, inr,
}
use srtla.Base.Assoc.{bytes_beq}
use srtla.Addr.{SockAddr, slice, af_inet, af_inet6}
use srtla.Addr.Print.{print_addr, port_no}
use srtla.AuthLimiter.{blocked_count}
use srtla.Connection.{Connection}
use srtla.Exporter.{
  Exporter, Platform, header, sample, append_gauge, render_counters, established, connections,
  group_port, conn_series, addr_label, render_conns, render_groups, render_detail, build_series,
  render_gauges, render,
}
use srtla.Exporter.Scrape.{
  Line, help, kind, metric, read_lines, IsWord, IsSeries, has_joined, read_lines-sample,
  read_lines-header,
}
use srtla.Exporter.Table.{Def, ConnDef, k_defs, k_conn_defs}
use srtla.Group.{Group}
use srtla.Metrics.{value}
use srtla.Receiver.{Receiver}
use srtla.Text.{Text, codes, has, to_string, to_string_ℤ, number, is_digit}
use srtla.Text.Decimal.{IsLong, number-to_string_ℤ, has-to_string, has-to_string_ℤ}

abbrev pub introduce : Text → Text → Text → List Line → List Line
introduce name text k rest = help name text ∷ kind name k ∷ rest

unfoldable pub counter_items : List ℕ → Text → List Def → List Line → List Line
counter_items values prev_name [] rest = rest
counter_items values prev_name (d ∷ ds) rest =
    let item =
      metric (d.name ++ d.labels) (some (pos (value values d.id)))
      ∷ counter_items values d.name ds rest in
    if bytes_beq prev_name d.name then item else introduce d.name d.help (codes "counter") item

abbrev pub gauge_item : Text → Text → ℤ → List Line → List Line
gauge_item name text v rest = introduce name text (codes "gauge") (metric name (some v) ∷ rest)

-- The numbers that are exported of the connections fit a long long.
abbrev LongConns : ConnDef → ℕ → List Connection → Type 0
LongConns d now [] = Unit {0}
LongConns d now (c ∷ cs) = IsLong (d.value c now) × LongConns d now cs

abbrev LongGroups : ConnDef → ℕ → List Group → Type 0
LongGroups d now [] = Unit {0}
LongGroups d now (g ∷ gs) = LongConns d now g.conns × LongGroups d now gs

abbrev pub LongDetail : List ConnDef → ℕ → List Group → Type 0
LongDetail [] now gs = Unit {0}
LongDetail (d ∷ ds) now gs = LongGroups d now gs × LongDetail ds now gs

-- What the platform gives has no space and no newline in it.
pub record IsPlain (os : Platform) : Type 0 where
  pub version : IsWord os.version
  pub inet_ntop : (family : ℕ) (addr : List ℕ) → IsWord (os.inet_ntop family addr)

module _ (os : Platform) where
  unfoldable pub gauge_items : Exporter → Receiver → ℕ → List Line → List Line
  gauge_items e r now rest =
      introduce (codes "srtla_build_info") (codes "Build information") (codes "gauge") (
        metric (build_series os) (some (pos 1))
        ∷ gauge_item (codes "srtla_start_time_seconds") (codes "Unix time the receiver started")
            e.start_time
            (gauge_item (codes "srtla_groups") (codes "Registered connection groups")
              (pos (length r.groups))
              (gauge_item (codes "srtla_groups_established")
                (codes "Groups whose SRT session was accepted by the SRT server")
                (pos (established r.groups))
                (gauge_item (codes "srtla_connections")
                  (codes "Registered connections across all groups") (pos (connections r.groups))
                  (gauge_item (codes "srtla_auth_sources_blocked")
                    (codes "Source IPs currently blocked for repeated SRT auth failures")
                    (pos (blocked_count r.entries now)) rest)))))

  unfoldable pub conn_items : ConnDef → ℕ → ℕ → List Connection → List Line → List Line
  conn_items d now port [] rest = rest
  conn_items d now port (c ∷ cs) rest =
      metric (conn_series os d.name port c) (some (d.value c now)) ∷ conn_items d now port cs rest

  unfoldable pub group_items : ConnDef → ℕ → List Group → List Line → List Line
  unfolding conn_items
  group_items d now [] rest = rest
  group_items d now (g ∷ gs) rest =
      conn_items d now (group_port os g) g.conns (group_items d now gs rest)

  unfoldable pub detail_items : ℕ → List Group → List ConnDef → List Line → List Line
  unfolding group_items
  detail_items now groups [] rest = rest
  detail_items now groups (d ∷ ds) rest =
      introduce d.name d.help d.kind (group_items d now groups (detail_items now groups ds rest))

  -- What is to be read in a scrape.
  unfoldable pub items : Exporter → Receiver → ℕ → List Line
  unfolding counter_items gauge_items detail_items
  items e r now =
      counter_items r.values [] k_defs
        (gauge_items e r now (if e.detailed then detail_items now r.groups k_conn_defs [] else []))

  -- The gauges that count, within a long long.
  pub record Countable (e : Exporter) (r : Receiver) (now : ℕ) : Type 0 where
    pub start_time : IsLong e.start_time
    pub groups : length r.groups < 2 ^ 64
    pub established : established r.groups < 2 ^ 64
    pub connections : connections r.groups < 2 ^ 64
    pub blocked : blocked_count r.entries now < 2 ^ 64

  -- Every number of a scrape fits its type.
  pub record InRange (e : Exporter) (r : Receiver) (now : ℕ) : Type 0 where
    pub counters : (i : ℕ) → value r.values i < 2 ^ 64
    pub counted : Countable e r now
    pub detail : LongDetail k_conn_defs now r.groups
