-- ===== src/Exporter/Families.antt =====
-- How the lines of a scrape of src/metrics/prometheus.cpp are grouped by metric.
use srtla.Base.{
  ℕ, ◌≡◌, refl, ◌∙◌, ap, Bool, true, false, not, ◌&&◌, List, [], ◌∷◌, ◌++◌, any, if◌then◌else◌,
  Bool-cases, inl, inr, arith,
}
use srtla.Base.Assoc.{bytes_beq, bytes_beq_iff}
use srtla.Connection.{Connection}
use srtla.Exporter.{Exporter, Platform, build_series, conn_series, group_port, render}
use srtla.Exporter.Items.{
  counter_items, gauge_items, conn_items, group_items, detail_items, items, IsPlain, InRange,
}
use srtla.Exporter.Items.Read.{read_lines-render}
use srtla.Exporter.Scrape.{Line, help, kind, metric, read_lines}
use srtla.Exporter.Table.{Def, ConnDef, k_defs, k_conn_defs}
use srtla.Group.{Group}
use srtla.Receiver.{Receiver}
use srtla.Text.{Text, codes, has, split_at}
use srtla.Text.Lines.{split_at-append}

-- The metric of a series: what stands before its labels.
abbrev family : Text → Text
family s = (split_at b'{' s).0

is_new : Text → List Text → Bool
unfolding any
is_new name seen = not (any (bytes_beq name) seen)

-- The text exposition format: the help and the type of a metric come together and once, and then
-- all the samples of this metric. `seen` are the metrics so far, the last of them is `current`.
unfoldable pub formed : List Text → Text → List Line → Bool
unfolding is_new
formed seen current [] = true
formed seen current (help name text ∷ kind name' k ∷ ls) =
    bytes_beq name name' && is_new name seen && formed (name ∷ seen) name ls
formed seen current (help name text ∷ []) = false
formed seen current (help name text ∷ help name' text' ∷ ls) = false
formed seen current (help name text ∷ metric s v ∷ ls) = false
formed seen current (kind name k ∷ ls) = false
formed seen current (metric s v ∷ ls) = bytes_beq (family s) current && formed seen current ls

beq_self : (s : Text) → bytes_beq s s ≡ true
beq_self s = (bytes_beq_iff s s).1 refl

-- What `formed` asks of the table of counters, and the state behind it.
table_formed : List Text → Text → List Def → Bool
table_formed seen prev [] = true
table_formed seen prev (d ∷ ds) =
    let first = is_new d.name seen && table_formed (d.name ∷ seen) d.name ds in
    let next = table_formed seen d.name ds in
    bytes_beq (family (d.name ++ d.labels)) d.name
    && (if bytes_beq prev d.name then next else first)

seen_after : List Text → Text → List Def → List Text
seen_after seen prev [] = seen
seen_after seen prev (d ∷ ds) =
    seen_after (if bytes_beq prev d.name then seen else d.name ∷ seen) d.name ds

last_name : Text → List Def → Text
last_name prev [] = prev
last_name prev (d ∷ ds) = last_name d.name ds

formed-counter_items :
    (values : List ℕ) (seen : List Text) (prev : Text) (ds : List Def) (rest : List Line)
    → table_formed seen prev ds ≡ true
    → formed seen prev (counter_items values prev ds rest)
      ≡ formed (seen_after seen prev ds) (last_name prev ds) rest
unfolding formed counter_items table_formed seen_after last_name
formed-counter_items values seen prev [] rest h = refl
formed-counter_items values seen prev (d ∷ ds) rest h = elim (Bool-cases (bytes_beq prev d.name)) [
  | inl same ↦
      let e = (bytes_beq_iff prev d.name).0 same in
      ground (arith, same, e, h, formed-counter_items values seen d.name ds rest)
  | inr fresh ↦
      ground (
        arith,
        fresh,
        h,
        beq_self d.name,
        formed-counter_items values (d.name ∷ seen) d.name ds rest,
      )
]

table_lem : table_formed [] [] k_defs ≡ true
unfolding table_formed k_defs is_new split_at any
table_lem = refl

conn_table_formed : List Text → List ConnDef → Bool
conn_table_formed seen [] = true
conn_table_formed seen (d ∷ ds) =
    not (has b'{' d.name) && is_new d.name seen && conn_table_formed (d.name ∷ seen) ds

-- The metrics of the gauges, the last one first.
gauge_seen : List Text
gauge_seen =
    codes "srtla_auth_sources_blocked"
    ∷ codes "srtla_connections"
    ∷ codes "srtla_groups_established"
    ∷ codes "srtla_groups"
    ∷ codes "srtla_start_time_seconds"
    ∷ codes "srtla_build_info"
    ∷ seen_after [] [] k_defs

conn_table_lem : conn_table_formed gauge_seen k_conn_defs ≡ true
unfolding conn_table_formed k_conn_defs gauge_seen seen_after k_defs is_new has any
conn_table_lem = refl

module _ (os : Platform) where
  formed-gauge_items :
      (e : Exporter) (r : Receiver) (now : ℕ) (rest : List Line)
      → formed (seen_after [] [] k_defs) (last_name [] k_defs) (gauge_items os e r now rest)
        ≡ formed gauge_seen (codes "srtla_auth_sources_blocked") rest
  unfolding formed gauge_items gauge_seen build_series seen_after k_defs split_at any
  formed-gauge_items e r now rest = refl

  family-conn_series :
      (name : Text) (port : ℕ) (c : Connection)
      → has b'{' name ≡ false
      → family (conn_series os name port c) ≡ name
  unfolding conn_series
  family-conn_series name port c h = ap (λ (p : Text × Text). p.0) (split_at-append b'{' name _ h)

  formed-conn_items :
      (seen : List Text) (d : ConnDef) (now port : ℕ) (cs : List Connection) (rest : List Line)
      → has b'{' d.name ≡ false
      → formed seen d.name (conn_items os d now port cs rest) ≡ formed seen d.name rest
  unfolding formed conn_items
  formed-conn_items seen d now port [] rest h = refl
  formed-conn_items seen d now port (c ∷ cs) rest h =
      rw (family-conn_series d.name port c h, beq_self d.name)
        (formed-conn_items seen d now port cs rest h)

  formed-group_items :
      (seen : List Text) (d : ConnDef) (now : ℕ) (gs : List Group) (rest : List Line)
      → has b'{' d.name ≡ false
      → formed seen d.name (group_items os d now gs rest) ≡ formed seen d.name rest
  unfolding group_items
  formed-group_items seen d now [] rest h = refl
  formed-group_items seen d now (g ∷ gs) rest h =
      formed-conn_items seen d now (group_port os g) g.conns _ h
      ∙ formed-group_items seen d now gs rest h

  formed-detail_items :
      (seen : List Text) (current : Text) (now : ℕ) (gs : List Group) (ds : List ConnDef)
      → conn_table_formed seen ds ≡ true
      → formed seen current (detail_items os now gs ds []) ≡ true
  unfolding formed detail_items conn_table_formed
  formed-detail_items seen current now gs [] h = refl
  formed-detail_items seen current now gs (d ∷ ds) h = ground (
    arith,
    h,
    beq_self d.name,
    formed-group_items (d.name ∷ seen) d now gs (detail_items os now gs ds []),
    formed-detail_items (d.name ∷ seen) d.name now gs ds,
  )

  -- A scrape, of a receiver whose numbers fit their types, keeps to the exposition format: the help
  -- and the type of each metric come once, together, and all its samples follow them, with nothing
  -- of another metric between.
  pub formed-render :
      (e : Exporter) (r : Receiver) (now : ℕ)
      → IsPlain os
      → InRange os e r now
      → formed [] [] (read_lines (render os e r now)) ≡ true
  unfolding items
  formed-render e r now w b =
      ap (formed [] []) (read_lines-render os e r now w b)
      ∙ formed-counter_items r.values [] [] k_defs _ table_lem
      ∙ formed-gauge_items e r now _
      ∙ elim (Bool-cases e.detailed) [
        | inl on ↦ rw on (formed-detail_items gauge_seen _ now r.groups k_conn_defs conn_table_lem)
        | inr off ↦ rw off (unfold formed in refl)
      ]
