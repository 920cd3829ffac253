-- ===== src/Exporter/Counters.antt =====
-- The counters in a scrape of src/metrics/prometheus.cpp.
use srtla.Base.{
  ℕ, zero, suc, ◌<◌, ◌≡◌, refl, sym, ◌∙◌, ap, subst, ==_iff, Bool, true, false, not, ◌&&◌, Option,
  some, List, [], ◌∷◌, ◌++◌, ◌==◌, if◌then◌else◌, ℤ, pos, map, arith, Bool-cases, inl, inr,
}
use srtla.Base.Assoc.{bytes_beq, bytes_beq_iff}
use srtla.Connection.{Connection}
use srtla.Exporter.{Exporter, Platform, build_series, conn_series, group_port, render}
use srtla.Exporter.Items.{
  counter_items, gauge_items, conn_items, group_items, detail_items, items, IsPlain, InRange,
}
use srtla.Exporter.Items.Read.{read_lines-render}
use srtla.Exporter.Scrape.{Line, help, kind, metric, read_lines}
use srtla.Exporter.Table.{Def, ConnDef, k_defs, k_conn_defs}
use srtla.Group.{Group}
use srtla.Metrics.{Counter, value, counter_count}
use srtla.Receiver.{Receiver}
use srtla.Text.{Text, codes}

-- The values that a scrape has for one series.
unfoldable pub named : Text → List Line → List (Option ℤ)
named s [] = []
named s (help name text ∷ ls) = named s ls
named s (kind name k ∷ ls) = named s ls
named s (metric t v ∷ ls) = let rest = named s ls in if bytes_beq t s then v ∷ rest else rest

-- The series of a counter: its name and its labels in the table.
series_in : List Def → Counter → Text
series_in [] c = []
series_in (d ∷ ds) c = if d.id == c then d.name ++ d.labels else series_in ds c

unfoldable pub series : Counter → Text
unfolding series_in k_defs
series c = series_in k_defs c

matching : Text → List Def → List Counter
matching s [] = []
matching s (d ∷ ds) =
    let rest = matching s ds in if bytes_beq (d.name ++ d.labels) s then d.id ∷ rest else rest

starts : Text → Text → Bool
starts [] s = true
starts (x ∷ p) [] = false
starts (x ∷ p) (y ∷ s) = x == y && starts p s

starts-append : (p t s : Text) → starts p s ≡ false → bytes_beq (p ++ t) s ≡ false
unfolding starts
starts-append [] t s h = absurd (cc h)
starts-append (x ∷ p) t [] h = refl
starts-append (x ∷ p) t (y ∷ s) h = ground (arith, starts-append p t s)

none_starts : List ConnDef → Text → Bool
none_starts [] s = true
none_starts (d ∷ ds) s = not (starts d.name s) && none_starts ds s

none_is : List Text → Text → Bool
none_is [] s = true
none_is (t ∷ ts) s = not (bytes_beq t s) && none_is ts s

abbrev Misses : List Text → Text → Type 0
Misses [] s = Unit {0}
Misses (t ∷ ts) s = (bytes_beq t s ≡ false) × Misses ts s

none_is-Misses : (ts : List Text) (s : Text) → none_is ts s ≡ true → Misses ts s
unfolding none_is
none_is-Misses [] s h = tt
none_is-Misses (t ∷ ts) s h = (ground (arith, h), none_is-Misses ts s (ground (arith, h)))

gauge_names : List Text
gauge_names =
    codes "srtla_start_time_seconds"
    ∷ codes "srtla_groups"
    ∷ codes "srtla_groups_established"
    ∷ codes "srtla_connections"
    ∷ codes "srtla_auth_sources_blocked"
    ∷ []

abbrev build_prefix : Text
build_prefix = codes "srtla_build_info{version=\""

-- The series of the counter stands in the table once, and nowhere else.
is_alone : Counter → Bool
unfolding gauge_names none_is none_starts matching series starts k_defs k_conn_defs
is_alone c =
    bytes_beq (matching (series c) k_defs) (c ∷ [])
    && not (starts build_prefix (series c))
    && none_is gauge_names (series c)
    && none_starts k_conn_defs (series c)

record Alone (c : Counter) : Type 0 where
  only : matching (series c) k_defs ≡ c ∷ []
  no_build : starts build_prefix (series c) ≡ false
  no_gauge : Misses gauge_names (series c)
  no_conn : none_starts k_conn_defs (series c) ≡ true

and_true : (a b : Bool) → (a && b) ≡ true → (a ≡ true) × (b ≡ true)
and_true true b h = (refl, h)
and_true false b h = absurd (cc h)

false_of_not : (a : Bool) → not a ≡ true → a ≡ false
false_of_not true h = absurd (cc h)
false_of_not false h = refl

is_alone-Alone : (c : Counter) → is_alone c ≡ true → Alone c
unfolding is_alone
is_alone-Alone c h =
    let t3 = and_true _ (none_starts k_conn_defs (series c)) h in
    let t2 = and_true _ (none_is gauge_names (series c)) t3.0 in
    let t1 = and_true (bytes_beq (matching (series c) k_defs) (c ∷ [])) _ t2.0 in
    record {
      only = (bytes_beq_iff _ _).0 t1.0;
      no_build = false_of_not (starts build_prefix (series c)) t1.1;
      no_gauge = none_is-Misses gauge_names (series c) t2.1;
      no_conn = t3.1;
    }

each_alone : Counter → Bool
each_alone zero = true
each_alone (suc c) = is_alone c && each_alone c

each_alone-Alone : (n c : Counter) → each_alone n ≡ true → c < n → Alone c
unfolding each_alone
each_alone-Alone zero c h lt = absurd (omega arith)
each_alone-Alone (suc n) c h lt =
    let parts = and_true (is_alone n) (each_alone n) h in
    elim (Bool-cases (c == n)) [
      | inl last ↦ subst Alone (sym ((==_iff c n).0 last)) (is_alone-Alone n parts.0)
      | inr before ↦ each_alone-Alone n c parts.1 (ground (arith, lt, before))
    ]

table_lem : each_alone counter_count ≡ true
unfolding each_alone is_alone
table_lem = refl

named-counter_items :
    (s : Text) (values : List ℕ) (prev : Text) (ds : List Def) (rest : List Line)
    → named s (counter_items values prev ds rest)
      ≡ map (λ i. some (pos (value values i))) (matching s ds) ++ named s rest
unfolding named counter_items matching
named-counter_items s values prev [] rest = refl
named-counter_items s values prev (d ∷ ds) rest =
    ground (arith, named-counter_items s values d.name ds rest)

module _ (os : Platform) where
  named-conn_items :
      (s : Text) (d : ConnDef) (now port : ℕ) (cs : List Connection) (rest : List Line)
      → starts d.name s ≡ false
      → named s (conn_items os d now port cs rest) ≡ named s rest
  unfolding named conn_items conn_series
  named-conn_items s d now port [] rest h = refl
  named-conn_items s d now port (c ∷ cs) rest h =
      rw (starts-append d.name _ s h) (named-conn_items s d now port cs rest h)

  named-group_items :
      (s : Text) (d : ConnDef) (now : ℕ) (gs : List Group) (rest : List Line)
      → starts d.name s ≡ false
      → named s (group_items os d now gs rest) ≡ named s rest
  unfolding group_items
  named-group_items s d now [] rest h = refl
  named-group_items s d now (g ∷ gs) rest h =
      named-conn_items s d now (group_port os g) g.conns _ h ∙ named-group_items s d now gs rest h

  named-detail_items :
      (s : Text) (now : ℕ) (gs : List Group) (ds : List ConnDef) (rest : List Line)
      → none_starts ds s ≡ true
      → named s (detail_items os now gs ds rest) ≡ named s rest
  unfolding detail_items named none_starts
  named-detail_items s now gs [] rest h = refl
  named-detail_items s now gs (d ∷ ds) rest h =
      named-group_items s d now gs _ (ground (arith, h))
      ∙ named-detail_items s now gs ds rest (ground (arith, h))

  named-gauge_items :
      (s : Text) (e : Exporter) (r : Receiver) (now : ℕ) (rest : List Line)
      → starts build_prefix s ≡ false
      → Misses gauge_names s
      → named s (gauge_items os e r now rest) ≡ named s rest
  unfolding gauge_items named build_series gauge_names
  named-gauge_items s e r now rest b h =
      rw
        (
          starts-append build_prefix (os.version ++ codes "\"}") s b,
          h.0,
          h.1.0,
          h.1.1.0,
          h.1.1.1.0,
          h.1.1.1.1.0,
        )
        refl

  -- A client that reads a scrape, of a receiver whose numbers fit their types, finds each counter
  -- exactly once under its series, with the value that the receiver has counted, whatever groups and
  -- connections there are and whether the detail is exported or not.
  pub named-render :
      (e : Exporter) (r : Receiver) (now : ℕ) (c : Counter)
      → c < counter_count
      → IsPlain os
      → InRange os e r now
      → named (series c) (read_lines (render os e r now)) ≡ some (pos (value r.values c)) ∷ []
  unfolding items named
  named-render e r now c lt w b =
      let rest = if e.detailed then detail_items os now r.groups k_conn_defs [] else [] in
      let a = each_alone-Alone counter_count c table_lem lt in
      ap (named (series c)) (read_lines-render os e r now w b)
      ∙ named-counter_items (series c) r.values [] k_defs (gauge_items os e r now rest)
      ∙ ap
          (λ is.
            map (λ i. some (pos (value r.values i))) is
            ++ named (series c) (gauge_items os e r now rest))
          a.only
      ∙ ap (λ ls. some (pos (value r.values c)) ∷ ls)
          (named-gauge_items (series c) e r now rest a.no_build a.no_gauge
            ∙ elim (Bool-cases e.detailed) [
              | inl on ↦ rw on (named-detail_items (series c) now r.groups k_conn_defs [] a.no_conn)
              | inr off ↦ rw off refl
            ])
