-- ===== src/Exporter/Items/Read.antt =====
-- What Exporter::render of src/metrics/prometheus.cpp prints, and the reader of a scrape.
use srtla.Base.{
  ℕ, ◌≡◌, refl, ◌∙◌, ap, Bool, true, not, ◌&&◌, List, [], ◌∷◌, any, arith, Bool-cases, inl, inr,
}
use srtla.Addr.{SockAddr, slice, af_inet, af_inet6}
use srtla.Addr.Print.{print_addr, port_no}
use srtla.Connection.{Connection}
use srtla.Exporter.{
  Exporter, Platform, group_port, conn_series, addr_label, render_conns, render_groups,
  render_detail, render,
}
use srtla.Exporter.Scrape.{read_lines, IsWord, IsSeries, read_lines-sample, read_lines-header}
use srtla.Exporter.Table.{ConnDef, k_defs, k_conn_defs}
use srtla.Group.{Group}
use srtla.Receiver.{Receiver}
use srtla.Text.{Text, codes, has, to_string, to_string_ℤ, is_digit}
use srtla.Text.Decimal.{number-to_string_ℤ, has-to_string}
use srtla.Exporter.Items.{
  introduce, counter_items, LongConns, LongGroups, LongDetail, IsPlain, gauge_items, conn_items,
  group_items, detail_items, items, InRange,
}
use srtla.Exporter.Items.Plain.{
  is_series, IsSeries-IsWord, IsWord-append, IsSeries-append, no_newline, read-counters,
  read-gauges, plain_table, is_series-IsSeries, no_newline_ℤ,
}

abbrev plain_conn_defs : List ConnDef → Bool
plain_conn_defs [] = true
plain_conn_defs (d ∷ ds) =
    is_series d.name && not (has b'\n' d.help) && not (has b'\n' d.kind) && plain_conn_defs ds

plain_conn_table : plain_conn_defs k_conn_defs ≡ true
unfolding k_conn_defs has any
plain_conn_table = refl

module _ (os : Platform) where
  to_string-IsWord : (n : ℕ) → IsWord (to_string n)
  to_string-IsWord n = (has-to_string b' ' n (unfold is_digit in refl), no_newline n)

  addr_label-IsWord : IsPlain os → (addr : SockAddr) → IsWord (addr_label os addr)
  unfolding addr_label print_addr
  addr_label-IsWord w addr =
      let six = w.inet_ntop af_inet6 (slice addr.sin6_addr 0 16) in
      let mapped = w.inet_ntop af_inet (slice addr.sin6_addr 12 4) in
      let four = w.inet_ntop af_inet (slice addr.sin_addr 0 4) in
      IsWord-append (print_addr os.inet_ntop addr) (b':' ∷ to_string (port_no addr))
        (ground (arith, six, mapped, four))
        (IsWord-append (codes ":") (to_string (port_no addr)) (unfold has any in (refl, refl))
          (to_string-IsWord (port_no addr)))

  conn_series-IsSeries :
      IsPlain os
      → (name : Text) (port : ℕ) (c : Connection) → IsSeries name
      → IsSeries (conn_series os name port c)
  unfolding conn_series
  conn_series-IsSeries w name port c s =
      let closed : IsWord (codes "\"}") = unfold has any in (refl, refl) in
      let remote : IsWord (codes "\",remote=\"") = unfold has any in (refl, refl) in
      let group : IsWord (codes "{group=\"") = unfold has any in (refl, refl) in
      IsSeries-append name _ s (
        IsWord-append _ _ group (
          IsWord-append _ _ (to_string-IsWord port)
            (IsWord-append _ _ remote (IsWord-append _ _ (addr_label-IsWord w c.addr) closed))))

  read-conns :
      (d : ConnDef) (now port : ℕ) (cs : List Connection) (rest : Text)
      → IsPlain os
      → is_series d.name ≡ true
      → LongConns d now cs
      → read_lines (render_conns os d now port cs rest)
        ≡ conn_items os d now port cs (read_lines rest)
  unfolding render_conns conn_items
  read-conns d now port [] rest w s long = refl
  read-conns d now port (c ∷ cs) rest w s long =
      read_lines-sample (conn_series os d.name port c) (to_string_ℤ (d.value c now)) _
        (conn_series-IsSeries w d.name port c (is_series-IsSeries d.name s))
        (no_newline_ℤ (d.value c now))
      ∙ rw (number-to_string_ℤ (d.value c now) long.0, read-conns d now port cs rest w s long.1)
          refl

  read-groups :
      (d : ConnDef) (now : ℕ) (gs : List Group) (rest : Text)
      → IsPlain os
      → is_series d.name ≡ true
      → LongGroups d now gs
      → read_lines (render_groups os d now gs rest) ≡ group_items os d now gs (read_lines rest)
  unfolding render_groups group_items
  read-groups d now [] rest w s long = refl
  read-groups d now (g ∷ gs) rest w s long =
      read-conns d now (group_port os g) g.conns (render_groups os d now gs rest) w s long.0
      ∙ ap (conn_items os d now (group_port os g) g.conns) (read-groups d now gs rest w s long.1)

  read-detail :
      (now : ℕ) (gs : List Group) (ds : List ConnDef) (rest : Text)
      → IsPlain os
      → plain_conn_defs ds ≡ true
      → LongDetail ds now gs
      → read_lines (render_detail os now gs ds rest) ≡ detail_items os now gs ds (read_lines rest)
  unfolding render_detail detail_items
  read-detail now gs [] rest w p long = refl
  read-detail now gs (d ∷ ds) rest w p long =
      let s : is_series d.name ≡ true = ground (arith, p) in
      read_lines-header d.name d.help d.kind
        (render_groups os d now gs (render_detail os now gs ds rest))
        (IsSeries-IsWord d.name (is_series-IsSeries d.name s)) (ground (arith, p))
        (ground (arith, p))
      ∙ ap (introduce d.name d.help d.kind) (
          read-groups d now gs (render_detail os now gs ds rest) w s long.0
          ∙ ap (group_items os d now gs) (read-detail now gs ds rest w (ground (arith, p)) long.1))

  nothing : read_lines [] ≡ []
  unfolding read_lines
  nothing = refl

  pub read_lines-render :
      (e : Exporter) (r : Receiver) (now : ℕ)
      → IsPlain os
      → InRange os e r now
      → read_lines (render os e r now) ≡ items os e r now
  unfolding render items
  read_lines-render e r now w b =
      read-counters r.values [] k_defs _ plain_table b.counters
      ∙ ap (counter_items r.values [] k_defs) (
          read-gauges os e r now _ w b.counted
          ∙ ap (gauge_items os e r now) (elim (Bool-cases e.detailed) [
            | inl yes' ↦ rw yes' (
                read-detail now r.groups k_conn_defs [] w plain_conn_table b.detail
                ∙ ap (detail_items os now r.groups k_conn_defs) nothing)
            | inr no' ↦ rw no' nothing
          ]))
