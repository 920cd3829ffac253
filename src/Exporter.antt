-- ===== src/Exporter.antt =====
-- The class Exporter of src/metrics/prometheus.cpp: the text of a scrape. The calls of the operating
-- system are in Serve and Start.
pub mod Table
pub mod Scrape
pub mod Items
pub mod Counters
pub mod Families
pub mod Serve
use srtla.Base.{
  ℕ, suc, ◌+◌, Bool, Option, List, [], ◌∷◌, ◌++◌, ltb_ℤ, if◌then◌else◌, ℤ, pos, length, map,
}
use srtla.Addr.{SockAddr}
use srtla.Addr.Print.{print_addr, port_no}
use srtla.AuthLimiter.{Entries, blocked_count}
use srtla.Base.Assoc.{bytes_beq}
use srtla.Connection.{Connection}
use srtla.Exporter.Table.{Def, ConnDef, k_defs, k_conn_defs}
use srtla.Group.{Group}
use srtla.Metrics.{value}
use srtla.NetworkUtils.{get_local_port}
use srtla.Receiver.{Receiver}
use srtla.Text.{Text, codes, to_string, to_string_ℤ}

pub record Exporter : Type 0 where
  pub listen_fd : ℤ
  pub detailed : Bool
  pub start_time : ℤ

-- The two lines that introduce a metric.
unfoldable pub header : Text → Text → Text → Text → Text
header name help kind rest =
    codes "# HELP "
    ++ (name
        ++ (b' '
            ∷ (help ++ (b'\n' ∷ (codes "# TYPE " ++ (name ++ (b' ' ∷ (kind ++ (b'\n' ∷ rest)))))))))

-- A line with a value, the text of a number.
unfoldable pub sample : Text → Text → Text → Text
sample series number rest = series ++ (b' ' ∷ (number ++ (b'\n' ∷ rest)))

unfoldable pub append_gauge : Text → Text → ℤ → Text → Text
unfolding header sample
append_gauge name help v rest = header name help (codes "gauge") (sample name (to_string_ℤ v) rest)

-- The loop over kDefs. After it comes `rest`.
unfoldable pub render_counters : List ℕ → Text → List Def → Text → Text
unfolding header sample
render_counters values prev_name [] rest = rest
render_counters values prev_name (d ∷ ds) rest =
    let line =
      sample (d.name ++ d.labels) (to_string (value values d.id))
        (render_counters values d.name ds rest) in
    if bytes_beq prev_name d.name then line else header d.name d.help (codes "counter") line

unfoldable pub established : List Group → ℕ
established [] = 0
established (g ∷ gs) = (if g.established then 1 else 0) + established gs

unfoldable pub connections : List Group → ℕ
connections [] = 0
connections (g ∷ gs) = length g.conns + connections gs

-- What the build and the C library bring: VERSION, inet_ntop, and getsockname, `none` where it fails.
pub record Platform : Type 0 where
  pub version : Text
  pub inet_ntop : ℕ → List ℕ → Text
  pub getsockname : ℤ → Option SockAddr

module _ (os : Platform) where
  unfoldable pub addr_label : SockAddr → Text
  addr_label addr = print_addr os.inet_ntop addr ++ (b':' ∷ to_string (port_no addr))

  unfoldable pub group_port : Group → ℕ
  group_port g = if ltb_ℤ g.srt_sock (pos 0) then 0 else get_local_port (os.getsockname g.srt_sock)

  unfoldable pub conn_series : Text → ℕ → Connection → Text
  unfolding addr_label
  conn_series name port c =
      name
      ++ (codes "{group=\""
          ++ (to_string port ++ (codes "\",remote=\"" ++ (addr_label c.addr ++ codes "\"}"))))

  -- The three loops of the detailed part, from the inner one.
  unfoldable pub render_conns : ConnDef → ℕ → ℕ → List Connection → Text → Text
  unfolding sample conn_series
  render_conns d now port [] rest = rest
  render_conns d now port (c ∷ cs) rest =
      sample (conn_series d.name port c) (to_string_ℤ (d.value c now))
        (render_conns d now port cs rest)

  unfoldable pub render_groups : ConnDef → ℕ → List Group → Text → Text
  unfolding render_conns group_port
  render_groups d now [] rest = rest
  render_groups d now (g ∷ gs) rest =
      render_conns d now (group_port g) g.conns (render_groups d now gs rest)

  unfoldable pub render_detail : ℕ → List Group → List ConnDef → Text → Text
  unfolding render_groups header
  render_detail now groups [] rest = rest
  render_detail now groups (d ∷ ds) rest =
      header d.name d.help d.kind (render_groups d now groups (render_detail now groups ds rest))

  unfoldable pub build_series : Text
  build_series = codes "srtla_build_info{version=\"" ++ (os.version ++ codes "\"}")

  unfoldable pub render_gauges : Exporter → Receiver → ℕ → Text → Text
  unfolding append_gauge header sample build_series established connections blocked_count
  render_gauges e r now rest =
      header (codes "srtla_build_info") (codes "Build information") (codes "gauge") (
        sample build_series (codes "1") (
          append_gauge (codes "srtla_start_time_seconds") (codes "Unix time the receiver started")
            e.start_time
            (append_gauge (codes "srtla_groups") (codes "Registered connection groups")
              (pos (length r.groups))
              (append_gauge (codes "srtla_groups_established")
                (codes "Groups whose SRT session was accepted by the SRT server")
                (pos (established r.groups))
                (append_gauge (codes "srtla_connections")
                  (codes "Registered connections across all groups") (pos (connections r.groups))
                  (append_gauge (codes "srtla_auth_sources_blocked")
                    (codes "Source IPs currently blocked for repeated SRT auth failures")
                    (pos (blocked_count r.entries now)) rest))))))

  unfoldable pub render : Exporter → Receiver → ℕ → Text
  unfolding render_counters k_defs render_gauges render_detail k_conn_defs
  render e r now =
      render_counters r.values [] k_defs (
        render_gauges e r now
          (if e.detailed then render_detail now r.groups k_conn_defs [] else []))
