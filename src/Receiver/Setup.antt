-- ===== src/Receiver/Setup.antt =====
-- main of src/receiver_main.cpp up to its loop: the arguments, the address of the SRT server, the
-- SRTLA socket and the exporter. The parsing of the arguments is the library argparse's.
pub mod Ready
use srtla.Base.{
  ℕ, Bool, true, false, not, Option, none, some, List, [], ◌∷◌, ◌++◌, replicate, if◌then◌else◌, ℤ,
  pos, negsuc, ltb_ℤ, eqb_ℤ,
}
use srtla.Addr.{SockAddr, zero_addr, af_inet6}
use srtla.Base.Assoc.{bytes_beq}
use srtla.Exporter.{Exporter}
use srtla.Exporter.Serve
use srtla.Exporter.Serve.{Kernel, new_exporter}
use srtla.Float.{Float}
use srtla.NetworkUtils
use srtla.NetworkUtils.{Probe, resolve_srt_address}
use srtla.Os.{Os}
use srtla.Receiver.{Receiver, start}
use srtla.Receiver.Loop.{Event, run}
use srtla.Receiver.Srt.{Config}
use srtla.Text.{Text, codes}
use srtla.Wire.{recv_buf_size, send_buf_size}

-- The values of the options, and their defaults.
pub record Args : Type 0 where
  pub srtla_port : ℕ
  pub srt_hostname : Text
  pub srt_port : ℕ
  pub metrics_port : ℕ
  pub metrics_bind : Text
  pub metrics_detail : Bool
  pub log_level : Text

abbrev pub default_args : Args
default_args = record {
  srtla_port = 5000;
  srt_hostname = codes "127.0.0.1";
  srt_port = 4001;
  metrics_port = 0;
  metrics_bind = codes "127.0.0.1";
  metrics_detail = false;
  log_level = codes "info";
}

pub data Level : Type 0 where
  trace debug info warn err critical : Level

unfoldable pub level_of : Text → Level
level_of log_level =
    if bytes_beq log_level (codes "trace")
    then trace
    else if bytes_beq log_level (codes "debug")
    then debug
    else if bytes_beq log_level (codes "info")
    then info
    else if bytes_beq log_level (codes "warn")
    then warn
    else if bytes_beq log_level (codes "error")
    then err
    else if bytes_beq log_level (codes "critical")
    then critical
    else info

pub data Call : Type 0 where
  epoll_create1 : Call
  socket : ℕ → Call
  set_v6only_off set_rcvbuf set_sndbuf get_flags set_nonblock : ℤ → Call
  bind : ℤ → SockAddr → Call
  epoll_add : ℤ → ℤ → Call

-- The tests on a result: `< 0`, `!= 0` and `== -1` are failures.
abbrev pub not_negative : ℤ → Bool
not_negative n = not (ltb_ℤ n (pos 0))

abbrev pub is_zero : ℤ → Bool
is_zero n = eqb_ℤ n (pos 0)

abbrev pub not_error : ℤ → Bool
not_error n = not (eqb_ℤ n (negsuc 0))

-- in6addr_any, with the port.
abbrev pub listen_addr : ℕ → SockAddr
listen_addr port = record {
  family = af_inet6;
  port = port;
  sin_addr = replicate 4 0;
  sin6_addr = replicate 16 0;
}

abbrev pub set_socket_buffers : ℤ → List (Call × (ℤ → Bool))
set_socket_buffers socket_fd =
    (set_rcvbuf socket_fd, is_zero) ∷ (set_sndbuf socket_fd, is_zero) ∷ []

-- What is done with the SRTLA socket, in order, with the test of each result.
unfoldable pub listen_calls : ℤ → ℤ → ℕ → List (Call × (ℤ → Bool))
listen_calls epoll_fd sock port =
    (set_v6only_off sock, not_negative)
    ∷ (set_socket_buffers sock
        ++ (get_flags sock, not_error)
          ∷ (set_nonblock sock, not_error)
          ∷ (bind sock (listen_addr port), not_negative)
          ∷ (epoll_add epoll_fd sock, is_zero)
          ∷ [])

-- What main has when its loop begins.
pub record Started : Type 0 where
  pub srtla_sock : ℤ
  pub config : Config
  pub exporter : Exporter
  pub level : Level

abbrev pub or_zero_addr : Option SockAddr → SockAddr
or_zero_addr none = zero_addr
or_zero_addr (some addr) = addr

abbrev pub loop_from : Os → Float → List (List Event × Option ℕ) → Option Started → Option Receiver
loop_from os fl turns none = none
loop_from os fl turns (some s) = some (run os fl s.config turns start)

module _ (ret : List Call → Call → ℤ) where
  -- The calls one after another, up to the first that fails.
  unfoldable pub run_calls : List (Call × (ℤ → Bool)) → List Call → Bool × List Call
  run_calls [] calls = (true, calls)
  run_calls ((k, test) ∷ rest) calls =
      let later = run_calls rest (k ∷ calls) in
      if test (ret calls k) then later else (false, k ∷ calls)

  -- The epoll and the SRTLA socket: `none` is EXIT_FAILURE.
  unfoldable pub open_srtla : ℕ → Option (ℤ × ℤ)
  unfolding run_calls listen_calls
  open_srtla port =
      let epoll_fd = ret [] epoll_create1 in
      let sock = ret (epoll_create1 ∷ []) (socket af_inet6) in
      if not (not_negative epoll_fd)
      then none
      else if not (not_negative sock)
      then none
      else if (run_calls (listen_calls epoll_fd sock port) (socket af_inet6 ∷ epoll_create1 ∷ [])).0
      then some (epoll_fd, sock)
      else none

  -- The results of the probe's and of the exporter's calls, what getaddrinfo gives for the SRT
  -- server and for the address of the exporter, and the time.
  module _ (probe : List NetworkUtils.Call → NetworkUtils.Call → ℤ) (kernel : Kernel)
      (servers : Option (List SockAddr)) (metrics_addr : Option SockAddr) (time : ℤ) where
    abbrev pub begin_with : Args → SockAddr → ℤ × ℤ → Started
    begin_with args srt_addr (epoll_fd, sock) = record {
      srtla_sock = sock;
      config = record { srt_addr = srt_addr; epoll_fd = epoll_fd };
      exporter =
          (Serve.start kernel metrics_addr time args.metrics_port epoll_fd args.metrics_detail
            new_exporter []).1;
      level = level_of args.log_level;
    }

    abbrev pub map_started : Args → SockAddr → Option (ℤ × ℤ) → Option Started
    map_started args srt_addr none = none
    map_started args srt_addr (some fds) = some (begin_with args srt_addr fds)

    unfoldable pub set_up : Args → Option Started
    unfolding open_srtla resolve_srt_address level_of
    set_up args =
        let (resolve_result, p) = resolve_srt_address probe servers recv_buf_size send_buf_size in
        if ltb_ℤ resolve_result (pos 0)
        then none
        else map_started args (or_zero_addr p.out_addr) (open_srtla args.srtla_port)

    -- The whole program, for the turns of its loop: `none` where it has returned EXIT_FAILURE.
    unfoldable pub main : Os → Float → Args → List (List Event × Option ℕ) → Option Receiver
    unfolding set_up
    main os fl args turns = loop_from os fl turns (set_up args)
