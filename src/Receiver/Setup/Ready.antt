-- ===== src/Receiver/Setup/Ready.antt =====
-- When main of src/receiver_main.cpp gets to its loop, and with what.
use srtla.Base.{
  ℕ, ◌≡◌, refl, ap, ◌⊎◌, inl, inr, ◌↔◌, Bool, true, false, Bool-cases, Option, none, some, List, [],
  ◌∷◌, ℤ, pos, ltb_ℤ,
}
use srtla.Addr.{SockAddr, af_inet6}
use srtla.Exporter.Serve
use srtla.Exporter.Serve.{Kernel, new_exporter}
use srtla.Float.{Float}
use srtla.NetworkUtils
use srtla.NetworkUtils.{resolve_srt_address}
use srtla.Os.{Os}
use srtla.Receiver.{start}
use srtla.Receiver.Loop.{Event, run}
use srtla.Receiver.Loop.Reachable.{run-Valid}
use srtla.Receiver.Quiet.{Valid}
use srtla.Receiver.Setup.{
  Args, Call, epoll_create1, socket, set_v6only_off, set_rcvbuf, set_sndbuf, get_flags,
  set_nonblock, bind, epoll_add, is_zero, not_error, listen_addr, Started, not_negative,
  listen_calls, or_zero_addr, run_calls, open_srtla, begin_with, map_started, set_up, main,
  loop_from,
}
use srtla.Wire.{recv_buf_size, send_buf_size}

module _ (ret : List Call → Call → ℤ) where
  -- Each call passes its test, after those before it.
  abbrev AllPass : List (Call × (ℤ → Bool)) → List Call → Type 0
  AllPass [] calls = Unit {0}
  AllPass ((k, test) ∷ rest) calls = (test (ret calls k) ≡ true) × AllPass rest (k ∷ calls)

  run_calls_iff :
      (row : List (Call × (ℤ → Bool))) (calls : List Call)
      → ((run_calls ret row calls).0 ≡ true) ↔ AllPass row calls
  unfolding run_calls
  run_calls_iff [] calls = ((λ e. tt), (λ p. refl))
  run_calls_iff ((k, test) ∷ rest) calls =
      let ih = run_calls_iff rest (k ∷ calls) in
      elim (Bool-cases (test (ret calls k))) [
        | inl e ↦ rw e ((λ h. (refl, ih.0 h)), (λ p. ih.1 p.1))
        | inr e ↦ rw e ((λ h. absurd (cc h)), (λ p. absurd (cc p.0)))
      ]

  abbrev pub epoll : ℤ
  epoll = ret [] epoll_create1

  abbrev pub sock : ℤ
  sock = ret (epoll_create1 ∷ []) (socket af_inet6)

  abbrev pub opened : List Call
  opened = socket af_inet6 ∷ epoll_create1 ∷ []

  abbrev pub buffered : List Call
  buffered = set_sndbuf sock ∷ set_rcvbuf sock ∷ set_v6only_off sock ∷ opened

  -- The socket takes IPv4 too, has its buffers, does not block, is bound to the port on every
  -- interface, and is watched by the epoll.
  pub record Open (port : ℕ) (epoll_fd srtla_sock : ℤ) : Type 0 where
    pub epoll_is : epoll ≡ epoll_fd
    pub epoll_made : not_negative epoll ≡ true
    pub sock_is : sock ≡ srtla_sock
    pub sock_made : not_negative sock ≡ true
    pub dual_stack : not_negative (ret opened (set_v6only_off sock)) ≡ true
    pub rcvbuf : is_zero (ret (set_v6only_off sock ∷ opened) (set_rcvbuf sock)) ≡ true
    pub sndbuf :
        is_zero (ret (set_rcvbuf sock ∷ set_v6only_off sock ∷ opened) (set_sndbuf sock)) ≡ true
    pub flags : not_error (ret buffered (get_flags sock)) ≡ true
    pub nonblocking : not_error (ret (get_flags sock ∷ buffered) (set_nonblock sock)) ≡ true
    pub bound :
        not_negative
          (ret (set_nonblock sock ∷ get_flags sock ∷ buffered) (bind sock (listen_addr port)))
        ≡ true
    pub watched :
        is_zero (
          ret
            (bind sock (listen_addr port) ∷ set_nonblock sock ∷ get_flags sock ∷ buffered)
            (epoll_add epoll sock))
        ≡ true

  Open-pass : (port : ℕ) → Open port epoll sock → AllPass (listen_calls epoll sock port) opened
  unfolding listen_calls
  Open-pass port o =
      (o.dual_stack, (o.rcvbuf, (o.sndbuf, (o.flags, (o.nonblocking, (o.bound, (o.watched, tt)))))))

  pass-Open :
      (port : ℕ)
      → not_negative epoll ≡ true
      → not_negative sock ≡ true
      → AllPass (listen_calls epoll sock port) opened
      → Open port epoll sock
  unfolding listen_calls
  pass-Open port e s (v, (r, (w, (f, (n, (b, (a, u))))))) = record {
    epoll_is = refl;
    epoll_made = e;
    sock_is = refl;
    sock_made = s;
    dual_stack = v;
    rcvbuf = r;
    sndbuf = w;
    flags = f;
    nonblocking = n;
    bound = b;
    watched = a;
  }

  open_srtla_cases :
      (port : ℕ)
      → (open_srtla ret port ≡ some (epoll, sock)) × Open port epoll sock
        ⊎ (open_srtla ret port ≡ none) × (Open port epoll sock → ⊥)
  unfolding open_srtla
  open_srtla_cases port = elim (Bool-cases (not_negative epoll)) [
    | inr e ↦ inr (rw e refl, (λ o. cc (e, o.epoll_made)))
    | inl e ↦ elim (Bool-cases (not_negative sock)) [
      | inr s ↦ inr (rw (e, s) refl, (λ o. cc (s, o.sock_made)))
      | inl s ↦
          let iff = run_calls_iff (listen_calls epoll sock port) opened in
          elim (Bool-cases (run_calls ret (listen_calls epoll sock port) opened).0) [
            | inl p ↦ inl (rw (e, s, p) refl, pass-Open port e s (iff.0 p))
            | inr n ↦ inr (rw (e, s, n) refl, (λ o. cc (n, iff.1 (Open-pass port o))))
          ]
    ]
  ]

  module _ (probe : List NetworkUtils.Call → NetworkUtils.Call → ℤ) (kernel : Kernel)
      (servers : Option (List SockAddr)) (metrics_addr : Option SockAddr) (time : ℤ) where
    abbrev resolved : ℤ × NetworkUtils.Probe
    resolved = resolve_srt_address probe servers recv_buf_size send_buf_size

    -- What main's loop begins with: the SRTLA socket as `Open` has it, the address that the probe of
    -- the SRT server has settled on, and the exporter as its start has left it.
    pub record Ready (args : Args) (s : Started) : Type 0 where
      pub resolves : ltb_ℤ resolved.0 (pos 0) ≡ false
      pub srt_addr : s.config.srt_addr ≡ or_zero_addr resolved.1.out_addr
      pub srtla : Open args.srtla_port s.config.epoll_fd s.srtla_sock
      pub exporter :
          s.exporter
          ≡ (Serve.start kernel metrics_addr time args.metrics_port s.config.epoll_fd
              args.metrics_detail new_exporter []).1

    -- Why main returns EXIT_FAILURE.
    pub data Failure (args : Args) : Type 0 where
      unresolved : ltb_ℤ resolved.0 (pos 0) ≡ true → Failure args
      refused : (Open args.srtla_port epoll sock → ⊥) → Failure args

    set_up_cases :
        (args : Args)
        → ((s : Started) × (set_up ret probe kernel servers metrics_addr time args ≡ some s)
            × Ready args s)
          ⊎ (set_up ret probe kernel servers metrics_addr time args ≡ none) × Failure args
    unfolding set_up
    set_up_cases args = elim (Bool-cases (ltb_ℤ resolved.0 (pos 0))) [
      | inl bad ↦ inr (rw bad refl, unresolved bad)
      | inr good ↦
          let srt_addr = or_zero_addr resolved.1.out_addr in
          elim (open_srtla_cases args.srtla_port) [
            | inl (e, o) ↦
                let s =
                  begin_with ret probe kernel servers metrics_addr time args srt_addr
                    (epoll, sock) in
                inl (
                  s,
                  rw good
                      (ap (map_started ret probe kernel servers metrics_addr time args srt_addr) e),
                  record { resolves = good; srt_addr = refl; srtla = o; exporter = refl },
                )
            | inr (e, why) ↦ inr (
              rw good (ap (map_started ret probe kernel servers metrics_addr time args srt_addr) e),
              refused why,
            )
          ]
    ]

    -- srtla_rec returns EXIT_FAILURE, for the reason that the SRT server has no address or that a call
    -- for the SRTLA socket has failed; or all these calls have passed, and after any turns of the
    -- loop, which has the settled address of the server, the table is valid. A failure of the exporter
    -- ends nothing.
    pub main-Valid :
        (os : Os) (fl : Float) (args : Args) (turns : List (List Event × Option ℕ))
        → ((s : Started) × Ready args s
            × (main ret probe kernel servers metrics_addr time os fl args turns
                ≡ some (run os fl s.config turns start))
            × Valid (run os fl s.config turns start))
          ⊎ (main ret probe kernel servers metrics_addr time os fl args turns ≡ none) × Failure args
    unfolding main
    main-Valid os fl args turns = elim (set_up_cases args) [
      | inl (s, e, ready) ↦
          inl (s, ready, ap (loop_from os fl turns) e, run-Valid os fl s.config turns)
      | inr (e, why) ↦ inr (ap (loop_from os fl turns) e, why)
    ]
