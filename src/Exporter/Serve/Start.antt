-- ===== src/Exporter/Serve/Start.antt =====
-- What Exporter::start of src/metrics/prometheus.cpp comes to.
use srtla.Base.{
  ℕ, ◌≡◌, refl, sym, ◌∙◌, ap, subst, Bool, true, false, ◌⊎◌, Bool-cases, inl, inr, Option, none,
  some, List, ◌∷◌, ◌==◌, ℤ, pos, negsuc, ltb_ℤ,
}
use srtla.Addr.{SockAddr, af_inet6}
use srtla.Exporter.{Exporter}
use srtla.Exporter.Serve.{
  Call, socket, get_flags, close, Kernel, make_ready, set_options, settle, listen_on, start,
}
use srtla.Exporter.Serve.Clients.{socket_of, made_none}
use srtla.Exporter.Serve.Deliveries.{open_sockets}
use srtla.NetworkUtils.Sockets.{made, remove_first, closed}
use srtla.Exporter.Serve.Ready.{Ready, make_ready-open, make_ready-Ready}

module _ (kernel : Kernel) where
  open kernel use {ret}

  -- What start comes to: the exporter listens on a socket that is open on top of the others.
  pub record Listening (epoll_fd : ℤ) (opened : List ℕ) (out : Bool × Exporter × List Call)
      : Type 0 where
    pub result : out.0 ≡ true
    pub fd : ℕ
    pub listen_fd : out.1.listen_fd ≡ pos fd
    pub on_top : open_sockets kernel out.2 ≡ fd ∷ opened
    pub addr : SockAddr
    pub before : List Call
    pub ready : Ready kernel (pos fd) addr epoll_fd before out.2

  -- Or it does not listen, and no socket is left open.
  pub record Silent (opened : List ℕ) (out : Bool × Exporter × List Call) : Type 0 where
    pub result : out.0 ≡ false
    pub listen_fd : out.1.listen_fd ≡ negsuc 0
    pub same_open : open_sockets kernel out.2 ≡ opened

  settle-true :
      (e : Exporter) (fd : ℤ) (r : Bool × List Call)
      → r.0 ≡ true
      → settle e fd r ≡ (true, record e { listen_fd = fd }, r.1)
  settle-true e fd (true, calls) h = refl
  settle-true e fd (false, calls) h = absurd (cc h)

  settle-false :
      (e : Exporter) (fd : ℤ) (r : Bool × List Call)
      → r.0 ≡ false
      → settle e fd r ≡ (false, e, close fd ∷ r.1)
  settle-false e fd (false, calls) h = refl
  settle-false e fd (true, calls) h = absurd (cc h)

  set_options-open :
      (fd : ℤ) (addr : SockAddr) (calls : List Call)
      → open_sockets kernel (set_options fd addr calls) ≡ open_sockets kernel calls
  unfolding set_options
  set_options-open fd addr calls = elim (Bool-cases (addr.family == af_inet6)) [
    | inl e ↦ rw e refl
    | inr e ↦ rw e refl
  ]

  -- From the new socket on.
  settled :
      (addr : SockAddr) (epoll_fd flags : ℤ) (e : Exporter) (n : ℕ) (calls : List Call)
      (opened : List ℕ)
      → e.listen_fd ≡ negsuc 0
      → open_sockets kernel calls ≡ n ∷ opened
      → Listening epoll_fd opened
          (settle e (pos n) (make_ready kernel (pos n) addr flags epoll_fd calls))
        ⊎ Silent opened (settle e (pos n) (make_ready kernel (pos n) addr flags epoll_fd calls))
  settled addr epoll_fd flags e n calls opened off o =
      let r = make_ready kernel (pos n) addr flags epoll_fd calls in
      let still = make_ready-open kernel (pos n) addr flags epoll_fd calls (n ∷ opened) o in
      elim (Bool-cases r.0) [
        | inl up ↦ inl (
            subst (Listening epoll_fd opened) (sym (settle-true e (pos n) r up)) (record {
              result = refl;
              fd = n;
              listen_fd = refl;
              on_top = still;
              addr = addr;
              before = calls;
              ready = make_ready-Ready kernel (pos n) addr flags epoll_fd calls up;
            }))
        | inr down ↦ inr (
            subst (Silent opened) (sym (settle-false e (pos n) r down)) (record {
              result = refl;
              listen_fd = off;
              same_open = ap (closed (pos n)) still ∙ remove_first n opened;
            }))
      ]

  listen_on-settles :
      (addr : SockAddr) (epoll_fd : ℤ) (e : Exporter) (calls : List Call)
      → e.listen_fd ≡ negsuc 0
      → let opened = open_sockets kernel calls in
        Listening epoll_fd opened (listen_on kernel addr epoll_fd e calls)
        ⊎ Silent opened (listen_on kernel addr epoll_fd e calls)
  unfolding listen_on
  listen_on-settles addr epoll_fd e calls off =
      elim (Bool-cases (ltb_ℤ (ret calls (socket addr.family)) (pos 0))) [
        | inl bad ↦ rw bad (
            inr (record {
              result = refl;
              listen_fd = off;
              same_open =
                  made_none (ret calls (socket addr.family)) (open_sockets kernel calls) bad;
            }))
        | inr good ↦
            let (n, is_n) = socket_of (ret calls (socket addr.family)) good in
            let calls1 = socket addr.family ∷ calls in
            let calls2 = set_options (pos n) addr calls1 in
            let o : open_sockets kernel calls2 ≡ n ∷ open_sockets kernel calls =
              set_options-open (pos n) addr calls1
              ∙ ap (λ z. made z (open_sockets kernel calls)) is_n in
            rw good (
              subst
                (λ z.
                  let calls2' = set_options z addr calls1 in
                  let out = settle e z (
                    make_ready kernel z addr (ret calls2' (get_flags z)) epoll_fd
                      (get_flags z ∷ calls2')) in
                  Listening epoll_fd (open_sockets kernel calls) out
                  ⊎ Silent (open_sockets kernel calls) out)
                (sym is_n)
                (settled addr epoll_fd (ret calls2 (get_flags (pos n))) e n
                  (get_flags (pos n) ∷ calls2) (open_sockets kernel calls) off o))
      ]

  -- A start of an exporter that does not listen yet returns true exactly if it listens from then on:
  -- its socket is then bound, listens, does not block, is watched by the epoll, and stands open on
  -- top of the sockets before. Otherwise nothing that it opened is left open.
  pub start-settles :
      (found : Option SockAddr) (time : ℤ) (port : ℕ) (epoll_fd : ℤ) (detailed : Bool)
      (e : Exporter) (calls : List Call)
      → e.listen_fd ≡ negsuc 0
      → let opened = open_sockets kernel calls in
        Listening epoll_fd opened (start kernel found time port epoll_fd detailed e calls)
        ⊎ Silent opened (start kernel found time port epoll_fd detailed e calls)
  unfolding start
  start-settles found time port epoll_fd detailed e calls off = elim (Bool-cases (port == 0)) [
    | inl disabled ↦ rw disabled (inr (record { result = refl; listen_fd = off; same_open = refl }))
    | inr enabled ↦
        rw enabled
          (elim found
            as (λ o.
              let e' = record e { detailed = detailed; start_time = time } in
              let out : Bool × Exporter × List Call = elim o [
                | none ↦ (false, e', calls)
                | some addr ↦ listen_on kernel addr epoll_fd e' calls
              ] in
              Listening epoll_fd (open_sockets kernel calls) out
              ⊎ Silent (open_sockets kernel calls) out) [
                | none ↦ inr (record { result = refl; listen_fd = off; same_open = refl })
                | some addr ↦
                    listen_on-settles addr epoll_fd
                      (record e { detailed = detailed; start_time = time }) calls off
              ])
  ]
