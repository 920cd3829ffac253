-- ===== src/Exporter/Serve.antt =====
-- The calls of the operating system in Exporter of src/metrics/prometheus.cpp: handle_event, start
-- and the destructor. A state is the list of the calls made so far, the newest first.
pub mod Deliveries
pub mod Sent
pub mod Clients
pub mod Http
pub mod Ready
pub mod Start
pub mod Life
use srtla.Base.{
  ℕ, zero, suc, ◌+◌, Bool, true, false, not, ◌&&◌, Option, none, some, List, [], ◌∷◌, ◌++◌, ltb,
  ◌==◌, if◌then◌else◌, ℤ, pos, negsuc, pos_part, ltb_ℤ, eqb_ℤ, length, drop,
}
use srtla.Addr.{SockAddr, af_inet6}
use srtla.Exporter.{Exporter, Platform, render}
use srtla.Receiver.{Receiver}
use srtla.Text.{Text, codes, to_string}

pub data Call : Type 0 where
  accept4 : ℤ → Call
  recv : ℤ → Call
  send : ℤ → Text → Call
  close : ℤ → Call
  socket : ℕ → Call
  set_reuseaddr set_v6only_off : ℤ → Call
  get_flags set_nonblock : ℤ → Call
  bind : ℤ → SockAddr → Call
  listen : ℤ → Call
  epoll_add : ℤ → ℤ → Call

-- The results, from the calls made before; `seconds` is `none` where clock_gettime fails.
pub record Kernel : Type 0 where
  pub ret : List Call → Call → ℤ
  pub errno : List Call → ℕ
  pub seconds : List Call → Option ℕ

abbrev pub eintr : ℕ
eintr = 4

unfoldable pub response : Text → Text
response body =
    codes "HTTP/1.1 200 OK\r\nContent-Type: text/plain; version=0.0.4\r\nContent-Length: "
    ++ (to_string (length body) ++ (codes "\r\nConnection: close\r\n\r\n" ++ body))

-- `time_t now = 0; get_seconds(&now);`
abbrev pub or_zero : Option ℕ → ℕ
or_zero none = 0
or_zero (some t) = t

abbrev pub close_after : ℤ → Option (List Call) → Option (List Call)
close_after client none = none
close_after client (some calls) = some (close client ∷ calls)

abbrev pub is_zero : ℤ → Bool
is_zero n = eqb_ℤ n (pos 0)

abbrev pub not_error : ℤ → Bool
not_error n = not (eqb_ℤ n (negsuc 0))

-- The options of the new socket.
unfoldable pub set_options : ℤ → SockAddr → List Call → List Call
set_options fd addr calls =
    if addr.family == af_inet6
    then set_v6only_off fd ∷ set_reuseaddr fd ∷ calls
    else set_reuseaddr fd ∷ calls

abbrev pub settle : Exporter → ℤ → Bool × List Call → Bool × Exporter × List Call
settle e fd (true, calls) = (true, record e { listen_fd = fd }, calls)
settle e fd (false, calls) = (false, e, close fd ∷ calls)

module _ (kernel : Kernel) where
  open kernel use {ret, errno, seconds}

  -- The loop over send, with fuel: `none` means that it ran out.
  unfoldable pub send_all : ℕ → ℤ → Text → ℕ → List Call → Option (List Call)
  send_all zero client text sent calls = none
  send_all (suc f) client text sent calls =
      let k = send client (drop sent text) in
      let n = ret calls k in
      let again = send_all f client text sent (k ∷ calls) in
      let onward = send_all f client text (sent + pos_part n) (k ∷ calls) in
      if not (ltb sent (length text))
      then some calls
      else if ltb_ℤ (pos 0) n
      then onward
      else if errno (k ∷ calls) == eintr
      then again
      else some (k ∷ calls)

  unfoldable pub serve_client : ℕ → ℤ → Text → List Call → Option (List Call)
  unfolding send_all
  serve_client f client text calls =
      close_after client (send_all f client text 0 (recv client ∷ calls))

  module _ (body_at : ℕ → Text) where
    -- The body is rendered for the first client, and kept.
    abbrev pub body_of : Option Text → List Call → Text
    body_of none calls = body_at (or_zero (seconds calls))
    body_of (some body) calls = body

    -- The loop over accept4, with fuel for the rounds and for the sends.
    unfoldable pub accept_all : ℕ → ℕ → ℤ → Option Text → List Call → Option (List Call)
    unfolding serve_client
    accept_all zero f listen_fd rendered calls = none
    accept_all (suc rounds) f listen_fd rendered calls =
        let client = ret calls (accept4 listen_fd) in
        let calls1 = accept4 listen_fd ∷ calls in
        let body = body_of rendered calls1 in
        let next : Option (List Call) = elim (serve_client f client (response body) calls1) [
          | none ↦ none
          | some calls2 ↦ accept_all rounds f listen_fd (some body) calls2
        ] in
        if ltb_ℤ client (pos 0) then some calls1 else next

  unfoldable pub handle_event :
      Platform → ℕ → ℕ → Exporter → Receiver → List Call → Option (List Call)
  unfolding accept_all
  handle_event os rounds f e r calls = accept_all (render os e r) rounds f e.listen_fd none calls

  -- A call that has to succeed for what follows it.
  unfoldable pub demand :
      Call → (ℤ → Bool) → (List Call → Bool × List Call) → List Call → Bool × List Call
  demand k ok next calls = if ok (ret calls k) then next (k ∷ calls) else (false, k ∷ calls)

  -- The chain of `&&` that sets `ok`, from its end.
  unfoldable pub watch : ℤ → ℤ → List Call → Bool × List Call
  unfolding demand
  watch fd epoll_fd = demand (epoll_add epoll_fd fd) is_zero (λ calls. (true, calls))

  unfoldable pub unblock : ℤ → ℤ → ℤ → List Call → Bool × List Call
  unfolding demand watch
  unblock fd flags epoll_fd calls =
      if not_error flags
      then demand (set_nonblock fd) not_error (watch fd epoll_fd) calls
      else (false, calls)

  unfoldable pub make_ready : ℤ → SockAddr → ℤ → ℤ → List Call → Bool × List Call
  unfolding demand unblock
  make_ready fd addr flags epoll_fd =
      demand (bind fd addr) is_zero (demand (listen fd) is_zero (unblock fd flags epoll_fd))

  unfoldable pub listen_on : SockAddr → ℤ → Exporter → List Call → Bool × Exporter × List Call
  unfolding make_ready set_options
  listen_on addr epoll_fd e calls =
      let fd = ret calls (socket addr.family) in
      let calls1 = socket addr.family ∷ calls in
      let calls2 = set_options fd addr calls1 in
      let calls3 = get_flags fd ∷ calls2 in
      if ltb_ℤ fd (pos 0)
      then (false, e, calls1)
      else settle e fd (make_ready fd addr (ret calls2 (get_flags fd)) epoll_fd calls3)

  -- `found` is the first address that getaddrinfo gives for the one to bind to, `none` where it
  -- fails; `time` is what time() returns. The first component is the result.
  unfoldable pub start :
      Option SockAddr → ℤ → ℕ → ℤ → Bool → Exporter → List Call → Bool × Exporter × List Call
  unfolding listen_on
  start found time port epoll_fd detailed e calls =
      let e' = record e { detailed = detailed; start_time = time } in
      if port == 0
      then (false, e', calls)
      else elim found [ none ↦ (false, e', calls) | some addr ↦ listen_on addr epoll_fd e' calls ]

-- ~Exporter
unfoldable pub destroy : Exporter → List Call → List Call
destroy e calls = if ltb_ℤ e.listen_fd (pos 0) then calls else close e.listen_fd ∷ calls

-- The constructor.
abbrev pub new_exporter : Exporter
new_exporter = record { listen_fd = negsuc 0; detailed = false; start_time = pos 0 }
