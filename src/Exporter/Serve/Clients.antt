-- ===== src/Exporter/Serve/Clients.antt =====
-- What one event on the listening socket of the exporter comes to.
use mathlib.Core.List.{append_assoc}
use srtla.Base.{
  ℕ, zero, suc, ◌+◌, ◌-◌, ◌≤◌, ◌<◌, ◌≡◌, refl, sym, ◌∙◌, ap, subst, true, false, Bool-cases, inl,
  inr, Option, none, some, List, [], ◌∷◌, ◌++◌, ℤ, pos, negsuc, ltb_ℤ, length, arith,
}
use srtla.Exporter.{Exporter, Platform, render}
use srtla.Exporter.Serve.{
  Call, accept4, recv, close, Kernel, response, or_zero, close_after, serve_client, body_of,
  accept_all, handle_event,
}
use srtla.Exporter.Serve.Deliveries.{deliveries, open_sockets, Got, Sane}
use srtla.Exporter.Serve.Sent.{send_all-Sent}
use srtla.NetworkUtils.Sockets.{made, remove_first, closed}
use srtla.Receiver.{Receiver}
use srtla.Text.{Text}

pub not_negative : (n : ℕ) → ltb_ℤ (pos n) (pos 0) ≡ false
not_negative n = ground arith

pub socket_of : (z : ℤ) → ltb_ℤ z (pos 0) ≡ false → (fd : ℕ) × (z ≡ pos fd)
socket_of (pos n) h = (n, refl)
socket_of (negsuc n) h = absurd (ground (arith, h))

pub made_none : (z : ℤ) (fds : List ℕ) → ltb_ℤ z (pos 0) ≡ true → made z fds ≡ fds
made_none (pos n) fds h = absurd (ground (arith, h))
made_none (negsuc n) fds h = refl

module _ (kernel : Kernel) where
  open kernel use {ret, errno, seconds}

  abbrev pub AllGot : Text → List (ℤ × Text) → Type 0
  AllGot text [] = Unit {0}
  AllGot text ((client, t) ∷ ts) = Got kernel client text t × AllGot text ts

  AllGot-append :
      (text : Text) (ts : List (ℤ × Text)) (client : ℤ) (t : Text)
      → AllGot text ts
      → Got kernel client text t
      → AllGot text (ts ++ (client, t) ∷ [])
  AllGot-append text [] client t h g = (g, tt)
  AllGot-append text (u ∷ ts) client t h g = (h.0, AllGot-append text ts client t h.1 g)

  -- Some clients have come and gone: each got the response or a front of it, and its socket is closed.
  pub record Served (body : Text) (before after : List Call) : Type 0 where
    pub new : List (ℤ × Text)
    pub got : AllGot (response body) new
    pub delivered : deliveries kernel after ≡ new ++ deliveries kernel before
    pub same_open : open_sockets kernel after ≡ open_sockets kernel before

  abbrev Ends : Text → List Call → Option (List Call) → Type 0
  Ends body before result = (after : List Call) × (result ≡ some after) × Served body before after

  abbrev OneServed : Text → List Call → Option (List Call) → Type 0
  OneServed text before result =
      (after : List Call) × (result ≡ some after)
      × (client : ℤ) × (got : Text) × Got kernel client text got
      × (deliveries kernel after ≡ (client, got) ∷ deliveries kernel before)
      × (open_sockets kernel after ≡ open_sockets kernel before)

  -- One client, from its accept4 on.
  module _ (k : ℕ) (sane : Sane kernel k) (fd f : ℕ) (text : Text) (before : List Call)
      (listen_fd : ℤ) where
    abbrev accepted : List Call
    accepted = accept4 listen_fd ∷ before

    serve_client-Sent :
        ret before (accept4 listen_fd) ≡ pos fd
        → length text + k < f
        → OneServed text before
            (serve_client kernel f (ret before (accept4 listen_fd)) text accepted)
    unfolding serve_client
    serve_client-Sent e enough =
        let fresh : deliveries kernel (recv (pos fd) ∷ accepted)
            ≡ (pos fd, []) ∷ deliveries kernel before =
          rw (e, not_negative fd) refl in
        let (after, ends, s) =
          send_all-Sent kernel k sane (pos fd) text (deliveries kernel before) f 0
            (recv (pos fd) ∷ accepted) (omega arith) fresh (omega (arith, enough)) in
        let opened : open_sockets kernel accepted ≡ fd ∷ open_sockets kernel before = rw e refl in
        subst (λ z. OneServed text before (serve_client kernel f z text accepted)) (sym e)
          (
            close (pos fd) ∷ after,
            ap (close_after (pos fd)) ends,
            pos fd,
            s.got,
            s.is_got,
            s.delivered,
            ap (closed (pos fd)) (s.same_open ∙ opened)
                ∙ remove_first fd (open_sockets kernel before),
          )

  module _ (body_at : ℕ → Text) (listen_fd : ℤ) where
    abbrev after_client : ℕ → ℕ → Text → Option (List Call) → Option (List Call)
    after_client rounds f body none = none
    after_client rounds f body (some calls) =
        accept_all kernel body_at rounds f listen_fd (some body) calls

    no_client :
        (rounds f : ℕ) (rendered : Option Text) (calls : List Call)
        → ltb_ℤ (ret calls (accept4 listen_fd)) (pos 0) ≡ true
        → accept_all kernel body_at (suc rounds) f listen_fd rendered calls
          ≡ some (accept4 listen_fd ∷ calls)
    unfolding accept_all
    no_client rounds f rendered calls h = rw h refl

    one_client :
        (rounds f : ℕ) (rendered : Option Text) (calls : List Call)
        → ltb_ℤ (ret calls (accept4 listen_fd)) (pos 0) ≡ false
        → let calls1 = accept4 listen_fd ∷ calls in
          let body = body_of kernel body_at rendered calls1 in
          accept_all kernel body_at (suc rounds) f listen_fd rendered calls
          ≡ after_client rounds f body
              (serve_client kernel f (ret calls (accept4 listen_fd)) (response body) calls1)
    unfolding accept_all
    one_client rounds f rendered calls h = rw h refl

    module _ (k : ℕ) (sane : Sane kernel k) (clients f : ℕ)
        (few : (calls : List Call) → length (deliveries kernel calls) ≤ clients) where
      served_on :
          (body : Text) (before middle : List Call) (client : ℤ) (got : Text)
          (r : Option (List Call))
          → Got kernel client (response body) got
          → deliveries kernel middle ≡ (client, got) ∷ deliveries kernel before
          → open_sockets kernel middle ≡ open_sockets kernel before
          → Ends body middle r
          → Ends body before r
      served_on body before middle client got r g d o (after, e, s) = (
        after,
        e,
        record {
          new = s.new ++ (client, got) ∷ [];
          got = AllGot-append (response body) s.new client got s.got g;
          delivered =
              s.delivered
              ∙ ap (λ ds. s.new ++ ds) d
              ∙ sym (append_assoc s.new ((client, got) ∷ []) _);
          same_open = s.same_open ∙ o;
        },
      )

      -- With fuel for one round more than there are clients, the loop over accept4 ends.
      accept_all-Served :
          (rounds : ℕ) (rendered : Option Text) (calls : List Call) (body : Text)
          → body_of kernel body_at rendered (accept4 listen_fd ∷ calls) ≡ body
          → length (response body) + k < f
          → clients - length (deliveries kernel calls) < rounds
          → Ends body calls (accept_all kernel body_at rounds f listen_fd rendered calls)
      accept_all-Served zero rendered calls body b enough lt = absurd (omega arith)
      accept_all-Served (suc rounds) rendered calls body b enough lt =
          elim (Bool-cases (ltb_ℤ (ret calls (accept4 listen_fd)) (pos 0))) [
            | inl none_left ↦ (
              accept4 listen_fd ∷ calls,
              no_client rounds f rendered calls none_left,
              record {
                new = [];
                got = tt;
                delivered = rw none_left refl;
                same_open = made_none (ret calls (accept4 listen_fd)) _ none_left;
              },
            )
            | inr one ↦
                let (fd, is_fd) = socket_of (ret calls (accept4 listen_fd)) one in
                let (middle, served, client, got, is_got, d, o) =
                  serve_client-Sent k sane fd f (response body) calls listen_fd is_fd enough in
                let goes_on : accept_all kernel body_at (suc rounds) f listen_fd rendered calls
                    ≡ accept_all kernel body_at rounds f listen_fd (some body) middle =
                  one_client rounds f rendered calls one
                  ∙ ap
                      (λ t. after_client rounds f t (
                        serve_client kernel f (ret calls (accept4 listen_fd)) (response t)
                          (accept4 listen_fd ∷ calls)))
                      b
                  ∙ ap (after_client rounds f body) served in
                subst (Ends body calls) (sym goes_on) (
                  served_on body calls middle client got _ is_got d o (
                    accept_all-Served rounds (some body) middle body refl enough
                      (let l = few middle in let m = ap (length {A = ℤ × Text}) d in omega arith)))
          ]

  -- With finitely many clients, and sends that take no more than they are given and are interrupted
  -- at most `k` times, an event on the listening socket comes to an end: every client that is accepted
  -- gets, on the descriptor that accept4 gave for it, the response with one and the same scrape,
  -- or a front of it where a send of the rest fails, and then its socket is closed.
  pub handle_event-Served :
      (os : Platform) (e : Exporter) (r : Receiver) (calls : List Call) (k clients f : ℕ)
      → Sane kernel k
      → ((before : List Call) → length (deliveries kernel before) ≤ clients)
      → ((now : ℕ) → length (response (render os e r now)) + k < f)
      → (now : ℕ) × (after : List Call) × (handle_event kernel os (suc clients) f e r calls
          ≡ some after)
        × Served (render os e r now) calls after
  unfolding handle_event
  handle_event-Served os e r calls k clients f sane few enough =
      let now = or_zero (seconds (accept4 e.listen_fd ∷ calls)) in
      let (after, ends, served) =
        accept_all-Served (render os e r) e.listen_fd k sane clients f few (suc clients) none calls
          (render os e r now) refl (enough now) (omega arith) in
      (now, after, ends, served)
