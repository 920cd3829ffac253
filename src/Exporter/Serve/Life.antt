-- ===== src/Exporter/Serve/Life.antt =====
-- The life of the exporter: its sockets, from start to the destructor.
use srtla.Base.{
  ℕ, suc, ◌+◌, ◌≤◌, ◌<◌, ◌≡◌, refl, ◌∙◌, ap, Bool, inl, inr, Option, none, some, List, [], ◌∷◌, ℤ,
  pos, negsuc, length,
}
use srtla.Addr.{SockAddr}
use srtla.Exporter.{Exporter, Platform, render}
use srtla.Exporter.Serve.{Call, Kernel, response, start, destroy, new_exporter, handle_event}
use srtla.Exporter.Serve.Clients.{handle_event-Served, not_negative}
use srtla.Exporter.Serve.Deliveries.{deliveries, open_sockets, Sane}
use srtla.Exporter.Serve.Start.{start-settles}
use srtla.NetworkUtils.Sockets.{remove_first, closed}
use srtla.Receiver.{Receiver}

module _ (kernel : Kernel) where
  -- One event after another, each with the registry as it is by then.
  abbrev pub serve_events :
      Platform → ℕ → ℕ → Exporter → List Receiver → List Call → Option (List Call)
  serve_events os clients f e [] calls = some calls
  serve_events os clients f e (r ∷ rs) calls =
      let rest = serve_events os clients f e rs in
      elim (handle_event kernel os (suc clients) f e r calls) [
        | none ↦ none
        | some after ↦ rest after
      ]

  -- The fuel is enough for every response.
  abbrev pub Enough : Platform → ℕ → ℕ → Exporter → List Receiver → Type 0
  Enough os k f e [] = Unit {0}
  Enough os k f e (r ∷ rs) =
      ((now : ℕ) → length (response (render os e r now)) + k < f) × Enough os k f e rs

  module _ (os : Platform) (k clients f : ℕ) (sane : Sane kernel k)
      (few : (before : List Call) → length (deliveries kernel before) ≤ clients) where
    serve_events-open :
        (e : Exporter) (rs : List Receiver) (calls : List Call)
        → Enough os k f e rs
        → (after : List Call) × (serve_events os clients f e rs calls ≡ some after)
          × (open_sockets kernel after ≡ open_sockets kernel calls)
    serve_events-open e [] calls enough = (calls, refl, refl)
    serve_events-open e (r ∷ rs) calls enough =
        let (now, middle, ends, served) =
          handle_event-Served kernel os e r calls k clients f sane few enough.0 in
        let (after, goes_on, o) = serve_events-open e rs middle enough.1 in
        (
          after,
          ap
                (λ (m : Option (List Call)). elim m as (λ x. Option (List Call)) [
                  | none ↦ none
                  | some c ↦ serve_events os clients f e rs c
                ])
                ends
              ∙ goes_on,
          o ∙ served.same_open,
        )

    destroy_listening :
        (e : Exporter) (fd : ℕ) (calls : List Call) (opened : List ℕ)
        → e.listen_fd ≡ pos fd
        → open_sockets kernel calls ≡ fd ∷ opened
        → open_sockets kernel (destroy e calls) ≡ opened
    unfolding destroy
    destroy_listening e fd calls opened on o =
        rw (on, not_negative fd) (ap (closed (pos fd)) o ∙ remove_first fd opened)

    destroy_silent :
        (e : Exporter) (calls : List Call) → e.listen_fd ≡ negsuc 0 → destroy e calls ≡ calls
    unfolding destroy
    destroy_silent e calls off = rw off refl

    -- Whatever the address, the port and the results of the calls are: after start, any number of
    -- events, each of which comes to an end, and the destructor, the same sockets are open as before.
    pub exporter-closes :
        (found : Option SockAddr) (time : ℤ) (port : ℕ) (epoll_fd : ℤ) (detailed : Bool)
        (rs : List Receiver) (calls : List Call)
        → let out = start kernel found time port epoll_fd detailed new_exporter calls in
          Enough os k f out.1 rs
          → (after : List Call) × (serve_events os clients f out.1 rs out.2 ≡ some after)
            × (open_sockets kernel (destroy out.1 after) ≡ open_sockets kernel calls)
    exporter-closes found time port epoll_fd detailed rs calls enough =
        let out = start kernel found time port epoll_fd detailed new_exporter calls in
        let (after, ends, o) = serve_events-open out.1 rs out.2 enough in
        (
          after,
          ends,
          elim (start-settles kernel found time port epoll_fd detailed new_exporter calls refl) [
            | inl up ↦ destroy_listening out.1 up.fd after _ up.listen_fd (o ∙ up.on_top)
            | inr down ↦
                ap (open_sockets kernel) (destroy_silent out.1 after down.listen_fd)
                ∙ o
                ∙ down.same_open
          ],
        )
