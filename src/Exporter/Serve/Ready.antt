-- ===== src/Exporter/Serve/Ready.antt =====
-- The socket of Exporter::start of src/metrics/prometheus.cpp, from bind on.
use srtla.Base.{
  ℕ, ◌≡◌, ◌≢◌, refl, ◌∙◌, ap, subst, Bool, true, Bool-cases, inl, inr, List, ◌∷◌, ℤ, pos, negsuc,
  arith,
}
use srtla.Addr.{SockAddr}
use srtla.Exporter.Serve.{
  Call, bind, listen, set_nonblock, epoll_add, Kernel, demand, watch, unblock, make_ready, is_zero,
  not_error,
}
use srtla.Exporter.Serve.Deliveries.{open_sockets}

module _ (kernel : Kernel) where
  open kernel use {ret}

  -- A call that neither makes nor closes a socket.
  abbrev Quiet : Call → Type 0
  Quiet k = (calls : List Call) → open_sockets kernel (k ∷ calls) ≡ open_sockets kernel calls

  demand-open :
      (k : Call) (ok : ℤ → Bool) (next : List Call → Bool × List Call) (calls : List Call)
      (opened : List ℕ)
      → Quiet k
      → ((after : List Call)
          → open_sockets kernel after ≡ opened
          → open_sockets kernel (next after).1 ≡ opened)
      → open_sockets kernel calls ≡ opened
      → open_sockets kernel (demand kernel k ok next calls).1 ≡ opened
  unfolding demand
  demand-open k ok next calls opened quiet h o = elim (Bool-cases (ok (ret calls k))) [
    | inl e ↦ rw e (h (k ∷ calls) (quiet calls ∙ o))
    | inr e ↦ rw e (quiet calls ∙ o)
  ]

  watch-open :
      (fd epoll_fd : ℤ) (calls : List Call) (opened : List ℕ)
      → open_sockets kernel calls ≡ opened
      → open_sockets kernel (watch kernel fd epoll_fd calls).1 ≡ opened
  unfolding watch
  watch-open fd epoll_fd calls opened =
      demand-open (epoll_add epoll_fd fd) is_zero (λ c. (true, c)) calls opened (λ c. refl)
        (λ c o. o)

  unblock-open :
      (fd flags epoll_fd : ℤ) (calls : List Call) (opened : List ℕ)
      → open_sockets kernel calls ≡ opened
      → open_sockets kernel (unblock kernel fd flags epoll_fd calls).1 ≡ opened
  unfolding unblock
  unblock-open fd flags epoll_fd calls opened o = elim (Bool-cases (not_error flags)) [
    | inl e ↦ rw e (
        demand-open (set_nonblock fd) not_error (watch kernel fd epoll_fd) calls opened (λ c. refl)
          (λ c. watch-open fd epoll_fd c opened) o)
    | inr e ↦ rw e o
  ]

  pub make_ready-open :
      (fd : ℤ) (addr : SockAddr) (flags epoll_fd : ℤ) (calls : List Call) (opened : List ℕ)
      → open_sockets kernel calls ≡ opened
      → open_sockets kernel (make_ready kernel fd addr flags epoll_fd calls).1 ≡ opened
  unfolding make_ready
  make_ready-open fd addr flags epoll_fd calls opened =
      demand-open (bind fd addr) is_zero
        (demand kernel (listen fd) is_zero (unblock kernel fd flags epoll_fd)) calls opened
        (λ c. refl)
        (λ calls1.
          demand-open (listen fd) is_zero (unblock kernel fd flags epoll_fd) calls1 opened
            (λ c. refl) (λ calls2. unblock-open fd flags epoll_fd calls2 opened))

  -- The socket is bound, listens, does not block, and is watched by the epoll.
  pub record Ready (fd : ℤ) (addr : SockAddr) (epoll_fd : ℤ) (calls after : List Call)
      : Type 0 where
    pub made : after ≡ epoll_add epoll_fd fd ∷ set_nonblock fd ∷ listen fd ∷ bind fd addr ∷ calls
    pub bound : ret calls (bind fd addr) ≡ pos 0
    pub listens : ret (bind fd addr ∷ calls) (listen fd) ≡ pos 0
    pub nonblocking : ret (listen fd ∷ bind fd addr ∷ calls) (set_nonblock fd) ≢ negsuc 0
    pub watched :
        ret (set_nonblock fd ∷ listen fd ∷ bind fd addr ∷ calls) (epoll_add epoll_fd fd) ≡ pos 0

  is_zero_iff : (z : ℤ) → is_zero z ≡ true → z ≡ pos 0
  is_zero_iff (pos n) h = ground (arith, h)
  is_zero_iff (negsuc n) h = absurd (cc h)

  not_error_iff : (z : ℤ) → not_error z ≡ true → z ≢ negsuc 0
  not_error_iff (pos n) h = λ e. cc e
  not_error_iff (negsuc n) h = λ e. absurd (ground (arith, h, e))

  demand-true :
      (k : Call) (ok : ℤ → Bool) (next : List Call → Bool × List Call) (calls : List Call)
      → (demand kernel k ok next calls).0 ≡ true
      → (ok (ret calls k) ≡ true) × (demand kernel k ok next calls ≡ next (k ∷ calls))
  unfolding demand
  demand-true k ok next calls h = elim (Bool-cases (ok (ret calls k))) [
    | inl e ↦ (e, rw e refl)
    | inr e ↦ absurd (cc (rw e at h))
  ]

  abbrev Passed : Bool × List Call → Type 0
  Passed r = r.0 ≡ true

  unblock-true :
      (fd flags epoll_fd : ℤ) (calls : List Call)
      → (unblock kernel fd flags epoll_fd calls).0 ≡ true
      → (not_error flags ≡ true)
        × (unblock kernel fd flags epoll_fd calls
            ≡ demand kernel (set_nonblock fd) not_error (watch kernel fd epoll_fd) calls)
  unfolding unblock
  unblock-true fd flags epoll_fd calls h = elim (Bool-cases (not_error flags)) [
    | inl e ↦ (e, rw e refl)
    | inr e ↦ absurd (cc (rw e at h))
  ]

  pub make_ready-Ready :
      (fd : ℤ) (addr : SockAddr) (flags epoll_fd : ℤ) (calls : List Call)
      → (make_ready kernel fd addr flags epoll_fd calls).0 ≡ true
      → Ready fd addr epoll_fd calls (make_ready kernel fd addr flags epoll_fd calls).1
  unfolding make_ready
  make_ready-Ready fd addr flags epoll_fd calls h =
      let calls1 = bind fd addr ∷ calls in
      let calls2 = listen fd ∷ calls1 in
      let calls3 = set_nonblock fd ∷ calls2 in
      let unblocked = unblock kernel fd flags epoll_fd in
      let watched' = watch kernel fd epoll_fd in
      let (b, e1) =
        demand-true (bind fd addr) is_zero (demand kernel (listen fd) is_zero unblocked) calls h in
      let h1 = subst Passed e1 h in
      let (l, e2) = demand-true (listen fd) is_zero unblocked calls1 h1 in
      let h2 = subst Passed e2 h1 in
      let (good, e3) = unblock-true fd flags epoll_fd calls2 h2 in
      let h3 = subst Passed e3 h2 in
      let (nb, e4) = demand-true (set_nonblock fd) not_error watched' calls2 h3 in
      let h4 = subst Passed e4 h3 in
      let (w, e5) =
        demand-true (epoll_add epoll_fd fd) is_zero (λ c. (true, c)) calls3 (unfold watch in h4) in
      record {
        made = ap (λ (r : Bool × List Call). r.1) (e1 ∙ e2 ∙ e3 ∙ e4 ∙ (unfold watch in e5));
        bound = is_zero_iff _ b;
        listens = is_zero_iff _ l;
        nonblocking = not_error_iff _ nb;
        watched = is_zero_iff _ w;
      }
