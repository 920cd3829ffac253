-- ===== src/NetworkUtils/Resolve.antt =====
-- What resolve_srt_address of src/utils/network_utils.cpp returns.
use srtla.Base.{
  ℕ, ◌≡◌, refl, sym, ◌∙◌, ap, subst, ◌⊎◌, inl, inr, true, false, Option, none, some, List, [], ◌∷◌,
  ◌==◌, if◌then◌else◌, ℤ, pos, negsuc, eqb_ℤ, Bool-cases,
}
use srtla.Addr.{SockAddr}
use srtla.NetworkUtils.{
  Call, close, Probe, begin, called, is_socket, probe_addr, probe_all, close_probe, is_inet,
  settle_addr, resolve_srt_address,
}
use srtla.NetworkUtils.Sockets.{
  remove, open_sockets, remove_first, Idle, Answered, probe_addr-settles,
}

module _ (ret : List Call → Call → ℤ) where
  abbrev pub OneOf : SockAddr → List SockAddr → Type 0
  OneOf a [] = ⊥
  OneOf a (b ∷ bs) = (a ≡ b) ⊎ OneOf a bs

  abbrev Settled : List SockAddr → Probe → Type 0
  Settled addrs p = Idle ret p ⊎ ((a : SockAddr) × OneOf a addrs × Answered ret a p)

  probe_all-stays :
      (addrs : List SockAddr) (rcv snd : ℕ) (p : Probe)
      → p.found ≡ true
      → probe_all ret addrs rcv snd p ≡ p
  unfolding probe_all
  probe_all-stays [] rcv snd p e = refl
  probe_all-stays (a ∷ addrs) rcv snd p e = simp e refl

  probe_all-settles :
      (addrs : List SockAddr) (rcv snd : ℕ) (p : Probe)
      → Idle ret p
      → Settled addrs (probe_all ret addrs rcv snd p)
  unfolding probe_all
  probe_all-settles [] rcv snd p w = inl w
  probe_all-settles (a ∷ addrs) rcv snd p w =
      let q = probe_addr ret a rcv snd p in
      let running : p.found ≡ false = w.found in
      let rest : Settled (a ∷ addrs) (probe_all ret addrs rcv snd q) =
        elim (probe_addr-settles ret a rcv snd p w) [
          | inl idle ↦ elim (probe_all-settles addrs rcv snd q idle) [
            | inl done ↦ inl done
            | inr (b, m, k) ↦ inr (b, inr m, k)
          ]
          | inr k ↦ inr (
            a,
            inl refl,
            subst (λ t. Answered ret a t) (sym (probe_all-stays addrs rcv snd q k.found)) k,
          )
        ] in
      subst (λ f. Settled (a ∷ addrs) (if f then p else probe_all ret addrs rcv snd q))
        (sym running) rest

  -- What comes back, and what is written through out_addr.
  abbrev pub Verdict : List SockAddr → ℤ → Option SockAddr → Type 0
  Verdict [] result out = (result ≡ negsuc 0) × (out ≡ none)
  Verdict (a ∷ addrs) result out =
      ((result ≡ pos 1) × (b : SockAddr) × (out ≡ some b) × OneOf b (a ∷ addrs))
      ⊎ ((result ≡ pos 0) × (out ≡ (if is_inet ret a.family then some a else none)))

  close_probe-Idle : (p : Probe) → Idle ret p → open_sockets ret (close_probe ret p).calls ≡ []
  close_probe-Idle p w = by_sock p.tmp_sock w.no_sock
    where
      by_sock :
          (t : ℤ)
          → is_socket ret t ≡ false
          → open_sockets ret (if eqb_ℤ t (negsuc 0) then p else called ret (close t) p).calls ≡ []
      by_sock (pos n) e = absurd (clash e)
        where
          clash : true ≡ false → ⊥
          clash e = cc
      by_sock (negsuc n) e = elim (Bool-cases (n == 0)) [
        | inl z ↦ rw z w.none_open
        | inr z ↦ rw z w.none_open
      ]

  close_probe-Answered :
      (a : SockAddr) (p : Probe)
      → Answered ret a p
      → open_sockets ret (close_probe ret p).calls ≡ []
  close_probe-Answered a p w =
      subst
        (λ t.
          open_sockets ret (if eqb_ℤ t (negsuc 0) then p else called ret (close t) p).calls ≡ [])
        (sym w.sock) (ap (λ t. remove w.fd t) w.one_open ∙ remove_first w.fd [])

  close_probe-rest :
      (p : Probe)
      → ((close_probe ret p).found ≡ p.found) × ((close_probe ret p).out_addr ≡ p.out_addr)
  close_probe-rest p = elim (Bool-cases (eqb_ℤ p.tmp_sock (negsuc 0))) [
    | inl e ↦ simp e (refl, refl)
    | inr e ↦ simp e (refl, refl)
  ]

  settle_addr-calls :
      (addrs : List SockAddr) (p : Probe) → (settle_addr ret addrs p).1.calls ≡ p.calls
  unfolding settle_addr
  settle_addr-calls [] p = elim (Bool-cases p.found) [ inl e ↦ simp e refl | inr e ↦ simp e refl ]
  settle_addr-calls (a ∷ addrs) p = elim (Bool-cases p.found) [
    | inl e ↦ simp e refl
    | inr e ↦
        simp e
          (elim (Bool-cases (is_inet ret a.family)) [ inl i ↦ simp i refl | inr i ↦ simp i refl ])
  ]

  settle_addr-Verdict_idle :
      (addrs : List SockAddr) (p : Probe)
      → p.found ≡ false
      → p.out_addr ≡ none
      → Verdict addrs (settle_addr ret addrs p).0 (settle_addr ret addrs p).1.out_addr
  unfolding settle_addr
  settle_addr-Verdict_idle [] p e u = simp e (refl, u)
  settle_addr-Verdict_idle (a ∷ addrs) p e u = simp e (
      inr
        (refl, elim (Bool-cases (is_inet ret a.family)) [ inl i ↦ simp i refl | inr i ↦ simp i u ]))

  settle_addr-Verdict_answered :
      (addrs : List SockAddr) (b : SockAddr) (p : Probe)
      → p.found ≡ true
      → p.out_addr ≡ some b
      → OneOf b addrs
      → Verdict addrs (settle_addr ret addrs p).0 (settle_addr ret addrs p).1.out_addr
  unfolding settle_addr
  settle_addr-Verdict_answered [] b p e u m = absurd m
  settle_addr-Verdict_answered (a ∷ addrs) b p e u m = simp e (inl (refl, b, u, m))

  -- The addresses that there are.
  abbrev pub resolved : Option (List SockAddr) → List SockAddr
  resolved none = []
  resolved (some addrs) = addrs

  -- Whatever the system calls return, every socket that resolve_srt_address makes is closed again.
  -- It returns 1 with one of the resolved addresses, or 0 with the first of them, which is left
  -- out only if it is neither IPv4 nor IPv6, or -1 exactly where there is none.
  pub resolve_srt_address-closes :
      (addrs : Option (List SockAddr)) (rcv snd : ℕ)
      → let r = resolve_srt_address ret addrs rcv snd in
        (open_sockets ret r.1.calls ≡ []) × Verdict (resolved addrs) r.0 r.1.out_addr
  unfolding resolve_srt_address
  resolve_srt_address-closes none rcv snd = (refl, (refl, refl))
  resolve_srt_address-closes (some addrs) rcv snd =
      let p = probe_all ret addrs rcv snd begin in
      let q = close_probe ret p in
      let k = close_probe-rest p in
      let same = settle_addr-calls addrs q in
      let idle : Idle ret begin = record {
        found = refl;
        no_sock = refl;
        none_open = refl;
        unset = refl;
      } in
      elim (probe_all-settles addrs rcv snd begin idle) [
        | inl w ↦ (
          ap (λ c. open_sockets ret c) same ∙ close_probe-Idle p w,
          settle_addr-Verdict_idle addrs q (k.0 ∙ w.found) (k.1 ∙ w.unset),
        )
        | inr (a, m, w) ↦ (
          ap (λ c. open_sockets ret c) same ∙ close_probe-Answered a p w,
          settle_addr-Verdict_answered addrs a q (k.0 ∙ w.found) (k.1 ∙ w.set_addr) m,
        )
      ]
