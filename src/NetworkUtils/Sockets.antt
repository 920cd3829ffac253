-- ===== src/NetworkUtils/Sockets.antt =====
-- What resolve_srt_address of src/utils/network_utils.cpp leaves behind.
use srtla.Base.{
  ℕ, ◌≡◌, refl, ◌∙◌, ap, ◌⊎◌, inl, inr, true, false, not, none, some, List, [], ◌∷◌, ◌==◌, ==_iff,
  if◌then◌else◌, ℤ, pos, negsuc, eqb_ℤ, Bool-cases,
}
use srtla.Addr.{SockAddr}
use srtla.Wire.{srt_handshake_len}
use srtla.NetworkUtils.{
  Call, socket, set_rcvbuf, set_sndbuf, set_rcvtimeo, connect, send, recv, close, Probe, called,
  close_tmp_sock, expect, succeed, probe_socket, hs_packet, is_socket, probe_addr,
}

abbrev pub remove : ℕ → List ℕ → List ℕ
remove n [] = []
remove n (x ∷ xs) = let rest = remove n xs in if x == n then xs else x ∷ rest

abbrev pub made : ℤ → List ℕ → List ℕ
made (pos n) open_fds = n ∷ open_fds
made (negsuc n) open_fds = open_fds

abbrev pub closed : ℤ → List ℕ → List ℕ
closed (pos n) open_fds = remove n open_fds
closed (negsuc n) open_fds = open_fds

pub remove_first : (n : ℕ) (xs : List ℕ) → remove n (n ∷ xs) ≡ xs
remove_first n xs = rw ((==_iff n n).1 refl) refl

module _ (ret : List Call → Call → ℤ) where
  -- The sockets that are open after the calls: those made and not closed again.
  abbrev pub open_sockets : List Call → List ℕ
  open_sockets [] = []
  open_sockets (socket family ∷ calls) = made (ret calls (socket family)) (open_sockets calls)
  open_sockets (set_rcvbuf fd size ∷ calls) = open_sockets calls
  open_sockets (set_sndbuf fd size ∷ calls) = open_sockets calls
  open_sockets (set_rcvtimeo fd seconds ∷ calls) = open_sockets calls
  open_sockets (connect fd addr ∷ calls) = open_sockets calls
  open_sockets (send fd buf ∷ calls) = open_sockets calls
  open_sockets (recv fd ∷ calls) = open_sockets calls
  open_sockets (close fd ∷ calls) = closed fd (open_sockets calls)

  -- Nothing is open, and no address has answered; or the socket to the address that has.
  pub record Idle (p : Probe) : Type 0 where
    pub found : p.found ≡ false
    pub no_sock : is_socket ret p.tmp_sock ≡ false
    pub none_open : open_sockets p.calls ≡ []
    pub unset : p.out_addr ≡ none

  pub record Answered (addr : SockAddr) (p : Probe) : Type 0 where
    pub found : p.found ≡ true
    pub set_addr : p.out_addr ≡ some addr
    pub fd : ℕ
    pub sock : p.tmp_sock ≡ pos fd
    pub one_open : open_sockets p.calls ≡ fd ∷ []

  -- A socket is open, and the probe of its address goes on.
  record Probing (fd : ℕ) (p : Probe) : Type 0 where
    not_found : p.found ≡ false
    sock : p.tmp_sock ≡ pos fd
    one_open : open_sockets p.calls ≡ fd ∷ []
    unset : p.out_addr ≡ none

  abbrev Quiet : Call → Type 0
  Quiet k = (calls : List Call) → open_sockets (k ∷ calls) ≡ open_sockets calls

  close_tmp_sock-Idle : (fd : ℕ) (p : Probe) → Probing fd p → Idle (close_tmp_sock ret p)
  unfolding close_tmp_sock
  close_tmp_sock-Idle fd p w = record {
    found = w.not_found;
    no_sock = refl;
    unset = w.unset;
    none_open =
        ap (λ t. closed t (open_sockets p.calls)) w.sock
        ∙ ap (λ t. remove fd t) w.one_open
        ∙ remove_first fd [];
  }

  expect-settles :
      (addr : SockAddr) (fd : ℕ) (k : Call) (v : ℤ) (next : Probe → Probe) (p : Probe)
      → Quiet k
      → ((q : Probe) → Probing fd q → Idle (next q) ⊎ Answered addr (next q))
      → Probing fd p
      → Idle (expect ret k v next p) ⊎ Answered addr (expect ret k v next p)
  unfolding expect
  expect-settles addr fd k v next p quiet h w =
      let q = called ret k p in
      let w' : Probing fd q = record {
        not_found = w.not_found;
        sock = w.sock;
        one_open = quiet p.calls ∙ w.one_open;
        unset = w.unset;
      } in
      elim (Bool-cases (eqb_ℤ (ret p.calls k) v)) [
        | inl e ↦ rw e (h q w')
        | inr e ↦ rw e (inl (close_tmp_sock-Idle fd q w'))
      ]

  probe_socket-settles :
      (fd : ℕ) (addr : SockAddr) (rcv snd : ℕ) (p : Probe)
      → Probing fd p
      → Idle (probe_socket ret (pos fd) addr rcv snd p)
        ⊎ Answered addr (probe_socket ret (pos fd) addr rcv snd p)
  unfolding probe_socket succeed
  probe_socket-settles fd addr rcv snd p =
      let s = pos fd in
      let end = succeed ret addr in
      let e5 = expect ret (recv s) (pos srt_handshake_len) end in
      let e4 = expect ret (send s (hs_packet)) (pos srt_handshake_len) e5 in
      let e3 = expect ret (connect s addr) (pos 0) e4 in
      let e2 = expect ret (set_rcvtimeo s 2) (pos 0) e3 in
      let e1 = expect ret (set_sndbuf s snd) (pos 0) e2 in
      expect-settles addr fd (set_rcvbuf s rcv) (pos 0) e1 p (λ c. refl)
        (λ q1.
          expect-settles addr fd (set_sndbuf s snd) (pos 0) e2 q1 (λ c. refl)
            (λ q2.
              expect-settles addr fd (set_rcvtimeo s 2) (pos 0) e3 q2 (λ c. refl)
                (λ q3.
                  expect-settles addr fd (connect s addr) (pos 0) e4 q3 (λ c. refl)
                    (λ q4.
                      expect-settles addr fd (send s hs_packet) (pos srt_handshake_len) e5 q4
                        (λ c. refl)
                        (λ q5.
                          expect-settles addr fd (recv s) (pos srt_handshake_len) end q5 (λ c. refl)
                            (λ q6 w. inr (record {
                              found = refl;
                              set_addr = refl;
                              fd = fd;
                              sock = w.sock;
                              one_open = w.one_open;
                            })))))))

  pub probe_addr-settles :
      (addr : SockAddr) (rcv snd : ℕ) (p : Probe)
      → Idle p
      → Idle (probe_addr ret addr rcv snd p) ⊎ Answered addr (probe_addr ret addr rcv snd p)
  unfolding probe_addr
  probe_addr-settles addr rcv snd p w = by_fd (ret p.calls (socket addr.family)) refl
    where
      by_fd :
          (fd : ℤ)
          → ret p.calls (socket addr.family) ≡ fd
          → let p' = record (called ret (socket addr.family) p) { tmp_sock = fd } in
            let q = if not (is_socket ret fd) then p' else probe_socket ret fd addr rcv snd p' in
            Idle q ⊎ Answered addr q
      by_fd (pos fd) e =
          probe_socket-settles fd addr rcv snd
            (record (called ret (socket addr.family) p) { tmp_sock = pos fd })
            (record {
              not_found = w.found;
              sock = refl;
              one_open = ap (λ t. made t (open_sockets p.calls)) e ∙ ap (λ t. fd ∷ t) w.none_open;
              unset = w.unset;
            })
      by_fd (negsuc n) e = inl (record {
        found = w.found;
        no_sock = refl;
        none_open = ap (λ t. made t (open_sockets p.calls)) e ∙ w.none_open;
        unset = w.unset;
      })
