-- ===== src/Sender/Valid/Reachable.antt =====
-- The states that srtla_send of src/sender.cpp reaches.
use srtla.Base.{
  ℕ, zero, suc, ◌+◌, ◌≡◌, refl, ◌∙◌, ap, inl, inr, not, Option, none, some, List, [], ◌∷◌, ◌++◌,
  length, length-append, length-replicate, replicate, take, ltb, ◌==◌, arith, ℤ, Bool-cases,
}
use srtla.Addr.{SockAddr}
use srtla.Sender.{Sender, Call, ◌>>=◌, socket, bind, is_open, add_active_fd}
use srtla.Sender.Conns.{setup_lines, setup_conns, open_conns}
use srtla.Sender.Housekeeping.{set_srtla_addr}
use srtla.Sender.Loop.{
  Event, Setup, globals, main_loop, listen, connect_first, set_up, set_up_sockets, first_addr,
}
use srtla.Sender.Valid.{KeepsConns-refl, Keeps-trans, IsValid, Keeps-IsValid}
use srtla.Sender.Valid.Receive.{ValidOn}
use srtla.Sender.Valid.Lines.{setup_lines-IsValid}
use srtla.Sender.Valid.Sockets.{add_active_fd-Keeps, open_conns-Keeps}
use srtla.Sender.Valid.Rounds.{>>=-ValidOn, main_loop-keeps}

module _ (inet_addr : List ℕ → List ℕ) (ret : List Call → Call → ℤ) (half : List ℕ) where
  listen-ValidOn :
      (addr : SockAddr) (s : Sender)
      → IsValid half s
      → ValidOn ret half (listen inet_addr ret addr s)
  unfolding listen add_active_fd
  listen-ValidOn addr s v =
      let fd = ret s.calls socket in
      let bound = ret (socket ∷ s.calls) (bind fd addr) in
      let t = record s { listenfd = fd; calls = bind fd addr ∷ socket ∷ s.calls } in
      elim (Bool-cases (not (is_open fd))) [
        | inl e ↦ rw e tt
        | inr e ↦ simp e (elim (Bool-cases (not (is_open bound))) [
          | inl e ↦ simp e tt
          | inr e ↦ simp e (
              Keeps-IsValid half s (add_active_fd fd t)
                (Keeps-trans s t (add_active_fd fd t)
                  (record {
                    conns_kept = KeepsConns-refl s.conns;
                    next_kept = refl;
                    pending_kept = refl;
                    id_kept = refl;
                  })
                  (add_active_fd-Keeps fd t))
                v)
        ])
      ]

  first_addr-ValidOn :
      (resolved : List SockAddr) (s : Sender)
      → IsValid half s
      → ValidOn ret half (first_addr inet_addr ret resolved s)
  unfolding first_addr set_srtla_addr
  first_addr-ValidOn [] s v = tt
  first_addr-ValidOn (addr ∷ rest) s v = record {
    okay = v.okay;
    apart = v.apart;
    distinct = v.distinct;
    pending = v.pending;
    id_length = v.id_length;
    id_half = v.id_half;
  }

  connect_first-ValidOn :
      (resolved : List SockAddr) (s : Sender)
      → IsValid half s
      → ValidOn ret half (connect_first inet_addr ret resolved s)
  unfolding connect_first
  connect_first-ValidOn resolved s v =
      let w = Keeps-IsValid half s (open_conns ret s).1 (open_conns-Keeps ret s) v in
      elim (Bool-cases (ltb (open_conns ret s).0 1)) [
        | inl e ↦ rw e tt
        | inr e ↦ rw e (first_addr-ValidOn resolved (open_conns ret s).1 w)
      ]

take-append : {A : Type 0} (n : ℕ) (xs ys : List A) → length xs ≡ n → take n (xs ++ ys) ≡ xs
take-append zero [] ys e = refl
take-append zero (x ∷ xs) ys e = absurd (omega (arith, e))
take-append (suc n) [] ys e = absurd (omega (arith, e))
take-append (suc n) (x ∷ xs) ys e = ap (λ t. x ∷ t) (take-append n xs ys (omega (arith, e)))

globals-IsValid : IsValid (replicate 128 0) globals
globals-IsValid = record {
  okay = tt;
  apart = tt;
  distinct = tt;
  pending = tt;
  id_length = length-replicate {A = ℕ} 256 0;
  id_half = refl;
}

module _ (inet_addr : List ℕ → List ℕ) (ret : List Call → Call → ℤ) where
  new_id-IsValid :
      (half random : List ℕ) (s : Sender)
      → length random ≡ 128
      → IsValid half s
      → IsValid random (record s { srtla_id = random ++ replicate 128 0 })
  new_id-IsValid half random s n v = record {
    okay = v.okay;
    apart = v.apart;
    distinct = v.distinct;
    pending = v.pending;
    id_length = length-append random (replicate 128 0) ∙ ap (λ t. t + 128) n;
    id_half = take-append 128 random (replicate 128 0) n;
  }

  set_up_sockets-ValidOn :
      (half : List ℕ) (u : Setup) (made : ℕ × Sender)
      → length u.random ≡ 128
      → IsValid half made.1
      → ValidOn ret u.random (set_up_sockets inet_addr ret u made)
  unfolding set_up_sockets
  set_up_sockets-ValidOn half u (count, s) n v =
      let t = record s { srtla_id = u.random ++ replicate 128 0 } in
      elim (Bool-cases (count == 0)) [
        | inl e ↦ rw e tt
        | inr e ↦ rw e (
            >>=-ValidOn inet_addr ret u.random (listen inet_addr ret u.listen_addr t)
              (λ x. connect_first inet_addr ret u.resolved x)
              (listen-ValidOn inet_addr ret u.random u.listen_addr t
                (new_id-IsValid half u.random s n v))
              (connect_first-ValidOn inet_addr ret u.random u.resolved))
      ]

  set_up-ValidOn :
      (u : Setup) → length u.random ≡ 128 → ValidOn ret u.random (set_up inet_addr ret u)
  unfolding set_up setup_conns
  set_up-ValidOn u n = by_file u.file
    where
      by_file :
          (file : Option (List (List ℕ)))
          → ValidOn ret u.random (
              setup_conns inet_addr file globals >>= λ counted.
              set_up_sockets inet_addr ret u counted)
      by_file none = tt
      by_file (some lines) =
          set_up_sockets-ValidOn (replicate 128 0) u (setup_lines inet_addr lines 0 globals) n
            (setup_lines-IsValid inet_addr (replicate 128 0) lines 0 globals globals-IsValid)

  -- Where the 128 random bytes are read: from the start, whatever the file, the packets, the times
  -- and the results of the system calls are, and whenever SIGHUP arrives, srtla_send ends, or meets
  -- behaviour that C++ leaves undefined, or is in a sound state: the packet log and its index are
  -- within bounds on every connection and its window is one packet at least, no two connections
  -- have one source or one identity, pending_reg2_conn is null or one of the connections, and the
  -- id has 256 bytes, of which the first half is still the random bytes.
  pub main_loop-IsValid :
      (u : Setup) (events : List Event)
      → length u.random ≡ 128
      → ValidOn ret u.random (set_up inet_addr ret u >>= λ s. main_loop inet_addr ret events s)
  main_loop-IsValid u events n =
      >>=-ValidOn inet_addr ret u.random (set_up inet_addr ret u)
        (λ s. main_loop inet_addr ret events s) (set_up-ValidOn u n)
        (main_loop-keeps inet_addr ret u.random events)
