-- ===== src/Sender/Valid/Rounds.antt =====
-- What the main loop of src/sender.cpp leaves sound.
use srtla.Base.{
  ℕ, ◌≡◌, ap, inl, inr, Bool, true, false, not, Option, none, some, List, [], ◌∷◌, ◌==◌,
  if◌then◌else◌, arith, ℤ, Bool-cases, Option-cases,
}
use srtla.Sender.{Conn, Sender, Call, Result, ok, exited, ◌>>=◌, is_open, find_conn}
use srtla.Sender.Conns.{update_conns}
use srtla.Sender.Housekeeping.{connection_housekeeping}
use srtla.Sender.Receive.{Read}
use srtla.Sender.Select.{SrtRead, handle_srt_data}
use srtla.Sender.Loop.{
  Event, sighup, round, schedule_update_conns, update_if_due, read_srt, read_conn, read_conns,
  handle_round, handle_event, main_loop,
}
use srtla.Sender.Valid.{IsValid, Keeps-IsValid, handles, mem_handle}
use srtla.Sender.Valid.Log.{handle_srt_data-Keeps}
use srtla.Sender.Valid.Receive.{ValidOn, handle_srtla_data-ValidOn}
use srtla.Sender.Valid.Conns.{update_conns-ValidOn}
use srtla.Sender.Valid.Housekeeping.{connection_housekeeping-ValidOn}

find_conn-mem :
    (h : ℕ) (cs : List Conn) (c : Conn)
    → find_conn h cs ≡ some c
    → mem_handle c.handle (handles cs) ≡ true
unfolding find_conn
find_conn-mem h [] c e = absurd (clash e)
  where
    clash : none ≡ some c → ⊥
    clash e = cc
find_conn-mem h (d ∷ ds) c e = elim (Bool-cases (d.handle == h)) [
  | inl same ↦
      let found : some d ≡ some c = rw same at e in
      let eq : d.handle ≡ c.handle = ap (handle_of) found in ground (arith, eq)
  | inr other ↦
      let rest : find_conn h ds ≡ some c = rw other at e in
      ground (arith, find_conn-mem h ds c rest)
]
  where
    handle_of : Option Conn → ℕ
    handle_of none = 0
    handle_of (some c) = c.handle

module _ (inet_addr : List ℕ → List ℕ) (ret : List Call → Call → ℤ) (half : List ℕ) where
  pub >>=-ValidOn :
      (m : Result Sender) (f : Sender → Result Sender)
      → ValidOn ret half m
      → ((t : Sender) → IsValid half t → ValidOn ret half (f t))
      → ValidOn ret half (m >>= f)
  >>=-ValidOn (ok t) f v h = h t v
  >>=-ValidOn exited f v h = tt
  >>=-ValidOn Result.undefined f v h = tt

  flag-IsValid :
      (due : Bool) (s : Sender) → IsValid half s → IsValid half (record s { do_update_conns = due })
  flag-IsValid due s v = record {
    okay = v.okay;
    apart = v.apart;
    distinct = v.distinct;
    pending = v.pending;
    id_length = v.id_length;
    id_half = v.id_half;
  }

  update_if_due-ValidOn :
      (file : Option (List (List ℕ))) (s : Sender)
      → IsValid half s
      → ValidOn ret half (update_if_due inet_addr ret file s)
  unfolding update_if_due
  update_if_due-ValidOn file s v = by_due s.do_update_conns
    where
      by_due :
          (due : Bool)
          → ValidOn ret half (
              if due
              then (update_conns ret inet_addr file s >>= λ t.
                  ok (record t { do_update_conns = false }))
              else ok s)
      by_due true =
          >>=-ValidOn (update_conns ret inet_addr file s)
            (λ t. ok (record t { do_update_conns = false }))
            (update_conns-ValidOn ret inet_addr half file s v) (flag-IsValid false)
      by_due false = v

  read_conn-ValidOn :
      (reads : ℕ → Option Read) (c : Conn) (s : Sender)
      → mem_handle c.handle (handles s.conns) ≡ true
      → IsValid half s
      → ValidOn ret half (read_conn inet_addr ret reads c s)
  unfolding read_conn
  read_conn-ValidOn reads c s m v = elim (Bool-cases (not (is_open c.fd))) [
    | inl e ↦ rw e v
    | inr e ↦ rw e (elim (Option-cases (reads c.handle)) [
      | inl idle ↦ rw (idle, read_conn) v
      | inr (r, ready) ↦ rw (ready, read_conn) (handle_srtla_data-ValidOn ret half c r s m v)
    ])
  ]

  read_conns-ValidOn :
      (reads : ℕ → Option Read) (cs : List Conn) (s : Sender)
      → IsValid half s
      → ValidOn ret half (read_conns inet_addr ret reads cs s)
  unfolding read_conns
  read_conns-ValidOn reads [] s v = v
  read_conns-ValidOn reads (c ∷ cs) s v = elim (Option-cases (find_conn c.handle s.conns)) [
    | inl e ↦ rw (e, read_conns) (read_conns-ValidOn reads cs s v)
    | inr (d, e) ↦
        rw (e, read_conns)
          (>>=-ValidOn (read_conn inet_addr ret reads d s)
            (λ t. read_conns inet_addr ret reads cs t)
            (read_conn-ValidOn reads d s (find_conn-mem c.handle s.conns d e) v)
            (read_conns-ValidOn reads cs))
  ]

  read_srt-IsValid :
      (r : Option SrtRead) (s : Sender) → IsValid half s → IsValid half (read_srt inet_addr ret r s)
  read_srt-IsValid none s v = v
  read_srt-IsValid (some r) s v =
      Keeps-IsValid half s (handle_srt_data ret r s) (handle_srt_data-Keeps ret r s) v

  handle_event-ValidOn :
      (e : Event) (s : Sender) → IsValid half s → ValidOn ret half (handle_event inet_addr ret e s)
  unfolding handle_event handle_round schedule_update_conns
  handle_event-ValidOn sighup s v = flag-IsValid true s v
  handle_event-ValidOn (round r) s v =
      let reads = λ (t : Sender).
        let u = read_srt inet_addr ret r.from_srt t in
        read_conns inet_addr ret r.from_srtla u.conns u in
      >>=-ValidOn (update_if_due inet_addr ret r.file s)
        (λ t. connection_housekeeping ret r.ms t >>= reads) (update_if_due-ValidOn r.file s v)
        (λ t w.
          >>=-ValidOn (connection_housekeeping ret r.ms t) reads
            (connection_housekeeping-ValidOn ret half r.ms t w)
            (λ x y.
              let u = read_srt inet_addr ret r.from_srt x in
              read_conns-ValidOn r.from_srtla u.conns u (read_srt-IsValid r.from_srt x y)))

  pub main_loop-keeps :
      (es : List Event) (s : Sender)
      → IsValid half s
      → ValidOn ret half (main_loop inet_addr ret es s)
  unfolding main_loop
  main_loop-keeps [] s v = v
  main_loop-keeps (e ∷ es) s v =
      >>=-ValidOn (handle_event inet_addr ret e s) (λ t. main_loop inet_addr ret es t)
        (handle_event-ValidOn e s v) (main_loop-keeps es)
