-- ===== src/Sender/Housekeeping/GivesUp.antt =====
-- What connection_housekeeping of src/sender.cpp does where the receiver stays silent.
use srtla.Base.{
  ℕ, ◌+◌, ◌*◌, ◌/◌, ◌<◌, ◌≤◌, ◌≡◌, refl, ◌∙◌, inl, inr, Bool, true, false, not, some, List, [], ◌∷◌,
  ◌++◌, ltb, ◌==◌, arith, ℤ, Bool-cases,
}
use srtla.Addr.{SockAddr}
use srtla.Sender.{Conn, Sender, Call, Result, ok, exited, ◌>>=◌, global_timeout, housekeeping_int}
use srtla.Sender.Housekeeping.{
  try_addrs, next_addr, set_srtla_addr, failed_since, check_failed, kept, ran_at,
  connection_housekeeping,
}
use srtla.Sender.Housekeeping.Silent.{Silent, kept-Same}

module _ (ret : List Call → Call → ℤ) where
  -- What is left to do after ten seconds: the program ends, or tries the next address.
  abbrev pub GivesUp : Bool → List SockAddr → Result Sender → Type 0
  GivesUp true addrs r = r ≡ exited
  GivesUp false [] r = r ≡ exited
  GivesUp false (addr ∷ rest) r =
      (t : Sender) × (r ≡ ok t) × (t.srtla_addr ≡ addr) × (t.addrs ≡ rest) × (t.all_failed_at ≡ 0)

  -- All connections are silent at the time, and the failure was noted at f.
  record Waiting (time f : ℕ) (connected : Bool) (addrs : List SockAddr) (s : Sender) : Type 0 where
    silent : Silent time s.conns
    noted : s.all_failed_at ≡ f
    same_connected : s.has_connected ≡ connected
    same_addrs : s.addrs ≡ addrs
    not_late : s.last_ran ≤ f + 10000

  abbrev WaitingOn : ℕ → ℕ → Bool → List SockAddr → Result Sender → Type 0
  WaitingOn time f connected addrs (ok s) = Waiting time f connected addrs s
  WaitingOn time f connected addrs exited = ⊥
  WaitingOn time f connected addrs Result.undefined = ⊥

  Silent-later : (t u : ℕ) (cs : List Conn) → t ≤ u → Silent t cs → Silent u cs
  Silent-later t u [] h q = tt
  Silent-later t u (c ∷ cs) h q = (omega (arith, q.0), Silent-later t u cs h q.1)

  check-early :
      (ms : ℕ) (t : Sender)
      → t.active_connections ≡ 0
      → ms ≤ failed_since ret ms t + 10000
      → check_failed ret ms t ≡ ok (record t { all_failed_at = failed_since ret ms t })
  unfolding check_failed
  check-early ms t none_active early =
      let a : not (t.active_connections == 0) ≡ false = ground arith in
      let b : ltb (failed_since ret ms t + global_timeout * 1000) ms ≡ false = ground arith in
      simp (a, b) refl

  check-late :
      (ms : ℕ) (t : Sender)
      → t.active_connections ≡ 0
      → failed_since ret ms t + 10000 < ms
      → check_failed ret ms t ≡ next_addr ret (record t { all_failed_at = failed_since ret ms t })
  unfolding check_failed
  check-late ms t none_active late =
      let a : not (t.active_connections == 0) ≡ false = ground arith in
      let b : ltb (failed_since ret ms t + global_timeout * 1000) ms ≡ true = ground arith in
      simp (a, b) refl

  -- Housekeeping that is due, up to ten seconds after the failure.
  due-waits :
      (ms f : ℕ) (connected : Bool) (addrs : List SockAddr) (s : Sender)
      → ms ≤ f + 10000
      → Silent (ms / 1000) s.conns
      → failed_since ret ms s ≡ f
      → s.has_connected ≡ connected
      → s.addrs ≡ addrs
      → WaitingOn
          (ms / 1000)
          f
          connected
          addrs
          (ran_at ret ms (check_failed ret ms (kept ret (ms / 1000) s)))
  due-waits ms f connected addrs s early quiet since hc ha =
      let k = kept-Same ret (ms / 1000) s quiet in
      let t = kept ret (ms / 1000) s in
      let same = k.1 in
      let at : failed_since ret ms t ≡ f = rw same.failed_at since in
      rw (check-early ms t same.active (omega (arith, at))) (record {
        silent = k.0;
        noted = at;
        same_connected = same.connected ∙ hc;
        same_addrs = same.addrs ∙ ha;
        not_late = early;
      })

  noted-since : (ms f : ℕ) (s : Sender) → 0 < f → s.all_failed_at ≡ f → failed_since ret ms s ≡ f
  noted-since ms f s h e = ground arith

  run-waits :
      (prev ms f : ℕ) (connected : Bool) (addrs : List SockAddr) (s : Sender)
      → prev ≤ ms
      → ms ≤ f + 10000
      → 0 < f
      → Waiting (prev / 1000) f connected addrs s
      → WaitingOn (ms / 1000) f connected addrs (connection_housekeeping ret (some ms) s)
  unfolding connection_housekeeping
  run-waits prev ms f connected addrs s later early h w =
      let quiet = Silent-later (prev / 1000) (ms / 1000) s.conns (omega arith) w.silent in
      elim (Bool-cases (ltb ms (s.last_ran + housekeeping_int))) [
        | inl soon ↦ rw soon (record {
          silent = quiet;
          noted = w.noted;
          same_connected = w.same_connected;
          same_addrs = w.same_addrs;
          not_late = w.not_late;
        })
        | inr due ↦ rw due (
            due-waits ms f connected addrs s early quiet (noted-since ms f s h w.noted)
              w.same_connected w.same_addrs)
      ]

  try_addrs-GivesUp :
      (ms : ℕ) (connected : Bool) (addrs : List SockAddr) (t : Sender)
      → t.has_connected ≡ connected
      → t.addrs ≡ addrs
      → GivesUp connected addrs (ran_at ret ms (next_addr ret t))
  unfolding next_addr try_addrs set_srtla_addr
  try_addrs-GivesUp ms true addrs t hc ha = simp hc refl
  try_addrs-GivesUp ms false [] t hc ha = simp (hc, ha) refl
  try_addrs-GivesUp ms false (addr ∷ rest) t hc ha = (
    record t { srtla_addr = addr; addrs = rest; all_failed_at = 0; last_ran = ms },
    simp (hc, ha) refl,
    refl,
    refl,
    refl,
  )

  run-GivesUp :
      (prev ms f : ℕ) (connected : Bool) (addrs : List SockAddr) (s : Sender)
      → prev ≤ ms
      → f + 11000 ≤ ms
      → 0 < f
      → Waiting (prev / 1000) f connected addrs s
      → GivesUp connected addrs (connection_housekeeping ret (some ms) s)
  unfolding connection_housekeeping
  run-GivesUp prev ms f connected addrs s later late h w =
      let quiet = Silent-later (prev / 1000) (ms / 1000) s.conns (omega arith) w.silent in
      let k = kept-Same ret (ms / 1000) s quiet in
      let t = kept ret (ms / 1000) s in
      let same = k.1 in
      let since : failed_since ret ms s ≡ f = noted-since ms f s h w.noted in
      let at : failed_since ret ms t ≡ f = rw same.failed_at since in
      let due : ltb ms (s.last_ran + housekeeping_int) ≡ false =
        let l = w.not_late in ground arith in
      rw (due, check-late ms t same.active (omega (arith, at)))
        (try_addrs-GivesUp ms connected addrs (record t { all_failed_at = failed_since ret ms t })
          (same.connected ∙ w.same_connected) (same.addrs ∙ w.same_addrs))

  -- Housekeeping at each of the times.
  abbrev pub run_at : List ℕ → Sender → Result Sender
  run_at [] s = ok s
  run_at (ms ∷ times) s = connection_housekeeping ret (some ms) s >>= λ t. run_at times t

  -- Times that do not go back, up to ten seconds after f.
  abbrev pub Within : ℕ → ℕ → List ℕ → Type 0
  Within prev f [] = Unit {0}
  Within prev f (t ∷ ts) = (prev ≤ t) × (t ≤ f + 10000) × Within t f ts

  >>=-ok : (r : Result Sender) → (r >>= λ t. ok t) ≡ r
  >>=-ok (ok t) = refl
  >>=-ok exited = refl
  >>=-ok Result.undefined = refl

  times-GivesUp :
      (prev f last : ℕ) (times : List ℕ) (connected : Bool) (addrs : List SockAddr)
      (r : Result Sender)
      → prev ≤ f + 10000
      → Within prev f times
      → f + 11000 ≤ last
      → 0 < f
      → WaitingOn (prev / 1000) f connected addrs r
      → GivesUp connected addrs (r >>= λ s. run_at (times ++ last ∷ []) s)
  times-GivesUp prev f last [] connected addrs (ok s) hp hw hl h w =
      rw (>>=-ok (connection_housekeeping ret (some last) s))
        (run-GivesUp prev last f connected addrs s (omega arith) hl h w)
  times-GivesUp prev f last (ms ∷ times) connected addrs (ok s) hp hw hl h w =
      times-GivesUp ms f last times connected addrs (connection_housekeeping ret (some ms) s) hw.1
        hw.2 hl h (run-waits prev ms f connected addrs s hw.0 hw.1 h w)
  times-GivesUp prev f last times connected addrs exited hp hw hl h w = elim w [ ]
  times-GivesUp prev f last times connected addrs Result.undefined hp hw hl h w = elim w [ ]

  -- Where no connection has heard from the receiver within the last 4 seconds at a housekeeping
  -- that is due, with no failure noted so far, and housekeeping runs at any times from then on that
  -- do not go back, in the next 10 seconds and once 11 seconds or more after it, then srtla_send
  -- does not stay as it is: if it has been connected it ends, and if not it goes on to the next
  -- address of the receiver, or ends where there is none. So it does whatever the sockets return.
  pub Silent-GivesUp :
      (first last : ℕ) (times : List ℕ) (s : Sender)
      → Silent (first / 1000) s.conns
      → s.all_failed_at ≡ 0
      → s.last_ran + 1000 ≤ first
      → Within first first times
      → first + 11000 ≤ last
      → GivesUp s.has_connected s.addrs (run_at (first ∷ times ++ last ∷ []) s)
  unfolding connection_housekeeping
  Silent-GivesUp first last times s quiet none_noted due within late =
      let now : ltb first (s.last_ran + housekeeping_int) ≡ false = ground arith in
      let since : failed_since ret first s ≡ first = ground arith in
      let w = due-waits first first s.has_connected s.addrs s (omega arith) quiet since refl refl in
      rw now (
        times-GivesUp first first last times s.has_connected s.addrs
          (ran_at ret first (check_failed ret first (kept ret (first / 1000) s))) (omega arith)
          within late (omega arith) w)
