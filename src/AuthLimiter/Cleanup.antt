-- ===== src/AuthLimiter/Cleanup.antt =====
-- cleanup of src/utils/auth_rate_limiter.cpp drops entries, and nobody can tell.
use srtla.Base.{ℕ, ◌+◌, ◌≤◌, ◌<◌, ◌≡◌, ◌⊎◌, inl, refl, Option, none, some, List, [], ◌∷◌, arith}
use srtla.Base.Assoc.{
  find, find-retain, Distinct, filter_option, bytes_eq, insert-Distinct, retain-Distinct,
}
use srtla.Addr.{SockAddr}
use srtla.AuthLimiter.{
  Entry, Entries, entry_or_fresh, entry_blocked, entry_alive, open_window, count_failure,
  is_blocked, key_for, cleanup, record_failure,
}
use srtla.AuthLimiter.Blocking.{next, entry_at, failures_at, find-failures_at}

abbrev IsOver : ℕ → Entry → Type 0
IsOver now e = (e.window_start ≡ 0) ⊎ (e.window_start + 60 < now)

-- Two entries that behave alike from the time `now` on.
record Alike (now : ℕ) (e f : Entry) : Type 0 where
  window :
      ((e.window_start ≡ f.window_start) × (e.failures ≡ f.failures))
      ⊎ (IsOver now e × IsOver now f)
  block : (e.blocked_until ≡ f.blocked_until) ⊎ ((e.blocked_until ≤ now) × (f.blocked_until ≤ now))

Alike-refl : (now : ℕ) (e : Entry) → Alike now e e
Alike-refl now e = record { window = inl (refl, refl); block = inl refl }

Alike-later : (now t : ℕ) (e f : Entry) → now ≤ t → Alike now e f → Alike t e f
Alike-later now t e f h a = ground arith

open_window-Alike :
    (t : ℕ) (e f : Entry) → Alike t e f → Alike t (open_window e t) (open_window f t)
unfolding open_window
open_window-Alike t e f a = ground arith

open_window-same :
    (t : ℕ) (e f : Entry)
    → Alike t e f
    → ((open_window e t).failures ≡ (open_window f t).failures)
      × ((open_window e t).window_start ≡ (open_window f t).window_start)
unfolding open_window
open_window-same t e f a = ground arith

count_failure-Alike :
    (t : ℕ) (e f : Entry)
    → e.failures ≡ f.failures
    → e.window_start ≡ f.window_start
    → Alike t e f
    → Alike t (count_failure e t) (count_failure f t)
unfolding count_failure
count_failure-Alike t e f p q a = ground arith

next-Alike : (t : ℕ) (e f : Entry) → Alike t e f → Alike t (next e t) (next f t)
unfolding next
next-Alike t e f a =
    let s = open_window-same t e f a in
    count_failure-Alike t (open_window e t) (open_window f t) s.0 s.1 (open_window-Alike t e f a)

-- Times that do not go back, from `now` on up to `u`.
abbrev Ascending : ℕ → List ℕ → ℕ → Type 0
Ascending now [] u = now ≤ u
Ascending now (t ∷ ts) u = (now ≤ t) × Ascending t ts u

entry_blocked-Alike :
    (now u : ℕ) (o p : Option Entry) (ts : List ℕ)
    → Alike now (entry_or_fresh o) (entry_or_fresh p)
    → Ascending now ts u
    → entry_blocked (entry_at o ts) u ≡ entry_blocked (entry_at p ts) u
unfolding entry_at
entry_blocked-Alike now u none none [] a h = refl
entry_blocked-Alike now u none (some f) [] a h = ground arith
entry_blocked-Alike now u (some e) none [] a h = ground arith
entry_blocked-Alike now u (some e) (some f) [] a h = ground arith
entry_blocked-Alike now u o p (t ∷ ts) a h =
    entry_blocked-Alike t u (some (next (entry_or_fresh o) t)) (some (next (entry_or_fresh p) t)) ts
      (next-Alike t (entry_or_fresh o) (entry_or_fresh p)
        (Alike-later now t (entry_or_fresh o) (entry_or_fresh p) h.0 a))
      h.1

filter-Alike :
    (now : ℕ) (o : Option Entry)
    → Alike now (entry_or_fresh (filter_option (entry_alive now) o)) (entry_or_fresh o)
filter-Alike now none = Alike-refl now _
filter-Alike now (some e) = ground arith

-- A cleanup at the time `now` of a table with distinct keys changes no answer: whatever failures
-- follow from then on, at times that do not go back, the source is blocked after them exactly if
-- it were without the cleanup.
pub cleanup_unseen :
    (entries : Entries) (values : List ℕ) (addr : SockAddr) (now u : ℕ) (ts : List ℕ)
    → Distinct entries
    → Ascending now ts u
    → is_blocked (failures_at (cleanup entries now) values addr ts) addr u
      ≡ is_blocked (failures_at entries values addr ts) addr u
unfolding is_blocked cleanup
cleanup_unseen entries values addr now u ts d h =
    rw
      (
        find-failures_at (cleanup entries now) values addr ts,
        find-failures_at entries values addr ts,
        find-retain (key_for addr) (entry_alive now) entries d,
      )
      (entry_blocked-Alike now u _ _ ts (filter-Alike now (find (key_for addr) entries)) h)

-- Each operation keeps the keys of the table distinct.
pub operations-Distinct :
    (entries : Entries) (values : List ℕ) (addr : SockAddr) (now : ℕ)
    → Distinct entries
    → Distinct (record_failure entries values addr now).0 × Distinct (cleanup entries now)
unfolding record_failure cleanup
operations-Distinct entries values addr now d =
    (insert-Distinct (key_for addr) _ entries d, retain-Distinct (entry_alive now) entries d)
