-- ===== src/AuthLimiter.antt =====
-- src/utils/auth_rate_limiter.h and auth_rate_limiter.cpp: SRT authentication failures counted by
-- source IP. Times are seconds of the monotonic clock; where now is below the window's start the
-- source's difference is negative and the truncated one 0, which the tests treat alike.
pub mod Blocking
pub mod Cleanup
use srtla.Base.{
  ℕ, suc, ◌+◌, ◌-◌, Bool, true, false, not, ◌&&◌, ◌||◌, Option, none, some, List, [], ◌∷◌, ltb, leb,
  ◌==◌, if◌then◌else◌,
}
use srtla.Base.Assoc.{find, insert, retain, bytes_eq}
use srtla.Addr.{SockAddr, slice, af_inet6}
use srtla.Metrics
use srtla.Metrics.{inc}

abbrev pub auth_fail_threshold : ℕ
auth_fail_threshold = 5

abbrev pub auth_fail_window : ℕ
auth_fail_window = 60

abbrev pub auth_fail_cooldown : ℕ
auth_fail_cooldown = 60

pub record Entry : Type 0 where
  pub failures : ℕ
  pub window_start : ℕ
  pub blocked_until : ℕ

abbrev pub fresh_entry : Entry
fresh_entry = record { failures = 0; window_start = 0; blocked_until = 0 }

abbrev pub Entries : Type 0
Entries = List (List ℕ × Entry)

-- "6:" or "4:" and the bytes of the IP address.
unfoldable pub key_for : SockAddr → List ℕ
key_for addr =
    if addr.family == af_inet6
    then b'6' ∷ b':' ∷ slice addr.sin6_addr 0 16
    else b'4' ∷ b':' ∷ slice addr.sin_addr 0 4

-- The first `if` of record_failure: a window that has run out starts anew.
unfoldable pub open_window : Entry → ℕ → Entry
open_window e now =
    if e.window_start == 0 || ltb auth_fail_window (now - e.window_start)
    then record e { window_start = now; failures = 0 }
    else e

-- The rest of it: count, and block at the threshold.
unfoldable pub count_failure : Entry → ℕ → Entry
count_failure e now =
    if leb auth_fail_threshold (suc e.failures)
    then record { failures = 0; window_start = 0; blocked_until = now + auth_fail_cooldown }
    else record e { failures = suc e.failures }

-- `entries_[key]` makes a fresh entry where there is none.
abbrev pub entry_or_fresh : Option Entry → Entry
entry_or_fresh none = fresh_entry
entry_or_fresh (some e) = e

unfoldable pub record_failure : Entries → List ℕ → SockAddr → ℕ → Entries × List ℕ
unfolding open_window count_failure
record_failure entries values addr now = (
  insert (key_for addr)
      (count_failure (open_window (entry_or_fresh (find (key_for addr) entries)) now) now) entries,
  inc values Metrics.auth_failures 1,
)

abbrev pub entry_blocked : Option Entry → ℕ → Bool
entry_blocked none now = false
entry_blocked (some e) now = ltb now e.blocked_until

unfoldable pub is_blocked : Entries → SockAddr → ℕ → Bool
is_blocked entries addr now = entry_blocked (find (key_for addr) entries) now

unfoldable pub blocked_count : Entries → ℕ → ℕ
blocked_count [] now = 0
blocked_count ((k, e) ∷ m) now = (if ltb now e.blocked_until then 1 else 0) + blocked_count m now

-- What cleanup keeps.
abbrev pub entry_alive : ℕ → Entry → Bool
entry_alive now e =
    ltb now e.blocked_until
    || (not (e.window_start == 0) && leb (now - e.window_start) auth_fail_window)

unfoldable pub cleanup : Entries → ℕ → Entries
cleanup entries now = retain (entry_alive now) entries
