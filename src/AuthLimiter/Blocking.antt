-- ===== src/AuthLimiter/Blocking.antt =====
-- Who is blocked, after which failures, and for how long.
use srtla.Base.{
  ℕ, suc, ◌+◌, ◌≤◌, ◌<◌, ◌≡◌, ◌≢◌, refl, false, Option, none, some, List, [], ◌∷◌, arith, ltb,
  Bool-cases, inl, inr,
}
use srtla.Base.Assoc.{find, find-insert, find-insert_self, bytes_eq}
use srtla.Addr.{SockAddr}
use srtla.Addr.Compare.{ip_bytes}
use srtla.AuthLimiter.{
  Entry, Entries, fresh_entry, entry_or_fresh, open_window, count_failure, record_failure,
  is_blocked, key_for,
}

unfoldable pub next : Entry → ℕ → Entry
next e now = count_failure (open_window e now) now

-- Failures of one source at the given times, in order.
abbrev pub failures_at : Entries → List ℕ → SockAddr → List ℕ → Entries
failures_at entries values addr [] = entries
failures_at entries values addr (t ∷ ts) =
    let (entries', values') = record_failure entries values addr t in
    failures_at entries' values' addr ts

find-record_failure :
    (entries : Entries) (values : List ℕ) (addr : SockAddr) (now : ℕ)
    → find (key_for addr) (record_failure entries values addr now).0
      ≡ some (next (entry_or_fresh (find (key_for addr) entries)) now)
unfolding record_failure next
find-record_failure entries values addr now = find-insert_self (key_for addr) _ entries

-- What one entry becomes under failures at the given times.
unfoldable pub entry_at : Option Entry → List ℕ → Option Entry
entry_at o [] = o
entry_at o (t ∷ ts) = entry_at (some (next (entry_or_fresh o) t)) ts

pub find-failures_at :
    (entries : Entries) (values : List ℕ) (addr : SockAddr) (ts : List ℕ)
    → find (key_for addr) (failures_at entries values addr ts)
      ≡ entry_at (find (key_for addr) entries) ts
unfolding entry_at
find-failures_at entries values addr [] = refl
find-failures_at entries values addr (t ∷ ts) =
    let (entries', values') = record_failure entries values addr t in
    rw (find-failures_at entries' values' addr ts, find-record_failure entries values addr t) refl

abbrev entry : ℕ → ℕ → ℕ → Entry
entry failures start until = record {
  failures = failures;
  window_start = start;
  blocked_until = until;
}

next_first : (t : ℕ) → 0 < t → next fresh_entry t ≡ entry 1 t 0
unfolding next open_window count_failure
next_first t h = ground arith

next_counts :
    (f start until t : ℕ)
    → 0 < start
    → t ≤ start + 60
    → f < 4
    → next (entry f start until) t ≡ entry (suc f) start until
unfolding next open_window count_failure
next_counts f start until t pos window few = ground arith

next_blocks :
    (start until t : ℕ)
    → 0 < start
    → t ≤ start + 60
    → next (entry 4 start until) t ≡ entry 0 0 (t + 60)
unfolding next open_window count_failure
next_blocks start until t pos window = ground arith

four_failures :
    (a b c d : ℕ)
    → 0 < a
    → b ≤ a + 60
    → c ≤ a + 60
    → d ≤ a + 60
    → entry_at none (a ∷ b ∷ c ∷ d ∷ []) ≡ some (entry 4 a 0)
unfolding entry_at
four_failures a b c d pos hb hc hd = rw (
  next_first a pos,
  next_counts 1 a 0 b pos hb (omega arith),
  next_counts 2 a 0 c pos hc (omega arith),
  next_counts 3 a 0 d pos hd (omega arith),
)

five_failures :
    (a b c d e : ℕ)
    → 0 < a
    → b ≤ a + 60
    → c ≤ a + 60
    → d ≤ a + 60
    → e ≤ a + 60
    → entry_at none (a ∷ b ∷ c ∷ d ∷ e ∷ []) ≡ some (entry 0 0 (e + 60))
unfolding entry_at
five_failures a b c d e pos hb hc hd he = rw (
  next_first a pos,
  next_counts 1 a 0 b pos hb (omega arith),
  next_counts 2 a 0 c pos hc (omega arith),
  next_counts 3 a 0 d pos hd (omega arith),
  next_blocks a 0 e pos he,
)

-- A source with no entry is blocked by its fifth failure within 60 seconds, and by none before, the
-- clock not going back and being past 0:
-- after four it is free at any time, after five it is blocked exactly until 60 seconds after the
-- fifth.
pub blocked_by_fifth :
    (entries : Entries) (values : List ℕ) (addr : SockAddr) (a b c d e now : ℕ)
    → find (key_for addr) entries ≡ none
    → 0 < a
    → a ≤ b
    → b ≤ c
    → c ≤ d
    → d ≤ e
    → e ≤ a + 60
    → (is_blocked (failures_at entries values addr (a ∷ b ∷ c ∷ d ∷ [])) addr now ≡ false)
      × (is_blocked (failures_at entries values addr (a ∷ b ∷ c ∷ d ∷ e ∷ [])) addr now
          ≡ ltb now (e + 60))
unfolding is_blocked
blocked_by_fifth entries values addr a b c d e now fresh pos ab bc cd de window =
    let four = four_failures a b c d pos (omega arith) (omega arith) (omega arith) in
    (
      rw (find-failures_at entries values addr (a ∷ b ∷ c ∷ d ∷ []), fresh, four) (ground arith),
      rw (
        find-failures_at entries values addr (a ∷ b ∷ c ∷ d ∷ e ∷ []),
        fresh,
        five_failures a b c d e pos (omega arith) (omega arith) (omega arith) (omega arith),
      ),
    )

key_for-ip :
    (a b : SockAddr) → a.family ≡ b.family → ip_bytes a ≡ ip_bytes b → key_for a ≡ key_for b
unfolding key_for
key_for-ip a b f e = ground arith

-- A failure counts for every port of its IP address.
pub record_failure-same_ip :
    (entries : Entries) (values : List ℕ) (addr other : SockAddr) (now later : ℕ)
    → addr.family ≡ other.family
    → ip_bytes addr ≡ ip_bytes other
    → is_blocked (record_failure entries values addr now).0 other later
      ≡ is_blocked (record_failure entries values addr now).0 addr later
unfolding is_blocked
record_failure-same_ip entries values addr other now later family ip =
    rw (key_for-ip addr other family ip)

-- A failure leaves every address with another key as it was, blocked or not.
record_failure-other_ip :
    (entries : Entries) (values : List ℕ) (addr other : SockAddr) (now later : ℕ)
    → key_for addr ≢ key_for other
    → is_blocked (record_failure entries values addr now).0 other later
      ≡ is_blocked entries other later
unfolding is_blocked record_failure
record_failure-other_ip entries values addr other now later differ =
    let e = count_failure (open_window (entry_or_fresh (find (key_for addr) entries)) now) now in
    rw (find-insert (key_for addr) (key_for other) e entries)
      (elim (Bool-cases (bytes_eq.beq (key_for addr) (key_for other))) [
        | inl same ↦ absurd (differ ((bytes_eq.beq_iff (key_for addr) (key_for other)).0 same))
        | inr apart ↦ rw apart
      ])
