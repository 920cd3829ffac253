-- ===== src/Receiver/DropLog.antt =====
-- log_forward_drop of src/protocol/srt_handler.cpp with its two static variables: what the log is
-- told of the packets that a full socket buffer drops.
use srtla.Base.{
  ℕ, ◌+◌, ◌-◌, ◌%◌, ◌^◌, ◌≤◌, ◌<◌, ◌≡◌, Bool, true, false, not, ◌&&◌, ◌⊎◌, inl, inr, Option, none,
  some, List, [], ◌∷◌, ltb, ◌==◌, if◌then◌else◌, length, arith, Bool-cases,
}

pub record DropLog : Type 0 where
  pub dropped_since_log : ℕ
  pub last_log_ms : ℕ

abbrev pub start : DropLog
start = record { dropped_since_log = 0; last_log_ms = 0 }

abbrev pub k_forward_drop_log_interval_ms : ℕ
k_forward_drop_log_interval_ms = 1000

-- The second early return; both variables are of type uint64_t.
abbrev pub is_early : ℕ → ℕ → Bool
is_early now_ms last_log_ms =
    not (last_log_ms == 0)
    && ltb ((now_ms + 2 ^ 64 - last_log_ms) % 2 ^ 64) k_forward_drop_log_interval_ms

-- With the result of get_ms; the count that is logged, where a line is.
unfoldable pub log_forward_drop : Option ℕ → DropLog → DropLog × Option ℕ
log_forward_drop none l =
    (record l { dropped_since_log = (l.dropped_since_log + 1) % 2 ^ 64 }, none)
log_forward_drop (some now_ms) l =
    let dropped = (l.dropped_since_log + 1) % 2 ^ 64 in
    if is_early now_ms l.last_log_ms
    then (record l { dropped_since_log = dropped }, none)
    else (record { dropped_since_log = 0; last_log_ms = now_ms }, some dropped)

-- The lines of a row of drops, each its time and its count; only a reading of the clock has one.
abbrev pub line : Option ℕ → Option ℕ → List (ℕ × ℕ) → List (ℕ × ℕ)
line (some now_ms) (some n) ls = (now_ms, n) ∷ ls
line _ _ ls = ls

unfoldable pub drops : List (Option ℕ) → DropLog → DropLog × List (ℕ × ℕ)
drops [] l = (l, [])
drops (ms ∷ times) l =
    let step = log_forward_drop ms l in
    let rest = drops times step.0 in (rest.0, line ms step.1 rest.1)

abbrev pub reported : List (ℕ × ℕ) → ℕ
reported [] = 0
reported ((ms, n) ∷ ls) = n + reported ls

-- A clock that is past `last` and does not go back; a reading may fail.
abbrev pub Onward : ℕ → List (Option ℕ) → Type 0
Onward last [] = Unit
Onward last (none ∷ times) = Onward last times
Onward last (some ms ∷ times) = (last ≤ ms) × (ms < 2 ^ 64) × Onward ms times

-- No line within a second of the one before; there is none before where `last` is 0.
abbrev pub Spaced : ℕ → List (ℕ × ℕ) → Type 0
Spaced last [] = Unit
Spaced last ((ms, n) ∷ ls) = ((last ≡ 0) ⊎ (last + 1000 ≤ ms)) × (1 ≤ n) × Spaced ms ls

-- The last reading of the clock.
abbrev pub newest : ℕ → List (Option ℕ) → ℕ
newest last [] = last
newest last (none ∷ times) = newest last times
newest last (some ms ∷ times) = newest ms times

-- What is told of the drops at `times`, where `now` is the time and `l` the state before.
pub record Told (now : ℕ) (times : List (Option ℕ)) (l : DropLog) (out : DropLog × List (ℕ × ℕ))
    : Type 0 where
  pub all_counted : reported out.1 + out.0.dropped_since_log ≡ l.dropped_since_log + length times
  pub spaced : Spaced l.last_log_ms out.1
  pub not_late : newest now times < out.0.last_log_ms + 1000

no_wrap : (n : ℕ) → n < 2 ^ 64 → n % 2 ^ 64 ≡ n
no_wrap n h = omega arith

-- On a clock that has not gone back, the difference is the real one.
since : (ms last : ℕ) → last ≤ ms → ms < 2 ^ 64 → (ms + 2 ^ 64 - last) % 2 ^ 64 ≡ ms - last
since ms last le lt = omega arith

is_early-true : (ms last : ℕ) → last ≤ ms → ms < 2 ^ 64 → is_early ms last ≡ true → ms < last + 1000
is_early-true ms last le lt h = ground (arith, since ms last le lt, h)

is_early-false :
    (ms last : ℕ)
    → last ≤ ms
    → ms < 2 ^ 64
    → is_early ms last ≡ false
    → (last ≡ 0) ⊎ (last + 1000 ≤ ms)
is_early-false ms last le lt h = elim (Bool-cases (last == 0)) [
  | inl zero' ↦ inl (ground arith)
  | inr old ↦ inr (ground (arith, since ms last le lt, h))
]

-- From a state in which the last line is not over a second old.
drops-Told_from :
    (now : ℕ) (times : List (Option ℕ)) (l : DropLog)
    → l.last_log_ms ≤ now
    → now < l.last_log_ms + 1000
    → l.dropped_since_log + length times < 2 ^ 64
    → Onward now times
    → Told now times l (drops times l)
unfolding drops log_forward_drop
drops-Told_from now [] l le lt few on = record {
  all_counted = omega arith;
  spaced = tt;
  not_late = lt;
}
drops-Told_from now (none ∷ times) l le lt few on =
    let n : (l.dropped_since_log + 1) % 2 ^ 64 ≡ l.dropped_since_log + 1 =
      no_wrap (l.dropped_since_log + 1) (omega arith) in
    let ih =
      drops-Told_from now times
        (record l { dropped_since_log = (l.dropped_since_log + 1) % 2 ^ 64 }) le lt (omega arith)
        on in
    record {
      all_counted = omega (arith, ih.all_counted);
      spaced = ih.spaced;
      not_late = ih.not_late;
    }
drops-Told_from now (some ms ∷ times) l le lt few on =
    let n : (l.dropped_since_log + 1) % 2 ^ 64 ≡ l.dropped_since_log + 1 =
      no_wrap (l.dropped_since_log + 1) (omega arith) in
    let on0 = on.0 in
    let on1 = on.1 in
    elim (Bool-cases (is_early ms l.last_log_ms)) [
      | inl early ↦
          let ih =
            drops-Told_from ms times
              (record l { dropped_since_log = (l.dropped_since_log + 1) % 2 ^ 64 }) (omega arith)
              (is_early-true ms l.last_log_ms (omega arith) on1 early) (omega arith) on.2 in
          rw early (record {
            all_counted = omega (arith, ih.all_counted);
            spaced = ih.spaced;
            not_late = ih.not_late;
          })
      | inr late ↦
          let ih =
            drops-Told_from ms times (record { dropped_since_log = 0; last_log_ms = ms })
              (omega arith) (omega arith) (omega arith) on.2 in
          rw late (record {
            all_counted = omega (arith, ih.all_counted);
            spaced =
                (is_early-false ms l.last_log_ms (omega arith) on1 late, omega arith, ih.spaced);
            not_late = ih.not_late;
          })
    ]

-- Of fewer than 2^64 packets dropped since the start, on a clock that does not go back, though a
-- reading may fail: the counts of the log's lines and the count that is still to be told make up
-- all the drops. Each line tells of one drop at least, and comes a second or more after the line
-- before, where that one's time is past 0. The last reading of the clock is less than a second
-- past the last line's time, or past 0 where there is no line.
pub drops-Told :
    (times : List (Option ℕ))
    → length times < 2 ^ 64
    → Onward 0 times
    → Told 0 times start (drops times start)
drops-Told times few on =
    drops-Told_from 0 times start (omega arith) (omega arith) (omega (arith, few)) on
