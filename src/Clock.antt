-- ===== src/Clock.antt =====
-- get_seconds and get_ms of src/common.c. A time is what clock_gettime(CLOCK_MONOTONIC_COARSE) gives,
-- seconds and nanoseconds, `none` where it fails; the results are those that the records of the
-- calls, such as Os, hold.
use srtla.Base.{ℕ, ◌+◌, ◌*◌, ◌/◌, ◌%◌, ◌^◌, ◌<◌, ◌≡◌, Option, none, some, arith}

abbrev pub Timespec : Type 0
Timespec = ℕ × ℕ

unfoldable pub get_seconds : Option Timespec → Option ℕ
get_seconds none = none
get_seconds (some (tv_sec, tv_nsec)) = some tv_sec

-- A uint64_t.
unfoldable pub get_ms : Option Timespec → Option ℕ
get_ms none = none
get_ms (some (tv_sec, tv_nsec)) = some ((tv_sec * 1000 + tv_nsec / 1000 / 1000) % 2 ^ 64)

-- A second has a thousand milliseconds: within the uint64_t both clocks tell one time.
seconds_of_ms :
    (tv_sec tv_nsec ms : ℕ)
    → tv_nsec < 1000000000
    → tv_sec * 1000 + 1000 < 2 ^ 64
    → get_ms (some (tv_sec, tv_nsec)) ≡ some ms
    → get_seconds (some (tv_sec, tv_nsec)) ≡ some (ms / 1000)
unfolding get_seconds get_ms
seconds_of_ms tv_sec tv_nsec ms n s e = ground (arith, n, s, e)
