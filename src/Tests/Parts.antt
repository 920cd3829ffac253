-- ===== src/Tests/Parts.antt =====
-- The tables, the limiter, the NAK cache and the wire formats on concrete inputs.
use srtla.Base.{
  ℕ, ◌+◌, ◌≤◌, ◌≡◌, ◌↔◌, refl, true, false, Option, none, some, List, [], ◌∷◌, ◌++◌, replicate, ltb,
  pos, negsuc, arith,
}
use srtla.Base.Assoc.{find, bytes_eq, nat_eq}
use srtla.Addr.{constant_time_compare, addresses_equal}
use srtla.Addr.Compare.{SameAddr, addresses_equal_iff}
use srtla.AuthLimiter.{Entries, is_blocked, record_failure, cleanup}
use srtla.AuthLimiter.Blocking.{failures_at, blocked_by_fifth}
use srtla.AuthLimiter.Cleanup.{cleanup_unseen, operations-Distinct}
use srtla.Group.{new_group}
use srtla.Metrics.{zeros}
use srtla.NakDedup.{Cache}
use srtla.NakDedup.Accept.{passes, passes-le-two}
use srtla.Registry.{find_by_address, find_conn}
use srtla.Receiver.DropLog.{start, drops, Told, drops-Told}
use srtla.Registry.Lookup.{MemGroup, claims, find_by_address-some, find_by_address-none}
use srtla.Wire.{
  be16, parse_keepalive_conn_info, ConnectionInfo, srtla_type_keepalive, srtla_keepalive_magic,
  srtla_keepalive_ext_version,
}
use srtla.Wire.Keepalive.{InRange, encode, fields, parse_iff, parse-encode}
use srtla.Tests.{client, client_again, stranger, data_packet, waiting}

find_by_address-some_example :
    MemGroup waiting (waiting ∷ [])
    × (claims waiting client ≡ true)
    × (none ≡ find_conn waiting.conns client)
unfolding find_by_address find_conn addresses_equal constant_time_compare new_group
find_by_address-some_example = find_by_address-some (waiting ∷ []) client waiting none found
  where
    found : find_by_address (waiting ∷ []) client ≡ some (waiting, none)
    found = refl

find_by_address-none_example : claims waiting stranger ≡ false
unfolding find_by_address find_conn addresses_equal constant_time_compare new_group
find_by_address-none_example =
    find_by_address-none (waiting ∷ []) stranger missing waiting MemGroup.head
  where
    missing : find_by_address (waiting ∷ []) stranger ≡ none
    missing = refl

blocked_by_fifth_example :
    (is_blocked (failures_at [] zeros client (10 ∷ 11 ∷ 12 ∷ 13 ∷ [])) client 20 ≡ false)
    × (is_blocked (failures_at [] zeros client (10 ∷ 11 ∷ 12 ∷ 13 ∷ 14 ∷ [])) client 20
        ≡ ltb 20 (14 + 60))
unfolding find
blocked_by_fifth_example =
    blocked_by_fifth [] zeros client 10 11 12 13 14 20 refl (omega arith) (omega arith)
      (omega arith) (omega arith) (omega arith) (omega arith)

-- Four drops, the clock not read at one of them, the last a second after the first.
abbrev drop_times : List (Option ℕ)
drop_times = some 5000 ∷ some 5400 ∷ none ∷ some 6000 ∷ []

drops-Told_example : Told 0 drop_times start (drops drop_times start)
drops-Told_example =
    drops-Told drop_times (omega arith)
      (omega arith, omega arith, (omega arith, omega arith, (omega arith, omega arith, tt)))

abbrev failed_once : Entries
failed_once = (record_failure [] zeros client 10).0

cleanup_unseen_example :
    is_blocked (failures_at (cleanup failed_once 50) zeros client (60 ∷ 61 ∷ [])) client 70
    ≡ is_blocked (failures_at failed_once zeros client (60 ∷ 61 ∷ [])) client 70
cleanup_unseen_example =
    cleanup_unseen failed_once zeros client 50 70 (60 ∷ 61 ∷ [])
      (operations-Distinct [] zeros client 10 tt).0 (omega arith, (omega arith, omega arith))

passes-le-two_example : passes 7 [] ((7, 1) ∷ (7, 200) ∷ (7, 400) ∷ []) ≤ 2
passes-le-two_example = passes-le-two 7 ((7, 1) ∷ (7, 200) ∷ (7, 400) ∷ [])

abbrev seen_once : Cache
seen_once = (7, record { timestamp_ms = 10; repeat_count = 0 }) ∷ []

-- The same loss report, sent over another link with another timestamp.
abbrev nak_again : List ℕ
nak_again = 0x80 ∷ 0x03 ∷ replicate 14 1 ++ 0 ∷ 0 ∷ 0 ∷ 9 ∷ []

abbrev telemetry : ConnectionInfo
telemetry = record {
  conn_id = 1;
  window = pos 20000;
  in_flight = negsuc 2;
  rtt_ms = 45;
  nak_count = 3;
  bitrate_bytes_per_sec = 500000;
}

telemetry-InRange : InRange telemetry
telemetry-InRange = record {
  conn_id = omega arith;
  window = omega arith;
  window_low = omega arith;
  in_flight = omega arith;
  in_flight_low = omega arith;
  rtt_ms = omega arith;
  nak_count = omega arith;
  bitrate = omega arith;
}

parse-encode_example : parse_keepalive_conn_info (encode 0 9 telemetry) 38 ≡ some telemetry
parse-encode_example = parse-encode 0 9 telemetry telemetry-InRange

parse_iff_example : (parse_keepalive_conn_info data_packet 16 ≡ some telemetry) ↔ (
    (38 ≤ 16)
    × (be16 data_packet 0 ≡ srtla_type_keepalive)
    × (be16 data_packet 10 ≡ srtla_keepalive_magic)
    × (be16 data_packet 12 ≡ srtla_keepalive_ext_version)
    × (fields data_packet ≡ telemetry))
parse_iff_example = parse_iff data_packet 16 telemetry (omega arith)

addresses_equal_iff_example :
    (addresses_equal client client_again ≡ true) ↔ SameAddr client client_again
addresses_equal_iff_example = addresses_equal_iff client client_again
