-- ===== src/Connection/Period.antt =====
-- The period counters of src/quality/metrics_collector.cpp count what came in since the reset, also
-- where the totals wrap.
use srtla.Base.{ℕ, ◌+◌, ◌%◌, ◌^◌, ◌<◌, ◌≡◌, List, [], ◌∷◌, arith, length}
use srtla.Connection.{
  ConnectionStats, on_packet_received, reset_period, bytes_in_period, packets_in_period,
}

-- Packets of the given sizes arrive one after another.
abbrev pub receive_all : ConnectionStats → List ℕ → ConnectionStats
receive_all s [] = s
receive_all s (n ∷ ns) = receive_all (on_packet_received s n) ns

abbrev pub sum : List ℕ → ℕ
sum [] = 0
sum (n ∷ ns) = n + sum ns

record Grown (s t : ConnectionStats) (n k : ℕ) : Type 0 where
  bytes : t.bytes_received % 2 ^ 64 ≡ (s.bytes_received + n) % 2 ^ 64
  packets : t.packets_received % 2 ^ 64 ≡ (s.packets_received + k) % 2 ^ 64
  last_bytes : t.last_bytes_received ≡ s.last_bytes_received
  last_packets : t.last_packets_received ≡ s.last_packets_received

receive_all-Grown :
    (s : ConnectionStats) (ns : List ℕ) → Grown s (receive_all s ns) (sum ns) (length ns)
unfolding on_packet_received
receive_all-Grown s [] = omega arith
receive_all-Grown s (n ∷ ns) =
    let g = receive_all-Grown (on_packet_received s n) ns in
    omega (arith, g.bytes, g.packets, g.last_bytes, g.last_packets)

-- After a reset, the totals being in their range, and then any packets, the period counters are the bytes and the packets since the
-- reset, modulo 2^64, whatever the totals were.
pub period-receive_all :
    (s : ConnectionStats) (now : ℕ) (ns : List ℕ)
    → s.bytes_received < 2 ^ 64
    → s.packets_received < 2 ^ 64
    → (bytes_in_period (receive_all (reset_period s now) ns) ≡ sum ns % 2 ^ 64)
      × (packets_in_period (receive_all (reset_period s now) ns) ≡ length ns % 2 ^ 64)
unfolding bytes_in_period packets_in_period reset_period
period-receive_all s now ns hb hp =
    let g = receive_all-Grown (reset_period s now) ns in
    (omega (arith, g.bytes, g.last_bytes), omega (arith, g.packets, g.last_packets))
