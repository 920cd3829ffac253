-- ===== src/Metrics.antt =====
-- src/metrics/prometheus.h and prometheus.cpp: the counters, an array of uint64_t indexed by the
-- enum, which starts out zero.
use srtla.Base.{
  ℕ, ◌+◌, ◌%◌, ◌^◌, ◌<◌, ◌≢◌, ◌≡◌, List, length, get_or, set, replicate, get_or-set_self,
  get_or-set_ne, length-set,
}

abbrev pub Counter : Type 0
Counter = ℕ

abbrev pub packets_received : Counter
packets_received = 0

abbrev pub bytes_received : Counter
bytes_received = 1

abbrev pub recv_batches : Counter
recv_batches = 2

abbrev pub forwarded_packets : Counter
forwarded_packets = 3

abbrev pub forwarded_bytes : Counter
forwarded_bytes = 4

abbrev pub forward_errors : Counter
forward_errors = 5

abbrev pub forward_dropped : Counter
forward_dropped = 6

abbrev pub srt_packets_received : Counter
srt_packets_received = 7

abbrev pub srt_bytes_received : Counter
srt_bytes_received = 8

abbrev pub naks_received : Counter
naks_received = 9

abbrev pub naks_suppressed : Counter
naks_suppressed = 10

abbrev pub group_registrations : Counter
group_registrations = 11

abbrev pub group_reg_throttled : Counter
group_reg_throttled = 12

abbrev pub group_reg_table_full : Counter
group_reg_table_full = 13

abbrev pub group_reg_dup_addr : Counter
group_reg_dup_addr = 14

abbrev pub group_reg_send_error : Counter
group_reg_send_error = 15

abbrev pub conn_registrations : Counter
conn_registrations = 16

abbrev pub conn_reg_no_group : Counter
conn_reg_no_group = 17

abbrev pub conn_reg_group_mismatch : Counter
conn_reg_group_mismatch = 18

abbrev pub conn_reg_max_conns : Counter
conn_reg_max_conns = 19

abbrev pub conn_reg_send_error : Counter
conn_reg_send_error = 20

abbrev pub groups_removed_idle : Counter
groups_removed_idle = 21

abbrev pub groups_removed_auth : Counter
groups_removed_auth = 22

abbrev pub groups_removed_srt_error : Counter
groups_removed_srt_error = 23

abbrev pub groups_removed_evicted : Counter
groups_removed_evicted = 24

abbrev pub connections_removed : Counter
connections_removed = 25

abbrev pub auth_failures : Counter
auth_failures = 26

abbrev pub send_err_ack : Counter
send_err_ack = 27

abbrev pub send_err_keepalive : Counter
send_err_keepalive = 28

abbrev pub send_err_downstream : Counter
send_err_downstream = 29

abbrev pub recovery_started : Counter
recovery_started = 30

abbrev pub recovery_completed : Counter
recovery_completed = 31

abbrev pub recovery_failed : Counter
recovery_failed = 32

abbrev pub counter_count : ℕ
counter_count = 33

unfoldable pub inc : List ℕ → Counter → ℕ → List ℕ
inc values c n = set values c ((get_or values c 0 + n) % 2 ^ 64)

unfoldable pub value : List ℕ → Counter → ℕ
value values c = get_or values c 0

abbrev pub zeros : List ℕ
zeros = replicate counter_count 0

-- A counter that is in the array grows by what `inc` is given, up to the wrap at 2^64.
pub value-inc_self :
    (values : List ℕ) (c n : ℕ)
    → c < length values
    → value (inc values c n) c ≡ (value values c + n) % 2 ^ 64
unfolding value inc
value-inc_self values c n h = get_or-set_self values c _ 0 h

-- The other counters stay.
pub value-inc_ne : (values : List ℕ) (c d n : ℕ) → c ≢ d → value (inc values c n) d ≡ value values d
unfolding value inc
value-inc_ne values c d n h = get_or-set_ne values c d _ 0 h

pub length-inc : (values : List ℕ) (c n : ℕ) → length (inc values c n) ≡ length values
unfolding inc
length-inc values c n = length-set values c _
