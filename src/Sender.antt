-- ===== src/Sender.antt =====
-- src/sender.cpp: the state of srtla_send, the sockets it watches and the packets of its handshake.
-- A connection behind a `conn_t *` is a value with an identity, its handle. `int` counters that
-- never go below 0 are natural numbers. max_act_fd, which nothing reads, is left out.
pub mod Log
pub mod Select
pub mod Conns
pub mod Receive
pub mod Housekeeping
pub mod Loop
pub mod Valid
use srtla.Base.{
  ℕ, suc, ◌+◌, Bool, true, false, not, Option, none, some, List, [], ◌∷◌, ◌++◌, map, ◌==◌,
  if◌then◌else◌, ℤ, pos, negsuc, eqb_ℤ, replicate,
}
use srtla.Addr.{SockAddr, zero_addr, slice}
use srtla.Wire.{
  put16, srtla_type_reg1, srtla_type_reg2, srtla_type_reg1_len, srtla_type_reg2_len, srtla_id_len,
}

abbrev pub pkt_log_sz : ℕ
pkt_log_sz = 256

abbrev pub conn_timeout : ℕ
conn_timeout = 4

abbrev pub reg2_timeout : ℕ
reg2_timeout = 4

abbrev pub reg3_timeout : ℕ
reg3_timeout = 4

abbrev pub global_timeout : ℕ
global_timeout = 10

abbrev pub idle_time : ℕ
idle_time = 1

abbrev pub window_min : ℕ
window_min = 1

abbrev pub window_def : ℕ
window_def = 20

abbrev pub window_max : ℕ
window_max = 60

abbrev pub window_mult : ℕ
window_mult = 1000

abbrev pub window_decr : ℕ
window_decr = 100

abbrev pub window_incr : ℕ
window_incr = 30

abbrev pub housekeeping_int : ℕ
housekeeping_int = 1000

-- `conn_t`.
pub record Conn : Type 0 where
  pub handle : ℕ
  pub fd : ℤ
  pub last_rcvd : ℕ
  pub last_sent : ℕ
  pub src : SockAddr
  pub removed : Bool
  pub in_flight_pkts : ℕ
  pub window : ℕ
  pub pkt_idx : ℕ
  pub pkt_log : List ℤ

-- The calls of the operating system. `sendto_invalid` is a send of (size_t)-1 bytes, after a read
-- that failed.
pub data Call : Type 0 where
  sendto : ℤ → SockAddr → List ℕ → Call
  sendto_invalid : ℤ → SockAddr → Call
  socket : Call
  set_sndbuf : ℤ → ℕ → Call
  bind : ℤ → SockAddr → Call
  close : ℤ → Call

-- The global variables and the static ones of connection_housekeeping. `addrs` is what ai_next
-- leads to, `next` the next handle, `calls` the calls made so far, the newest first.
pub record Sender : Type 0 where
  pub conns : List Conn
  pub active_fds : List ℤ
  pub listenfd : ℤ
  pub srtla_addr : SockAddr
  pub addrs : List SockAddr
  pub srt_addr : SockAddr
  pub active_connections : ℕ
  pub has_connected : Bool
  pub pending_reg2_conn : Option ℕ
  pub pending_reg_timeout : ℕ
  pub srtla_id : List ℕ
  pub do_update_conns : Bool
  pub all_failed_at : ℕ
  pub last_ran : ℕ
  pub next : ℕ
  pub calls : List Call

-- The program goes on, or it has called exit(EXIT_FAILURE), or its behaviour is undefined.
pub data Result {ℓ} (A : Type ℓ) : Type ℓ where
  ok : A → Result A
  exited : Result A
  undefined : Result A

infixl 5 ◌>>=◌
abbrev pub ◌>>=◌ {ℓ κ} : {A : Type ℓ} {B : Type κ} → Result A → (A → Result B) → Result B
ok a >>= f = f a
exited >>= f = exited
undefined >>= f = undefined

-- fd >= 0.
abbrev pub is_open : ℤ → Bool
is_open (pos n) = true
is_open (negsuc n) = false

abbrev pub is_pending : Option ℕ → ℕ → Bool
is_pending none h = false
is_pending (some p) h = p == h

-- A change of the connection with this handle.
abbrev pub modify_all : ℕ → (Conn → Conn) → List Conn → List Conn
modify_all h f [] = []
modify_all h f (c ∷ cs) = (if c.handle == h then f c else c) ∷ modify_all h f cs

abbrev pub modify : ℕ → (Conn → Conn) → Sender → Sender
modify h f s = record s { conns = modify_all h f s.conns }

unfoldable pub find_conn : ℕ → List Conn → Option Conn
find_conn h [] = none
find_conn h (c ∷ cs) = if c.handle == h then some c else find_conn h cs

abbrev pub without : ℤ → List ℤ → List ℤ
without fd [] = []
without fd (x ∷ xs) = let rest = without fd xs in if eqb_ℤ x fd then rest else x ∷ rest

unfoldable pub add_active_fd : ℤ → Sender → Sender
add_active_fd fd s =
    if is_open fd then record s { active_fds = fd ∷ without fd s.active_fds } else s

unfoldable pub remove_active_fd : ℤ → Sender → Sender
remove_active_fd fd s = if is_open fd then record s { active_fds = without fd s.active_fds } else s

-- What each call returns, from the calls before it.
module _ (ret : List Call → Call → ℤ) where
  abbrev pub call : Call → Sender → ℤ × Sender
  call k s = (ret s.calls k, record s { calls = k ∷ s.calls })

  abbrev pub call_ : Call → Sender → Sender
  call_ k s = record s { calls = k ∷ s.calls }

  -- Whether the packet went out.
  unfoldable pub send_reg1 : Conn → Sender → Bool × Sender
  send_reg1 c s =
      if not (is_open c.fd)
      then (false, s)
      else let k = sendto c.fd s.srtla_addr (put16 srtla_type_reg1 ++ s.srtla_id) in
        (eqb_ℤ (ret s.calls k) (pos srtla_type_reg1_len), call_ k s)

  unfoldable pub send_reg2 : Conn → Sender → Bool × Sender
  send_reg2 c s =
      if not (is_open c.fd)
      then (false, s)
      else let k = sendto c.fd s.srtla_addr (put16 srtla_type_reg2 ++ s.srtla_id) in
        (eqb_ℤ (ret s.calls k) (pos srtla_type_reg2_len), call_ k s)

  -- The loop that broadcasts REG2.
  unfoldable pub send_reg2_all : List Conn → Sender → Sender
  unfolding send_reg2
  send_reg2_all [] s = s
  send_reg2_all (c ∷ cs) s = send_reg2_all cs (send_reg2 c s).1
