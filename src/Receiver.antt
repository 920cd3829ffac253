-- ===== src/Receiver.antt =====
-- The receiver srtla_rec: its state, and the helpers that its handlers share. The handlers stand in
-- the children: src/protocol/srtla_handler.cpp in Register and Packet, src/protocol/srt_handler.cpp in
-- Srt, cleanup_inactive of src/connection/connection_registry.cpp in Cleanup, the loop of
-- src/receiver_main.cpp in Loop. Log lines are left out.
pub mod Quiet
pub mod Register
pub mod Srt
pub mod Packet
pub mod Cleanup
pub mod Loop
pub mod DropLog
pub mod Setup
use srtla.Base.{
  ℕ, suc, ◌+◌, ◌-◌, Bool, true, false, not, Option, none, some, List, [], ◌∷◌, ◌++◌, leb, ltb, ◌==◌,
  if◌then◌else◌, ℤ, pos, negsuc, ltb_ℤ, eqb_ℤ, length, replicate,
}
use srtla.Addr.{SockAddr}
use srtla.AuthLimiter.{Entries}
use srtla.Group.{Group, get_client_addresses}
use srtla.Connection.{Connection}
use srtla.Metrics
use srtla.Metrics.{Counter, inc, zeros}
use srtla.Os.{Os, Syscall, sendto, close, epoll_del, write_info, remove_info}
use srtla.Registry
use srtla.Registry.{store}

pub record Receiver : Type 0 where
  pub groups : List Group
  pub entries : Entries
  pub values : List ℕ
  -- The calls made, the newest first.
  pub calls : List Syscall
  -- The identity of the next object.
  pub next : ℕ
  -- The static variable of cleanup_inactive.
  pub last_run : ℕ

abbrev pub start : Receiver
start = record { groups = []; entries = []; values = zeros; calls = []; next = 0; last_run = 0 }

unfoldable pub count : Counter → ℕ → Receiver → Receiver
count c n r = record r { values = inc r.values c n }

unfoldable pub call : Syscall → Receiver → Receiver
call c r = record r { calls = c ∷ r.calls }

-- Writes a group back through its pointer.
unfoldable pub put_group : Group → Receiver → Receiver
put_group g r = record r { groups = store g r.groups }

module _ (os : Os) where
  -- src/protocol/pad_sendto.h: a packet below 32 bytes is filled up with zeros.
  unfoldable pub pad_sendto : Receiver → SockAddr → List ℕ → ℤ × Receiver
  unfolding call
  pad_sendto r addr buf =
      if leb 32 (length buf)
      then (os.ret r.calls (sendto addr buf), call (sendto addr buf) r)
      else (let padded = buf ++ replicate (32 - length buf) 0 in
          let ret = os.ret r.calls (sendto addr padded) in
          (if eqb_ℤ ret (pos 32) then pos (length buf) else ret, call (sendto addr padded) r))

unfoldable pub write_socket_info_file : Group → Receiver → Receiver
unfolding call
write_socket_info_file g r =
    if eqb_ℤ g.srt_sock (negsuc 0)
    then r
    else call (write_info g.srt_sock (get_client_addresses g)) r

-- Called by the destructor alone, for a socket that is there.
abbrev pub remove_socket_info_file : Group → Receiver → Receiver
remove_socket_info_file g r =
    if eqb_ℤ g.srt_sock (negsuc 0) then r else call (remove_info g.srt_sock) r

-- ~ConnectionGroup, once the last pointer to the group is gone.
unfoldable pub destroy : Group → Receiver → Receiver
unfolding call
destroy g r =
    if ltb_ℤ (pos 0) g.srt_sock
    then (let r' = remove_socket_info_file g r in
        let r'' = (if ltb_ℤ g.epoll_fd (pos 0) then r' else call (epoll_del g.srt_sock) r') in
        call (close g.srt_sock) r'')
    else r

-- The group is taken off the table for a reason that is counted, and destroyed.
unfoldable pub drop_group : Counter → Group → Receiver → Receiver
drop_group reason g r =
    let r' = count reason 1 r in
    destroy g (record r' { groups = Registry.remove_group r'.groups g.handle })

-- The group behind a pointer, as long as the table holds it.
unfoldable pub deref : ℕ → List Group → Option Group
deref handle [] = none
deref handle (g ∷ gs) = if g.handle == handle then some g else deref handle gs

-- A loop over the groups reads each object when its turn comes.
unfoldable pub for_each : (Group → Receiver → Receiver) → List Group → Receiver → Receiver
for_each body [] r = r
for_each body (g ∷ gs) r =
    for_each body gs (elim (deref g.handle r.groups) [ none ↦ r | some h ↦ body h r ])
