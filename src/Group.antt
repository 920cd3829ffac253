-- ===== src/Group.antt =====
-- src/connection/connection_group.h and connection_group.cpp.
pub mod InfoFile
use srtla.Base.{ℕ, Bool, true, false, List, [], ◌∷◌, ◌++◌, map, ◌==◌, if◌then◌else◌, ℤ, negsuc}
use srtla.Addr.{SockAddr, zero_addr, slice}
use srtla.Connection.{Connection}
use srtla.NakDedup.{Cache}

-- `handle` stands for the object's identity, what two `ConnectionGroupPtr` are compared by.
pub record Group : Type 0 where
  pub handle : ℕ
  pub id : List ℕ
  pub conns : List Connection
  pub created_at : ℕ
  pub data_seen : Bool
  pub established : Bool
  pub srt_sock : ℤ
  pub last_addr : SockAddr
  pub total_target_bandwidth : ℕ
  pub last_quality_eval : ℕ
  pub last_load_balance_eval : ℕ
  pub load_balancing_enabled : Bool
  pub nak_seen_hash : Cache
  pub epoll_fd : ℤ

-- The constructor: the first half of the id is the client's, the second 128 random bytes, here the
-- first 128 of the list `random`.
unfoldable pub new_group : ℕ → List ℕ → List ℕ → ℕ → Group
new_group handle client_id random timestamp = record {
  handle = handle;
  id = slice client_id 0 128 ++ slice random 0 128;
  conns = [];
  created_at = timestamp;
  data_seen = false;
  established = false;
  srt_sock = negsuc 0;
  last_addr = zero_addr;
  total_target_bandwidth = 0;
  last_quality_eval = 0;
  last_load_balance_eval = 0;
  load_balancing_enabled = true;
  nak_seen_hash = [];
  epoll_fd = negsuc 0;
}

abbrev pub add_connection : Group → Connection → Group
add_connection g c = record g { conns = g.conns ++ c ∷ [] }

abbrev pub without : ℕ → List Connection → List Connection
without handle [] = []
without handle (c ∷ cs) =
    let rest = without handle cs in if c.handle == handle then rest else c ∷ rest

-- std::remove moves the others up, and erase cuts off the rest.
unfoldable pub remove_connection : Group → ℕ → Group
remove_connection g handle = record g { conns = without handle g.conns }

abbrev pub get_client_addresses : Group → List SockAddr
get_client_addresses g = map (λ c. c.addr) g.conns
