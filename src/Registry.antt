-- ===== src/Registry.antt =====
-- src/connection/connection_registry.h and connection_registry.cpp: the table of groups, in the
-- order of registration. Its objects are shared by pointer: what a handler does to a group through
-- its pointer is written back by `store`, which finds the group by its identity.
pub mod Lookup
pub mod Members
pub mod Valid
pub mod Evict
pub mod Kin
use srtla.Base.{
  ℕ, Bool, true, false, not, ◌&&◌, ◌||◌, Option, none, some, List, [], ◌∷◌, ◌++◌, ltb, ◌==◌,
  if◌then◌else◌, any,
}
use srtla.Addr.{SockAddr, addresses_equal, constant_time_compare, is_zero}
use srtla.Wire.{srtla_id_len}
use srtla.Connection.{Connection}
use srtla.Group.{Group}
use srtla.Quality.Evaluate.{is_empty}

abbrev pub max_conns_per_group : ℕ
max_conns_per_group = 16

abbrev pub max_groups : ℕ
max_groups = 200

unfoldable pub add_group : List Group → Group → List Group
add_group groups g = groups ++ g ∷ []

-- The erase-remove idiom, by the pointer.
unfoldable pub remove_group : List Group → ℕ → List Group
remove_group [] handle = []
remove_group (g ∷ gs) handle =
    if g.handle == handle then remove_group gs handle else g ∷ remove_group gs handle

-- Writes an object back through its pointer.
unfoldable pub store : Group → List Group → List Group
store g [] = []
store g (h ∷ hs) = (if h.handle == g.handle then g else h) ∷ store g hs

-- A group that never forwarded data and has no connection.
abbrev pub is_pending : Group → Bool
is_pending g = is_empty g.conns && not g.data_seen

older : Option Group → Group → Option Group
older none g = if is_pending g then some g else none
older (some best) g = if is_pending g && ltb g.created_at best.created_at then some g else some best

scan_pending : Option Group → List Group → Option Group
unfolding older
scan_pending best [] = best
scan_pending best (g ∷ gs) = scan_pending (older best g) gs

-- The group that evict_oldest_pending_group removes; `none` is its result false.
unfoldable pub oldest_pending_group : List Group → Option Group
unfolding scan_pending
oldest_pending_group groups = scan_pending none groups

unfoldable pub find_group_by_id : List Group → List ℕ → Option Group
find_group_by_id [] id = none
find_group_by_id (g ∷ gs) id =
    if is_zero (constant_time_compare g.id id srtla_id_len) then some g else find_group_by_id gs id

unfoldable pub find_conn : List Connection → SockAddr → Option Connection
find_conn [] addr = none
find_conn (c ∷ cs) addr = if addresses_equal c.addr addr then some c else find_conn cs addr

-- One round of find_by_address: what the group `g` answers.
abbrev pub group_answer : Group → Option Connection → SockAddr → Option (Group × Option Connection)
group_answer g (some c) addr = some (g, some c)
group_answer g none addr = if addresses_equal g.last_addr addr then some (g, none) else none

abbrev pub first_answer :
    Option (Group × Option Connection)
    → Option (Group × Option Connection)
    → Option (Group × Option Connection)
first_answer none later = later
first_answer (some r) later = some r

-- `none` is a null group; the connection may be null where the group is not.
unfoldable pub find_by_address : List Group → SockAddr → Option (Group × Option Connection)
find_by_address [] addr = none
find_by_address (g ∷ gs) addr =
    first_answer (group_answer g (find_conn g.conns addr) addr) (find_by_address gs addr)
