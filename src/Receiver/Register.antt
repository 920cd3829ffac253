-- ===== src/Receiver/Register.antt =====
-- register_group and register_connection of src/protocol/srtla_handler.cpp: the handshake.
pub mod Valid
pub mod Join
use srtla.Base.{
  ℕ, suc, ◌+◌, Bool, true, false, not, ◌&&◌, Option, none, some, List, [], ◌∷◌, ◌++◌, leb, ◌==◌,
  if◌then◌else◌, ℤ, pos, negsuc, eqb_ℤ, length, drop,
}
use srtla.Addr.{SockAddr}
use srtla.AuthLimiter.{is_blocked}
use srtla.Connection.{Connection, new_connection}
use srtla.Group.{Group, new_group, add_connection}
use srtla.Metrics
use srtla.Metrics.{Counter}
use srtla.Os.{Os}
use srtla.Registry.{
  add_group, oldest_pending_group, find_group_by_id, find_by_address, max_groups,
  max_conns_per_group,
}
use srtla.Wire.{
  put16, srtla_type_reg2, srtla_type_reg3, srtla_type_reg_err, srtla_type_reg_ngp,
  srtla_type_reg2_len,
}
use srtla.Receiver.{Receiver, count, pad_sendto, drop_group, put_group, write_socket_info_file}

-- The results 0 and -1.
pub data Outcome : Type 0 where
  done refused : Outcome

-- The tests on what the address belongs to.
abbrev pub is_foreign : Group → Option (Group × Option Connection) → Bool
is_foreign g none = false
is_foreign g (some (h, oc)) = not (h.handle == g.handle)

abbrev pub found_conn : Option (Group × Option Connection) → Option Connection
found_conn none = none
found_conn (some (h, oc)) = oc

abbrev pub join : Group → Option Connection → Group
join g none = g
join g (some c) = add_connection g c

-- evict_oldest_pending_group, once the group is picked.
unfoldable pub evict : Group → Receiver → Receiver
evict g r = drop_group Metrics.groups_removed_evicted g r

module _ (os : Os) where
  -- Refuses: a two-byte packet of the given type goes back, and the reason is counted.
  unfoldable pub refuse : Receiver → SockAddr → ℕ → Counter → Outcome × Receiver
  refuse r addr type reason = (refused, count reason 1 (pad_sendto os r addr (put16 type)).1)

  abbrev pub made_group : Receiver → SockAddr → List ℕ → ℕ → Group
  made_group r addr buffer ts = record (new_group r.next (drop 2 buffer) (os.random r.calls) ts) {
    last_addr = addr;
  }

  unfoldable pub answer_group : Receiver → SockAddr → List ℕ → ℕ → Outcome × Receiver
  answer_group r addr buffer ts =
      let g = made_group r addr buffer ts in
      let (ret, sent) =
        pad_sendto os (record r { next = suc r.next }) addr (put16 srtla_type_reg2 ++ g.id) in
      if not (eqb_ℤ ret (pos srtla_type_reg2_len))
      then (refused, count Metrics.group_reg_send_error 1 sent)
      else (
        done,
        count Metrics.group_registrations 1 (record sent { groups = add_group sent.groups g }),
      )

  -- From the test on the address on.
  unfoldable pub register_new : Receiver → SockAddr → List ℕ → ℕ → Outcome × Receiver
  unfolding answer_group
  register_new r addr buffer ts = elim (find_by_address r.groups addr) [
    | some _ ↦ refuse r addr srtla_type_reg_err Metrics.group_reg_dup_addr
    | none ↦ answer_group r addr buffer ts
  ]

  unfoldable pub register_group : Receiver → SockAddr → List ℕ → ℕ → Outcome × Receiver
  unfolding register_new evict
  register_group r addr buffer ts =
      if is_blocked r.entries addr ts
      then refuse r addr srtla_type_reg_err Metrics.group_reg_throttled
      else if not (leb max_groups (length r.groups))
      then register_new r addr buffer ts
      else elim (oldest_pending_group r.groups) [
        | none ↦ refuse r addr srtla_type_reg_err Metrics.group_reg_table_full
        | some g ↦ register_new (evict g r) addr buffer ts
      ]

  -- The connection is there, or has been made: REG3 goes out, and then it counts.
  unfoldable pub answer_connection :
      Receiver → Group → SockAddr → Option Connection → Outcome × Receiver
  answer_connection r g addr made =
      let (ret, sent) = pad_sendto os r addr (put16 srtla_type_reg3) in
      let joined = join g made in
      if not (eqb_ℤ ret (pos 2)) then (refused, count Metrics.conn_reg_send_error 1 sent) else (
        done,
        count Metrics.conn_registrations 1
            (put_group (record joined { last_addr = addr }) (write_socket_info_file joined sent)),
      )

  unfoldable pub join_group : Receiver → Group → SockAddr → ℕ → Outcome × Receiver
  unfolding answer_connection
  join_group r g addr ts =
      let found = find_by_address r.groups addr in
      if is_foreign g found
      then refuse r addr srtla_type_reg_err Metrics.conn_reg_group_mismatch
      else elim (found_conn found) [
        | some c ↦ answer_connection r g addr none
        | none ↦
            if leb max_conns_per_group (length g.conns)
            then refuse r addr srtla_type_reg_err Metrics.conn_reg_max_conns
            else answer_connection (record r { next = suc r.next }) g addr
                (some (new_connection r.next addr ts))
      ]

  unfoldable pub register_connection : Receiver → SockAddr → List ℕ → ℕ → Outcome × Receiver
  unfolding join_group
  register_connection r addr buffer ts = elim (find_group_by_id r.groups (drop 2 buffer)) [
    | none ↦ refuse r addr srtla_type_reg_ngp Metrics.conn_reg_no_group
    | some g ↦ join_group r g addr ts
  ]
