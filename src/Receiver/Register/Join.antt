-- ===== src/Receiver/Register/Join.antt =====
-- What register_connection of src/protocol/srtla_handler.cpp leaves valid.
use srtla.Base.{
  ℕ, suc, ◌<◌, ◌≡◌, ◌≢◌, ◌⊎◌, inl, inr, refl, sym, ◌∙◌, ap, subst, true, false, ◌||◌, Option, none,
  some, List, [], ◌∷◌, ◌++◌, leb, length, length-append, arith, Bool-cases, Option-cases, pos,
  eqb_ℤ, drop,
}
use srtla.Addr.{SockAddr, addresses_equal, is_zero, constant_time_compare}
use srtla.Addr.Compare.{addresses_equal_symm}
use srtla.Connection.{Connection, new_connection}
use srtla.Group.{Group}
use srtla.Os.{Os}
use srtla.Registry.{store, find_group_by_id, find_by_address, find_conn, max_conns_per_group}
use srtla.Registry.Lookup.{
  MemGroup, claims, has_conn_at, find_by_address-some, find_by_address-none, find_conn-none,
}
use srtla.Registry.Valid.{
  IsValid, GroupOk, Apart, LogsOk, store-IsValid, later-IsValid, Fits-extend,
}
use srtla.Wire.{put16, srtla_type_reg3, srtla_id_len}
use srtla.Receiver.{Receiver, count, pad_sendto, put_group}
use srtla.Receiver.Quiet.{pad_sendto-Quiet, write_socket_info_file-Quiet, Valid}
use srtla.Receiver.Register.{
  join, answer_connection, is_foreign, found_conn, join_group, register_connection,
}
use srtla.Receiver.Register.Valid.{refuse-Valid}

has_conn_at-append :
    (cs : List Connection) (c : Connection) (a : SockAddr)
    → has_conn_at (cs ++ c ∷ []) a ≡ (has_conn_at cs a || addresses_equal c.addr a)
unfolding has_conn_at
has_conn_at-append [] c a = ground arith
has_conn_at-append (d ∷ cs) c a = ground (arith, has_conn_at-append cs c a)

Apart-append :
    (cs : List Connection) (c : Connection)
    → Apart cs
    → has_conn_at cs c.addr ≡ false
    → Apart (cs ++ c ∷ [])
unfolding has_conn_at
Apart-append [] c p h = (refl, tt)
Apart-append (d ∷ cs) c p h = (
  ground (arith, has_conn_at-append cs c d.addr, addresses_equal_symm c.addr d.addr, p.0),
  Apart-append cs c p.1 (ground arith),
)

LogsOk-append :
    (cs : List Connection) (c : Connection)
    → LogsOk cs
    → (c.recv_idx < 10) × (length c.recv_log ≡ 10)
    → LogsOk (cs ++ c ∷ [])
LogsOk-append [] c p h = (h, tt)
LogsOk-append (d ∷ cs) c p h = (p.0, LogsOk-append cs c p.1 h)

pub find_group_by_id-mem :
    (gs : List Group) (id : List ℕ) (g : Group) → find_group_by_id gs id ≡ some g → MemGroup g gs
unfolding find_group_by_id
find_group_by_id-mem [] id g e = absurd (cc)
find_group_by_id-mem (h ∷ hs) id g e =
    elim (Bool-cases (is_zero (constant_time_compare h.id id srtla_id_len))) [
      | inl same ↦
          let eq : h ≡ g = cc (rw same at e) in subst (λ x. MemGroup x (h ∷ hs)) eq MemGroup.head
      | inr other ↦ MemGroup.tail (find_group_by_id-mem hs id g (rw other at e))
    ]

-- What may join the group `g` at the address `addr`: nothing, where `g` already has a connection
-- there, or a new connection, where it has none and has room.
abbrev Joins : Group → SockAddr → Option Connection → Type 0
Joins g addr none = Unit {0}
Joins g addr (some c) =
    (c.addr ≡ addr)
    × (has_conn_at g.conns addr ≡ false)
    × (length g.conns < max_conns_per_group)
    × (c.recv_idx < 10)
    × (length c.recv_log ≡ 10)

abbrev joined : Group → SockAddr → Option Connection → Group
joined g addr made = record (join g made) { last_addr = addr }

joined-GroupOk :
    (g : Group) (addr : SockAddr) (made : Option Connection)
    → GroupOk g
    → Joins g addr made
    → GroupOk (joined g addr made)
joined-GroupOk g addr none k j = record {
  few = k.few;
  apart = k.apart;
  logs = k.logs;
  closed = k.closed;
}
joined-GroupOk g addr (some c) k j = record {
  few = omega (arith, length-append g.conns (c ∷ []), j.2);
  apart = Apart-append g.conns c k.apart (subst (λ a. has_conn_at g.conns a ≡ false) (sym j.0) j.1);
  logs = LogsOk-append g.conns c k.logs (j.3, j.4);
  closed = k.closed;
}

joined-claims :
    (g : Group) (addr : SockAddr) (made : Option Connection) (a : SockAddr)
    → Joins g addr made
    → claims (joined g addr made) a ≡ true
    → (claims g a ≡ true) ⊎ (addresses_equal addr a ≡ true)
unfolding claims
joined-claims g addr none a j h = ground arith
joined-claims g addr (some c) a j h =
    let e : addresses_equal c.addr a ≡ addresses_equal addr a = ap (λ x. addresses_equal x a) j.0 in
    ground (arith, has_conn_at-append g.conns c a)

-- No group but `g` claims the address.
abbrev FreeBut : List Group → Group → SockAddr → Type 0
FreeBut gs g a = (h : Group) → MemGroup h gs → h.handle ≢ g.handle → claims h a ≡ false

join-handle : (g : Group) (made : Option Connection) → (join g made).handle ≡ g.handle
join-handle g none = refl
join-handle g (some c) = refl

joined-store :
    (gs : List Group) (next : ℕ) (g : Group) (addr : SockAddr) (made : Option Connection)
    → IsValid gs next
    → MemGroup g gs
    → FreeBut gs g addr
    → Joins g addr made
    → IsValid (store (joined g addr made) gs) next
joined-store gs next g addr made v m free j =
    let e = join-handle g made in
    store-IsValid gs (joined g addr made) next v (joined-GroupOk g addr made (v.groups_ok g m) j)
      (Fits-extend gs (joined g addr made) addr (λ h k n. free h k (λ q. n (q ∙ sym e)))
        (λ a p. elim (joined-claims g addr made a j p) [
          | inl old ↦ inl (λ h k n. v.exclusive g h m k (λ q. n (sym q ∙ sym e)) a old)
          | inr eq ↦ inr eq
        ]))
      (rw e (v.fresh g m))

module _ (os : Os) where
  answer_connection-Valid :
      (r : Receiver) (g : Group) (addr : SockAddr) (made : Option Connection)
      → Valid r
      → MemGroup g r.groups
      → FreeBut r.groups g addr
      → Joins g addr made
      → Valid (answer_connection os r g addr made).1
  unfolding answer_connection count put_group
  answer_connection-Valid r g addr made v m free j =
      let out = put16 srtla_type_reg3 in
      let sent = (pad_sendto os r addr out).1 in
      let p = pad_sendto-Quiet os r addr out in
      let w = write_socket_info_file-Quiet (join g made) sent in
      elim (Bool-cases (eqb_ℤ (pad_sendto os r addr out).0 (pos 2))) [
        | inl e ↦
            rw (e, w.groups, w.next, p.groups, p.next)
              (joined-store r.groups r.next g addr made v m free j)
        | inr e ↦ rw (e, p.groups, p.next) v
      ]

  -- What the lookup by address says where it does not name another group.
  lookup_free :
      (r : Receiver) (g : Group) (addr : SockAddr)
      → Valid r
      → MemGroup g r.groups
      → (found : Option (Group × Option Connection)) → find_by_address r.groups addr ≡ found
      → is_foreign g found ≡ false
      → FreeBut r.groups g addr × (found_conn found ≡ none → has_conn_at g.conns addr ≡ false)
  unfolding claims
  lookup_free r g addr v m none e f = (
    (λ h k n. find_by_address-none r.groups addr e h k),
    (λ c. let free = find_by_address-none r.groups addr e g m in ground arith),
  )
  lookup_free r g addr v m (some (h, oc)) e f =
      let s = find_by_address-some r.groups addr h oc e in
      let same : h ≡ g = v.unique h g s.0 m (ground arith) in
      let conn : oc ≡ find_conn g.conns addr = s.2 ∙ ap (λ x. find_conn x.conns addr) same in
      (
        (λ x k n.
            v.exclusive g x m k (λ q. n (sym q)) addr (subst (λ x. claims x addr ≡ true) same s.1)),
        (λ c. find_conn-none g.conns addr (sym conn ∙ c)),
      )

  join_group-Valid :
      (r : Receiver) (g : Group) (addr : SockAddr) (ts : ℕ)
      → Valid r
      → MemGroup g r.groups
      → Valid (join_group os r g addr ts).1
  unfolding join_group new_connection
  join_group-Valid r g addr ts v m =
      let found = find_by_address r.groups addr in
      elim (Bool-cases (is_foreign g found)) [
        | inl f ↦ rw f (refuse-Valid os r addr _ _ v)
        | inr f ↦
            let free = lookup_free r g addr v m found refl f in
            elim (Option-cases (found_conn found)) [
              | inr (c, known) ↦ rw (f, known) (answer_connection-Valid r g addr none v m free.0 tt)
              | inl unknown ↦ elim (Bool-cases (leb max_conns_per_group (length g.conns))) [
                | inl full ↦ rw (f, unknown, full) (refuse-Valid os r addr _ _ v)
                | inr room ↦
                    rw (f, unknown, room)
                      (answer_connection-Valid (record r { next = suc r.next }) g addr
                        (some (new_connection r.next addr ts))
                        (later-IsValid r.groups r.next (suc r.next) (omega arith) v) m free.0
                        (refl, free.1 unknown, ground arith, omega arith, refl))
              ]
            ]
      ]

  -- A connection registration keeps the table valid, whatever the packet holds and whatever the
  -- calls of the operating system return.
  pub register_connection-Valid :
      (r : Receiver) (addr : SockAddr) (buffer : List ℕ) (ts : ℕ)
      → Valid r
      → Valid (register_connection os r addr buffer ts).1
  unfolding register_connection
  register_connection-Valid r addr buffer ts v =
      elim (Option-cases (find_group_by_id r.groups (drop 2 buffer))) [
        | inl none_there ↦ rw (none_there, register_connection) (refuse-Valid os r addr _ _ v)
        | inr (g, there) ↦
            rw (there, register_connection)
              (join_group-Valid r g addr ts v
                (find_group_by_id-mem r.groups (drop 2 buffer) g there))
      ]
