-- ===== src/Receiver/Register/Valid.antt =====
-- What the handshake handlers of src/protocol/srtla_handler.cpp leave valid.
use srtla.Base.{
  ℕ, suc, ◌<◌, ◌≡◌, inl, inr, refl, true, none, List, ◌++◌, leb, length, arith, Bool-cases,
  Option-cases, pos, eqb_ℤ,
}
use srtla.Addr.{SockAddr, addresses_equal}
use srtla.AuthLimiter.{is_blocked}
use srtla.Group.{Group, new_group}
use srtla.Metrics.{Counter}
use srtla.Os.{Os}
use srtla.Registry.{oldest_pending_group, find_by_address, max_groups}
use srtla.Registry.Lookup.{MemGroup, claims, has_conn_at, find_by_address-none}
use srtla.Registry.Members.{length-remove_group_mem}
use srtla.Registry.Evict.{oldest_pending_group-mem}
use srtla.Registry.Valid.{GroupOk, Fits, add_group-IsValid, later-IsValid, Fits-extend}
use srtla.Wire.{put16, srtla_type_reg2, srtla_type_reg2_len}
use srtla.Receiver.{Receiver, count, pad_sendto}
use srtla.Receiver.Quiet.{
  Quiet, Quiet-trans, count-Quiet, pad_sendto-Quiet, Valid, Quiet-Valid, drop_group-Valid,
  drop_group-groups,
}
use srtla.Receiver.Register.{refuse, made_group, answer_group, register_new, evict, register_group}

module _ (os : Os) where
  pub refuse-Quiet :
      (r : Receiver) (addr : SockAddr) (type : ℕ) (reason : Counter)
      → Quiet r (refuse os r addr type reason).1
  unfolding refuse
  refuse-Quiet r addr type reason =
      Quiet-trans r (pad_sendto os r addr (put16 type)).1 _
        (pad_sendto-Quiet os r addr (put16 type))
        (count-Quiet reason 1 (pad_sendto os r addr (put16 type)).1)

  pub refuse-Valid :
      (r : Receiver) (addr : SockAddr) (type : ℕ) (reason : Counter)
      → Valid r
      → Valid (refuse os r addr type reason).1
  refuse-Valid r addr type reason v =
      Quiet-Valid r (refuse os r addr type reason).1 (refuse-Quiet r addr type reason) v

  made_group-GroupOk :
      (r : Receiver) (addr : SockAddr) (buffer : List ℕ) (ts : ℕ)
      → GroupOk (made_group os r addr buffer ts)
  unfolding new_group
  made_group-GroupOk r addr buffer ts = record {
    few = omega arith;
    apart = tt;
    logs = tt;
    closed = λ e. refl;
  }

  made_group-claims :
      (r : Receiver) (addr : SockAddr) (buffer : List ℕ) (ts : ℕ) (a : SockAddr)
      → claims (made_group os r addr buffer ts) a ≡ true
      → addresses_equal addr a ≡ true
  unfolding claims has_conn_at new_group
  made_group-claims r addr buffer ts a h = h

  made_group-Fits :
      (r : Receiver) (addr : SockAddr) (buffer : List ℕ) (ts : ℕ)
      → find_by_address r.groups addr ≡ none
      → Fits (made_group os r addr buffer ts) r.groups
  made_group-Fits r addr buffer ts free =
      Fits-extend r.groups (made_group os r addr buffer ts) addr
        (λ h m n. find_by_address-none r.groups addr free h m)
        (λ a p. inr (made_group-claims r addr buffer ts a p))

  made_group-handle :
      (r : Receiver) (addr : SockAddr) (buffer : List ℕ) (ts : ℕ)
      → (made_group os r addr buffer ts).handle ≡ r.next
  unfolding new_group
  made_group-handle r addr buffer ts = refl

  answer_group-Valid :
      (r : Receiver) (addr : SockAddr) (buffer : List ℕ) (ts : ℕ)
      → Valid r
      → length r.groups < max_groups
      → find_by_address r.groups addr ≡ none
      → Valid (answer_group os r addr buffer ts).1
  unfolding answer_group count
  answer_group-Valid r addr buffer ts v room free =
      let g = made_group os r addr buffer ts in
      let r' = record r { next = suc r.next } in
      let out = put16 srtla_type_reg2 ++ g.id in
      let q = pad_sendto-Quiet os r' addr out in
      elim (Bool-cases (eqb_ℤ (pad_sendto os r' addr out).0 (pos srtla_type_reg2_len))) [
        | inl e ↦
            rw (e, q.groups, q.next)
              (add_group-IsValid r.groups g r.next v (made_group-GroupOk r addr buffer ts)
                (made_group-Fits r addr buffer ts free) (made_group-handle r addr buffer ts) room)
        | inr e ↦
            rw (e, q.groups, q.next) (later-IsValid r.groups r.next (suc r.next) (omega arith) v)
      ]

  register_new-Valid :
      (r : Receiver) (addr : SockAddr) (buffer : List ℕ) (ts : ℕ)
      → Valid r
      → length r.groups < max_groups
      → Valid (register_new os r addr buffer ts).1
  unfolding register_new
  register_new-Valid r addr buffer ts v room = elim (Option-cases (find_by_address r.groups addr)) [
    | inl free ↦ rw (free, register_new) (answer_group-Valid r addr buffer ts v room free)
    | inr (x, found) ↦ rw (found, register_new) (refuse-Valid r addr _ _ v)
  ]

  evict-room :
      (r : Receiver) (g : Group)
      → Valid r
      → MemGroup g r.groups
      → Valid (evict g r) × (length (evict g r).groups < max_groups)
  unfolding evict
  evict-room r g v m = (
    drop_group-Valid _ g r v,
    rw ((drop_group-groups _ g r).0) (omega (arith, length-remove_group_mem r.groups g m, v.few)),
  )

  -- A group registration keeps the table valid, whatever the packet holds and whatever the calls of
  -- the operating system return.
  pub register_group-Valid :
      (r : Receiver) (addr : SockAddr) (buffer : List ℕ) (ts : ℕ)
      → Valid r
      → Valid (register_group os r addr buffer ts).1
  unfolding register_group
  register_group-Valid r addr buffer ts v = elim (Bool-cases (is_blocked r.entries addr ts)) [
    | inl b ↦ rw b (refuse-Valid r addr _ _ v)
    | inr b ↦ elim (Bool-cases (leb max_groups (length r.groups))) [
      | inr room ↦ rw (b, room) (register_new-Valid r addr buffer ts v (ground arith))
      | inl full ↦ elim (Option-cases (oldest_pending_group r.groups)) [
        | inl nobody ↦ rw (b, full, nobody, register_group) (refuse-Valid r addr _ _ v)
        | inr (g, oldest) ↦
            let e = evict-room r g v (oldest_pending_group-mem r.groups g oldest) in
            rw (b, full, oldest, register_group)
              (register_new-Valid (evict g r) addr buffer ts e.0 e.1)
      ]
    ]
  ]
