-- ===== src/Exchange/Handshake/Answer.antt =====
-- The handshake on the side of src/protocol/srtla_handler.cpp: the answers to REG1 and REG2.
use srtla.Base.{
  ℕ, suc, ◌≤◌, ◌<◌, ◌≡◌, refl, ◌∙◌, ap, true, false, none, some, List, ◌∷◌, ◌++◌, length, arith,
  pos, length-append, leb,
}
use srtla.Base.Assoc.{bytes_eq}
use srtla.Addr.{SockAddr, slice}
use srtla.AuthLimiter.{is_blocked}
use srtla.Float.{Float}
use srtla.Group.{Group, new_group}
use srtla.Metrics
use srtla.Os
use srtla.Os.{Os}
use srtla.Receiver.{Receiver, count, call, pad_sendto}
use srtla.Receiver.Packet.{process_single_packet}
use srtla.Receiver.Register.{
  Outcome, made_group, answer_group, register_new, register_group, register_connection, join_group,
}
use srtla.Receiver.Srt.{Config}
use srtla.Registry.{add_group, find_group_by_id, find_by_address, max_groups}
use srtla.Sender.{Sender}
use srtla.Sender.Valid.Words.{length-slice}
use srtla.Wire.{put16, is_srtla_reg1, srtla_type_reg1, srtla_type_reg2}
use srtla.Exchange.Handshake.Packets.{is_srtla_reg1-reg1, is_srtla_reg1-reg2, is_srtla_reg2-reg2}

-- The group that the receiver makes, and its state once it has answered by REG2.
abbrev pub group_for : Os → SockAddr → ℕ → Receiver → Sender → Group
group_for os addr ts r s = made_group os r addr (put16 srtla_type_reg1 ++ s.srtla_id) ts

abbrev pub reply : Group → List ℕ
reply g = put16 srtla_type_reg2 ++ g.id

abbrev pub answered : SockAddr → Group → Receiver → Receiver
answered addr g r = count Metrics.group_registrations 1 (record r {
  next = suc r.next;
  calls = Os.sendto addr (reply g) ∷ r.calls;
  groups = add_group r.groups g;
})

module _ (os : Os) where
  pub group_for-id :
      (addr : SockAddr) (ts : ℕ) (r : Receiver) (s : Sender)
      → (group_for os addr ts r s).id ≡ slice s.srtla_id 0 128 ++ slice (os.random r.calls) 0 128
  unfolding new_group
  group_for-id addr ts r s = refl

  pub group_for-length :
      (addr : SockAddr) (ts : ℕ) (r : Receiver) (s : Sender)
      → length (group_for os addr ts r s).id ≡ 256
  group_for-length addr ts r s =
      ap (λ t. length t) (group_for-id addr ts r s)
      ∙ length-append (slice s.srtla_id 0 128) (slice (os.random r.calls) 0 128)
      ∙ omega (arith, length-slice s.srtla_id 0 128, length-slice (os.random r.calls) 0 128)

module _ (os : Os) (fl : Float) (cfg : Config) where
  pad_sendto-long :
      (r : Receiver) (addr : SockAddr) (buf : List ℕ)
      → 32 ≤ length buf
      → pad_sendto os r addr buf
        ≡ (os.ret r.calls (Os.sendto addr buf), call (Os.sendto addr buf) r)
  unfolding pad_sendto
  pad_sendto-long r addr buf h =
      let long : leb 32 (length buf) ≡ true = ground arith in rw long refl

  answer_group-answered :
      (addr : SockAddr) (ts : ℕ) (r : Receiver) (s : Sender)
      → let g = group_for os addr ts r s in
        os.ret r.calls (Os.sendto addr (reply g)) ≡ pos 258
        → (answer_group os r addr (put16 srtla_type_reg1 ++ s.srtla_id) ts).1 ≡ answered addr g r
  unfolding answer_group call
  answer_group-answered addr ts r s went =
      let g = group_for os addr ts r s in
      let n = group_for-length os addr ts r s in
      rw (pad_sendto-long (record r { next = suc r.next }) addr (reply g) (omega (arith, n)), went)
        refl

  register_new-unknown :
      (r : Receiver) (addr : SockAddr) (buf : List ℕ) (ts : ℕ)
      → find_by_address r.groups addr ≡ none
      → register_new os r addr buf ts ≡ answer_group os r addr buf ts
  unfolding register_new
  register_new-unknown r addr buf ts e = rw (e, register_new) refl

  pub process-answered :
      (addr : SockAddr) (ts : ℕ) (r : Receiver) (s : Sender)
      → length s.srtla_id ≡ 256
      → is_blocked r.entries addr ts ≡ false
      → length r.groups < max_groups
      → find_by_address r.groups addr ≡ none
      → let g = group_for os addr ts r s in
        let reg1 = put16 srtla_type_reg1 ++ s.srtla_id in
        os.ret r.calls (Os.sendto addr (reply g)) ≡ pos 258
        → process_single_packet os fl cfg reg1 (length reg1) addr ts r ≡ answered addr g r
  unfolding process_single_packet register_group
  process-answered addr ts r s n free room unknown went =
      let reg1 = put16 srtla_type_reg1 ++ s.srtla_id in
      let is : is_srtla_reg1 reg1 (length reg1) ≡ true =
        is_srtla_reg1-reg1 s.srtla_id (length reg1) (omega (arith, n)) in
      let below : leb max_groups (length r.groups) ≡ false = ground arith in
      rw (is, free, below)
        (ap (λ (o : Outcome × Receiver). o.1) (register_new-unknown r addr reg1 ts unknown)
          ∙ answer_group-answered addr ts r s went)

  register_connection-found :
      (g : Group) (r : Receiver) (from : SockAddr) (ts : ℕ)
      → find_group_by_id r.groups g.id ≡ some g
      → register_connection os r from (reply g) ts ≡ join_group os r g from ts
  unfolding register_connection
  register_connection-found g r from ts e = rw (e, register_connection) refl

  -- REG2 on the receiver's side, once the table has the group.
  pub process-joins :
      (g : Group) (r : Receiver) (from : SockAddr) (ts : ℕ)
      → length g.id ≡ 256
      → find_group_by_id r.groups g.id ≡ some g
      → process_single_packet os fl cfg (reply g) (length (reply g)) from ts r
        ≡ (join_group os r g from ts).1
  unfolding process_single_packet
  process-joins g r from ts n e =
      let len : length (reply g) ≡ 258 = omega (arith, n) in
      rw
        (
          is_srtla_reg1-reg2 g.id (length (reply g)) len,
          is_srtla_reg2-reg2 g.id (length (reply g)) len,
        )
        (ap (λ (o : Outcome × Receiver). o.1) (register_connection-found g r from ts e))
