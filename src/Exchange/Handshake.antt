-- ===== src/Exchange/Handshake.antt =====
-- The handshake between src/sender.cpp and src/protocol/srtla_handler.cpp: the sender's REG1, the
-- receiver's REG2, the sender's REG2.
mod Packets
mod Ask
mod Answer
use srtla.Base.{
  ℕ, zero, suc, ◌+◌, ◌/◌, ◌%◌, ◌^◌, ◌≤◌, ◌≡◌, inl, inr, none, some, List, [], ◌∷◌, ◌++◌, length,
  drop, get_or, Bool-cases, ℤ, length-append, ltb, leb, if◌then◌else◌, eqb_ℤ, ◌==◌, not,
}
use srtla.Addr.{SockAddr, constant_time_compare, is_zero}
use srtla.Addr.Compare.{constant_time_compare-zero_iff}
use srtla.Float.{Float}
use srtla.Group.{Group, new_group}
use srtla.Metrics
use srtla.Os
use srtla.Os.{Os}
use srtla.Receiver.{Receiver, call, pad_sendto}
use srtla.Receiver.Packet.{process_single_packet}
use srtla.Receiver.Register.{
  Outcome, answer_group, register_new, register_group, register_connection, join_group,
}
use srtla.Receiver.Srt.{Config}
use srtla.Sender.{
  Conn, Sender, Call, Result, ok, sendto, is_open, is_pending, send_reg2, send_reg2_all,
  reg2_timeout, reg3_timeout,
}
use srtla.Sender.Receive.{handle_ngp, handle_reg2, handle_packet}
use srtla.Wire.{
  be16, get_srt_type, is_srtla_reg1, is_srtla_reg2, srtla_type_reg2_len, srtla_type_reg_ngp,
}
use srtla.Exchange.Handshake.Packets.{
  get_srt_type-put16, is_srtla_reg1-reg1, is_srtla_reg1-reg2, is_srtla_reg2-reg2,
}
use srtla.Exchange.Handshake.Ask.{broadcast}

module _ (os : Os) (fl : Float) (cfg : Config) (ret : List Call → Call → ℤ) where
  -- How a handshake goes: what each side sends, and what the other makes of it.
  pub record Handshake (c : Conn) (ts ts' tr : ℕ) (s : Sender) (addr : SockAddr) (r : Receiver)
      (rest : List ℕ) : Type 0 where
    -- The REG1 of the sender, and the connection that it waits for.
    pub reg1 : List ℕ
    pub asked : (handle_ngp ret c ts s).calls ≡ sendto c.fd s.srtla_addr reg1 ∷ s.calls
    pub waits : (handle_ngp ret c ts s).pending_reg2_conn ≡ some c.handle
    -- The group that the receiver makes of it, and its REG2.
    pub group : Group
    pub made :
        (process_single_packet os fl cfg reg1 (length reg1) addr tr r).groups
        ≡ r.groups ++ group ∷ []
    pub reg2 : List ℕ
    pub answer :
        (process_single_packet os fl cfg reg1 (length reg1) addr tr r).calls
        ≡ Os.sendto addr reg2 ∷ r.calls
    -- The sender on it.
    pub after : Sender
    pub handled :
        handle_packet ret c (length reg2) (reg2 ++ rest) ts' (handle_ngp ret c ts s) ≡ ok after
    pub taken : after.srtla_id ≡ group.id
    pub settled : after.pending_reg2_conn ≡ none
    -- The REG2 that it sends on every open connection, and what it is to the receiver.
    pub spread : List ℕ
    pub sent : after.calls ≡ broadcast s.conns s.srtla_addr spread (handle_ngp ret c ts s).calls
    pub joins :
        (later : Receiver) (from : SockAddr) (tj : ℕ)
        → later.groups ≡ (process_single_packet os fl cfg reg1 (length reg1) addr tr r).groups
        → process_single_packet os fl cfg spread (length spread) from tj later
          ≡ (join_group os later group from tj).1
