-- ===== src/Receiver/Packet/Valid.antt =====
-- The batches of packets of src/protocol/srtla_handler.cpp, and what the table needs of their handling.
use srtla.Base.{
  ℕ, Option, none, some, List, [], ◌∷◌, Bool-cases, Option-cases, inl, inr, length, ◌==◌,
}
use srtla.Addr.{SockAddr}
use srtla.Float.{Float}
use srtla.Os.{Os}
use srtla.Registry.{find_by_address}
use srtla.Registry.Lookup.{find_by_address-some}
use srtla.Wire.{is_srtla_reg1, is_srtla_reg2}
use srtla.Receiver.{Receiver, count}
use srtla.Receiver.Quiet.{Valid}
use srtla.Receiver.Register.Valid.{register_group-Valid}
use srtla.Receiver.Register.Join.{register_connection-Valid}
use srtla.Receiver.Srt.{Config}
use srtla.Receiver.Packet.{
  process_single_packet, process_message, process_messages, process_packets,
}
use srtla.Receiver.Packet.Traffic.{receive-Valid}

module _ (os : Os) (fl : Float) (cfg : Config) where
  process_single_packet-Valid :
      (buf : List ℕ) (n : ℕ) (addr : SockAddr) (ts : ℕ) (r : Receiver)
      → Valid r
      → Valid (process_single_packet os fl cfg buf n addr ts r)
  unfolding process_single_packet
  process_single_packet-Valid buf n addr ts r v = elim (Bool-cases (is_srtla_reg1 buf n)) [
    | inl reg1 ↦ rw reg1 (register_group-Valid os r addr buf ts v)
    | inr not_reg1 ↦ elim (Bool-cases (is_srtla_reg2 buf n)) [
      | inl reg2 ↦ rw (not_reg1, reg2) (register_connection-Valid os r addr buf ts v)
      | inr not_reg2 ↦ elim (Option-cases (find_by_address r.groups addr)) [
        | inl unknown ↦ rw (not_reg1, not_reg2, unknown, process_single_packet) v
        | inr ((g, none), found) ↦ rw (not_reg1, not_reg2, found, process_single_packet) v
        | inr ((g, some c), found) ↦
            let s = find_by_address-some r.groups addr g (some c) found in
            rw (not_reg1, not_reg2, found, process_single_packet)
              (receive-Valid os fl cfg g r v s.0 c addr buf n ts s.1)
      ]
    ]
  ]

  process_messages-Valid :
      (ms : List (SockAddr × List ℕ)) (ts : ℕ) (r : Receiver)
      → Valid r
      → Valid (process_messages os fl cfg ms ts r)
  unfolding process_messages process_message count
  process_messages-Valid [] ts r v = v
  process_messages-Valid ((addr, buf) ∷ ms) ts r v =
      process_messages-Valid ms ts _ (elim (Bool-cases (length buf == 0)) [
        | inl empty ↦ rw empty v
        | inr some_bytes ↦ rw some_bytes (
            process_single_packet-Valid buf (length buf) addr ts
              (count _ (length buf) (count _ 1 r)) v)
      ])

  -- Whatever packets arrive in a batch, from any addresses, and whatever the calls of the operating
  -- system return, the table stays valid.
  pub process_packets-Valid :
      (batch : Option (List (SockAddr × List ℕ))) (ts : ℕ) (r : Receiver)
      → Valid r
      → Valid (process_packets os fl cfg batch ts r)
  unfolding process_packets count
  process_packets-Valid none ts r v = v
  process_packets-Valid (some ms) ts r v = process_messages-Valid ms ts (count _ 1 r) v
