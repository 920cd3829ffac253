-- ===== src/Receiver/Packet/Numbered.antt =====
-- What the logging of a sequence number does to a group and to the table.
use srtla.Base.{ℕ, ◌≡◌, refl, Bool-cases, inl, inr, length, ℤ, pos, negsuc, eqb_ℤ}
use srtla.Connection.{Connection}
use srtla.Float.{Float}
use srtla.Os.{Os}
use srtla.Group.{Group}
use srtla.Registry.Kin.{Kin, Kin-refl}
use srtla.Receiver.{Receiver, pad_sendto}
use srtla.Receiver.Quiet.{Quiet, Quiet-refl, Quiet-trans, count-Quiet, pad_sendto-Quiet}
use srtla.Receiver.Srt.{Config}
use srtla.Receiver.Packet.Keeps.{change-Kin, logged-Keeps}
use srtla.Receiver.Packet.{logged, is_full, srtla_ack_pkt, register_packet, numbered}

module _ (os : Os) (fl : Float) (cfg : Config) where
  -- What carry_on's first half does: it changes the connection, and may send an ACK.
  pub record Numbered (g : Group) (r : Receiver) (out : Group × Receiver) : Type 0 where
    pub kin : Kin g out.0
    pub quiet : Quiet r out.1
    pub seen : out.0.data_seen ≡ g.data_seen

  register_packet-Numbered :
      (g : Group) (c : Connection) (sn : ℕ) (r : Receiver)
      → Numbered g r (register_packet os fl cfg g c sn r)
  unfolding register_packet
  register_packet-Numbered g c sn r =
      let ack = srtla_ack_pkt (logged sn c).recv_log in
      let sent = pad_sendto os r c.addr ack in
      let p = pad_sendto-Quiet os r c.addr ack in
      record {
        kin = change-Kin g c (logged sn) (logged-Keeps sn);
        quiet = elim (Bool-cases (is_full c)) [
          | inr room ↦ rw room (Quiet-refl r)
          | inl full ↦ elim (Bool-cases (eqb_ℤ sent.0 (pos (length ack)))) [
            | inl went ↦ rw (full, went) p
            | inr failed ↦ rw (full, failed) (Quiet-trans r sent.1 _ p (count-Quiet _ 1 sent.1))
          ]
        ];
        seen = refl;
      }

  pub numbered-Numbered :
      (g : Group) (c : Connection) (sn : ℤ) (r : Receiver)
      → Numbered g r (numbered os fl cfg g c sn r)
  numbered-Numbered g c (pos sn) r = register_packet-Numbered g c sn r
  numbered-Numbered g c (negsuc k) r = record {
    kin = Kin-refl g;
    quiet = Quiet-refl r;
    seen = refl;
  }
