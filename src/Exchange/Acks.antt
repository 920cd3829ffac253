-- ===== src/Exchange/Acks.antt =====
-- The SRTLA ACK of src/protocol/srtla_handler.cpp as src/sender.cpp reads it.
use srtla.Base.{
  ℕ, zero, suc, ◌+◌, ◌-◌, ◌*◌, ◌/◌, ◌%◌, ◌^◌, ◌<◌, ◌≤◌, ◌≡◌, refl, ◌∙◌, ap, false, List, [], ◌∷◌,
  ◌++◌, length, get_or, ltb, arith, ℤ,
}
use srtla.Receiver.Packet.{words, srtla_ack_pkt}
use srtla.Receiver.Packet.Acks.{AreWords, be32-cons4}
use srtla.Sender.{Conn, Sender, Call, ok, modify}
use srtla.Sender.Log.{register_srtla_ack}
use srtla.Sender.Receive.{ack_words, handle_type, handle_packet}
use srtla.Wire.{be16, be32, get_srt_type, int32, srtla_type_ack}

-- register_srtla_ack for each number, in order.
abbrev pub ack_each : List ℕ → Sender → Sender
ack_each [] s = s
ack_each (a ∷ acks) s = ack_each acks (register_srtla_ack (int32 a) s)

pub words-front :
    (ws rest : List ℕ) (i : ℕ)
    → AreWords ws
    → i < length ws
    → be32 (words ws ++ rest) (4 * i) ≡ get_or ws i 0
unfolding words be32
words-front [] rest i h k = absurd (omega arith)
words-front (w ∷ ws) rest zero h k = omega (arith, h.0)
words-front (w ∷ ws) rest (suc i) h k =
    be32-cons4 (w / 2 ^ 24 % 256) (w / 2 ^ 16 % 256) (w / 256 % 256) (w % 256) (words ws ++ rest)
      (4 * i) (4 * suc i) (omega arith)
    ∙ words-front ws rest i h.1 (omega arith)

ack_words-each :
    (buf acks : List ℕ) (i : ℕ) (s : Sender)
    → ((j : ℕ) → j < length acks → be32 buf (4 * (i + j)) ≡ get_or acks j 0)
    → ack_words buf (length acks) i s ≡ ack_each acks s
unfolding ack_words
ack_words-each buf [] i s h = refl
ack_words-each buf (a ∷ acks) i s h =
    let first : be32 buf (4 * i) ≡ a =
      ap (λ k. be32 buf (4 * k)) (omega arith) ∙ h 0 (omega arith) in
    ap (λ w. ack_words buf (length acks) (i + 1) (register_srtla_ack (int32 w) s)) first
    ∙ ack_words-each buf acks (i + 1) (register_srtla_ack (int32 a) s)
        (λ j lt. ap (λ k. be32 buf (4 * k)) (omega arith) ∙ h (suc j) (omega arith))

ack_pkt-word :
    (acks rest : List ℕ) (j : ℕ)
    → AreWords acks
    → j < length acks
    → be32 (srtla_ack_pkt acks ++ rest) (4 * (1 + j)) ≡ get_or acks j 0
unfolding srtla_ack_pkt
ack_pkt-word acks rest j h lt =
    be32-cons4 145 0 0 0 (words acks ++ rest) (4 * j) (4 * (1 + j)) (omega arith)
    ∙ words-front acks rest j h lt

ack_pkt-type :
    (acks rest : List ℕ) (n : ℕ)
    → 2 ≤ n
    → get_srt_type (srtla_ack_pkt acks ++ rest) n ≡ srtla_type_ack
unfolding get_srt_type srtla_ack_pkt be16
ack_pkt-type acks rest n h = let long : ltb n 2 ≡ false = ground arith in rw long refl

module _ (ret : List Call → Call → ℤ) where
  -- What the sender makes of an SRTLA ACK as the receiver sends it, whatever the rest of its buffer
  -- holds: the connection has heard from the receiver, and each of the 32-bit numbers that the
  -- receiver put in is registered as acknowledged, in that order, and nothing else happens.
  pub srtla_ack_pkt-handled :
      (acks rest : List ℕ) (c : Conn) (ts : ℕ) (s : Sender)
      → AreWords acks
      → handle_packet ret c (4 + 4 * length acks) (srtla_ack_pkt acks ++ rest) ts s
        ≡ ok (ack_each acks (modify c.handle (λ c. record c { last_rcvd = ts }) s))
  unfolding handle_packet handle_type
  srtla_ack_pkt-handled acks rest c ts s h =
      let heard = modify c.handle (λ c. record c { last_rcvd = ts }) s in
      let count : (4 + 4 * length acks) / 4 - 1 ≡ length acks = omega arith in
      rw (ack_pkt-type acks rest (4 + 4 * length acks) (omega arith), count)
        (ap (λ t. ok t)
          (ack_words-each (srtla_ack_pkt acks ++ rest) acks 1 heard
            (λ j lt. ack_pkt-word acks rest j h lt)))
