-- ===== src/Exchange/Losses.antt =====
-- The loss list of an SRT NAK as src/sender.cpp reads it. The NAK comes from the SRT server and
-- the receiver passes it on as it is.
use native.Mathlib.Numerals.{unary_clauses}
use srtla.Base.{
  ℕ, zero, suc, ◌+◌, ◌-◌, ◌*◌, ◌/◌, ◌%◌, ◌^◌, ◌<◌, ◌≤◌, ◌≡◌, refl, ◌∙◌, ap, true, false, List, [],
  ◌∷◌, ◌++◌, length, get_or, ltb, leb, arith, ℤ, pos,
}
use srtla.Exchange.Acks.{words-front}
use srtla.Receiver.Packet.{words}
use srtla.Receiver.Packet.Acks.{AreWords}
use srtla.Sender.{Conn, Sender, Call, ok, modify, ◌>>=◌}
use srtla.Sender.Log.{register_nak}
use srtla.Sender.Receive.{
  register_range, nak_range, nak_range_at, nak_words, to_srt, handle_type, handle_packet,
}
use srtla.Wire.{be16, be32, get_srt_type, srt_type_nak, mtu}

-- An item of a loss list: one number, or all from the first to the last.
pub data Loss : Type 0 where
  one : ℕ → Loss
  range : ℕ → ℕ → Loss

abbrev pub AreLosses : List Loss → Type 0
AreLosses [] = Unit {0}
AreLosses (one n ∷ ls) = (n < 2 ^ 31) × AreLosses ls
AreLosses (range a b ∷ ls) = (a < 2 ^ 31) × (b < 2 ^ 31 - 1) × AreLosses ls

-- Its words: the top bit marks the first number of a range.
abbrev pub loss_words : List Loss → List ℕ
loss_words [] = []
loss_words (one n ∷ ls) = n ∷ loss_words ls
loss_words (range a b ∷ ls) = (2 ^ 31 + a) ∷ b ∷ loss_words ls

abbrev pub from_on : ℕ → ℕ → List ℕ
from_on a zero = []
from_on a (suc n) = a ∷ from_on (a + 1) n

-- The sequence numbers that it reports.
abbrev pub lost_numbers : List Loss → List ℕ
lost_numbers [] = []
lost_numbers (one n ∷ ls) = n ∷ lost_numbers ls
lost_numbers (range a b ∷ ls) = from_on a (b + 1 - a) ++ lost_numbers ls

abbrev pub nak_each : List ℕ → Sender → Sender
nak_each [] s = s
nak_each (n ∷ ns) s = nak_each ns (register_nak (pos n) s)

register_range-each :
    (a n : ℕ) (ns : List ℕ) (s : Sender)
    → nak_each ns (register_range a n s) ≡ nak_each (from_on a n ++ ns) s
unfolding register_range
register_range-each a zero ns s = refl
register_range-each a (suc n) ns s = register_range-each (a + 1) n ns (register_nak (pos a) s)

loss_words-AreWords : (ls : List Loss) → AreLosses ls → AreWords (loss_words ls)
loss_words-AreWords [] h = tt
loss_words-AreWords (one n ∷ ls) h = (omega (arith, h.0), loss_words-AreWords ls h.1)
loss_words-AreWords (range a b ∷ ls) h =
    (omega (arith, h.0), (omega (arith, h.1), loss_words-AreWords ls h.2))

be32-cons : (b : ℕ) (bs : List ℕ) (k : ℕ) → be32 (b ∷ bs) (suc k) ≡ be32 bs k
unfolding be32
be32-cons b bs k = simp unary_clauses refl

nak_words-end : (buf : List ℕ) (i : ℕ) (s : Sender) → nak_words buf 0 i false s ≡ ok s
unfolding nak_words
nak_words-end buf i s = refl

step-one :
    (buf : List ℕ) (rest i n : ℕ) (s : Sender)
    → be32 buf (4 * i) ≡ n
    → n < 2 ^ 31
    → nak_words buf (suc rest) i false s ≡ nak_words buf rest (i + 1) false (register_nak (pos n) s)
unfolding nak_words
step-one buf rest i n s e h =
    let single : leb (2 ^ 31) (be32 buf (4 * i)) ≡ false = ground (arith, e) in
    rw (single, nak_words) (ap (λ w. nak_words buf rest (i + 1) false (register_nak (pos w) s)) e)

nak_range_at-ok :
    (buf : List ℕ) (i a b : ℕ) (s : Sender)
    → be32 buf (4 * i) ≡ 2 ^ 31 + a
    → be32 buf (4 * (i + 1)) ≡ b
    → a < 2 ^ 31
    → b < 2 ^ 31 - 1
    → i + 1 < 375
    → nak_range_at buf i s ≡ ok (register_range a (b + 1 - a) s)
unfolding nak_range_at nak_range
nak_range_at-ok buf i a b s e f ha hb fits =
    let inside : leb (mtu / 4) (i + 1) ≡ false = ground arith in
    let near : leb (2 ^ 31 - 1) b ≡ false = ground arith in
    let id : (2 ^ 31 + a) % 2 ^ 31 ≡ a = omega arith in rw (inside, e, f, near, id) refl

step-range :
    (buf : List ℕ) (rest i a b : ℕ) (s : Sender)
    → be32 buf (4 * i) ≡ 2 ^ 31 + a
    → be32 buf (4 * (i + 1)) ≡ b
    → a < 2 ^ 31
    → b < 2 ^ 31 - 1
    → i + 1 < 375
    → nak_words buf (suc (suc rest)) i false s
      ≡ nak_words buf rest (i + 1 + 1) false (register_range a (b + 1 - a) s)
unfolding nak_words
step-range buf rest i a b s e f ha hb fits =
    let first : leb (2 ^ 31) (be32 buf (4 * i)) ≡ true = ground (arith, e) in
    rw (first, nak_words)
      (ap (λ m. m >>= λ t. nak_words buf rest (i + 1 + 1) false t)
        (nak_range_at-ok buf i a b s e f ha hb fits))

-- The word i of the buffer begins the list.
nak_words-each :
    (buf : List ℕ) (ls : List Loss) (i : ℕ) (s : Sender)
    → AreLosses ls
    → i + length (loss_words ls) ≤ 375
    → ((j : ℕ) → j < length (loss_words ls) → be32 buf (4 * (i + j)) ≡ get_or (loss_words ls) j 0)
    → nak_words buf (length (loss_words ls)) i false s ≡ ok (nak_each (lost_numbers ls) s)
nak_words-each buf [] i s l fits h = nak_words-end buf i s
nak_words-each buf (one n ∷ ls) i s l fits h =
    step-one buf (length (loss_words ls)) i n s
      (ap (λ k. be32 buf (4 * k)) (omega arith) ∙ h 0 (omega arith)) l.0
    ∙ nak_words-each buf ls (i + 1) (register_nak (pos n) s) l.1 (omega (arith, fits))
        (λ j lt. ap (λ k. be32 buf (4 * k)) (omega arith) ∙ h (suc j) (omega arith))
nak_words-each buf (range a b ∷ ls) i s l fits h =
    step-range buf (length (loss_words ls)) i a b s
      (ap (λ k. be32 buf (4 * k)) (omega arith) ∙ h 0 (omega arith)) (h 1 (omega arith)) l.0 l.1
      (omega (arith, fits))
    ∙ nak_words-each buf ls (i + 1 + 1) (register_range a (b + 1 - a) s) l.2 (omega (arith, fits))
        (λ j lt. ap (λ k. be32 buf (4 * k)) (omega arith) ∙ h (suc (suc j)) (omega arith))
    ∙ ap (λ t. ok t) (register_range-each a (b + 1 - a) (lost_numbers ls) s)

be32-after : (xs ys : List ℕ) (k n : ℕ) → length xs + k ≡ n → be32 (xs ++ ys) n ≡ be32 ys k
unfolding be32
be32-after [] ys k n e = ap (λ t. be32 ys t) (omega (arith, e))
be32-after (x ∷ xs) ys k zero e = absurd (omega (arith, e))
be32-after (x ∷ xs) ys k (suc n) e =
    be32-cons x (xs ++ ys) n ∙ be32-after xs ys k n (omega (arith, e))

module _ (ret : List Call → Call → ℤ) where
  -- A NAK: the type, 14 more bytes of header, the loss list, and what else the buffer holds.
  abbrev pub nak_packet : List ℕ → List Loss → List ℕ → List ℕ
  nak_packet header ls rest = 0x80 ∷ 0x03 ∷ header ++ (words (loss_words ls) ++ rest)

  nak-type :
      (header : List ℕ) (ls : List Loss) (rest : List ℕ) (n : ℕ)
      → 2 ≤ n
      → get_srt_type (nak_packet header ls rest) n ≡ srt_type_nak
  unfolding get_srt_type be16
  nak-type header ls rest n h = let long : ltb n 2 ≡ false = ground arith in rw long refl

  -- What the sender makes of a NAK whose loss list, of single numbers and ranges, all of 31 bits
  -- and no range up to 2^31 - 1, fits in the 1500 bytes of its buffer: the connection has heard from the receiver, each sequence
  -- number that the list reports is registered as lost, in the order of the list, and then the
  -- packet goes to the SRT caller.
  pub nak_packet-handled :
      (header rest : List ℕ) (ls : List Loss) (c : Conn) (ts : ℕ) (s : Sender)
      → length header ≡ 14
      → AreLosses ls
      → length (loss_words ls) ≤ 371
      → let n = 16 + 4 * length (loss_words ls) in
        let heard = modify c.handle (λ c. record c { last_rcvd = ts }) s in
        handle_packet ret c n (nak_packet header ls rest) ts s
        ≡ ok (to_srt ret n (nak_packet header ls rest) (nak_each (lost_numbers ls) heard))
  unfolding handle_packet handle_type
  nak_packet-handled header rest ls c ts s hl l fits =
      let n = 16 + 4 * length (loss_words ls) in
      let buf = nak_packet header ls rest in
      let heard = modify c.handle (λ c. record c { last_rcvd = ts }) s in
      let count : n / 4 - 4 ≡ length (loss_words ls) = omega arith in
      let each = nak_words-each buf ls 4 heard l (omega (arith, fits)) (λ j lt.
        be32-after (0x80 ∷ 0x03 ∷ header) (words (loss_words ls) ++ rest) (4 * j) (4 * (4 + j))
          (omega (arith, hl))
        ∙ words-front (loss_words ls) rest j (loss_words-AreWords ls l) lt) in
      rw (nak-type header ls rest n (omega arith), count, each) refl
