-- ===== src/Sender/Valid/Words.antt =====
-- What the lists in NAKs and ACKs leave sound in src/sender.cpp.
use srtla.Base.{
  ℕ, zero, suc, ◌+◌, ◌-◌, ◌*◌, ◌/◌, ◌%◌, ◌^◌, ◌≡◌, refl, ap, inl, inr, Bool, true, false, List, ◌∷◌,
  length, take, leb, arith, pos, Bool-cases, get_or,
}
use srtla.Base.Assoc.{bytes_eq}
use srtla.Addr.{slice}
use srtla.Wire.{be32, int32, mtu}
use srtla.Sender.{Sender, Result, ok, exited, ◌>>=◌}
use srtla.Sender.Log.{register_nak, register_srtla_ack}
use srtla.Sender.Receive.{register_range, nak_range, nak_range_at, nak_words, ack_words}
use srtla.Sender.Valid.{Keeps, Keeps-refl, Keeps-trans}
use srtla.Sender.Valid.Log.{register_nak-Keeps, register_srtla_ack-Keeps}

-- What a result keeps, if the program goes on.
abbrev pub KeepsOn : Sender → Result Sender → Type 0
KeepsOn s (ok t) = Keeps s t
KeepsOn s exited = Unit {0}
KeepsOn s Result.undefined = Unit {0}

pub >>=-KeepsOn :
    (s : Sender) (m : Result Sender) (f : Sender → Result Sender)
    → KeepsOn s m
    → ((t : Sender) → KeepsOn t (f t))
    → KeepsOn s (m >>= f)
>>=-KeepsOn s (ok t) f k h = after (f t) (h t)
  where
    after : (r : Result Sender) → KeepsOn t r → KeepsOn s r
    after (ok u) l = Keeps-trans s t u k l
    after exited l = tt
    after Result.undefined l = tt
>>=-KeepsOn s exited f k h = tt
>>=-KeepsOn s Result.undefined f k h = tt

pub KeepsOn-from : (s t : Sender) (r : Result Sender) → Keeps s t → KeepsOn t r → KeepsOn s r
KeepsOn-from s t (ok u) k l = Keeps-trans s t u k l
KeepsOn-from s t exited k l = tt
KeepsOn-from s t Result.undefined k l = tt

register_range-Keeps : (lost count : ℕ) (s : Sender) → Keeps s (register_range lost count s)
unfolding register_range
register_range-Keeps lost zero s = Keeps-refl s
register_range-Keeps lost (suc count) s =
    let t = register_nak (pos lost) s in
    Keeps-trans s t (register_range (lost + 1) count t) (register_nak-Keeps (pos lost) s)
      (register_range-Keeps (lost + 1) count t)

nak_range_at-Keeps : (buf : List ℕ) (i : ℕ) (s : Sender) → KeepsOn s (nak_range_at buf i s)
unfolding nak_range_at nak_range
nak_range_at-Keeps buf i s =
    let id = be32 buf (4 * i) % 2 ^ 31 in
    let last_id = be32 buf (4 * (i + 1)) in
    elim (Bool-cases (leb (mtu / 4) (i + 1))) [
      | inl e ↦ rw e tt
      | inr e ↦ rw e (elim (Bool-cases (leb (2 ^ 31 - 1) last_id)) [
        | inl far ↦ rw far tt
        | inr near ↦ rw near (register_range-Keeps id (last_id + 1 - id) s)
      ])
    ]

pub nak_words-Keeps :
    (buf : List ℕ) (rest i : ℕ) (skip : Bool) (s : Sender) → KeepsOn s (nak_words buf rest i skip s)
unfolding nak_words
nak_words-Keeps buf zero i skip s = Keeps-refl s
nak_words-Keeps buf (suc rest) i true s = nak_words-Keeps buf rest (i + 1) false s
nak_words-Keeps buf (suc rest) i false s =
    let t = register_nak (pos (be32 buf (4 * i))) s in
    elim (Bool-cases (leb (2 ^ 31) (be32 buf (4 * i)))) [
      | inl e ↦
          rw (e, nak_words)
            (>>=-KeepsOn s (nak_range_at buf i s) (λ u. nak_words buf rest (i + 1) true u)
              (nak_range_at-Keeps buf i s) (nak_words-Keeps buf rest (i + 1) true))
      | inr e ↦
          rw (e, nak_words)
            (KeepsOn-from s t (nak_words buf rest (i + 1) false t)
              (register_nak-Keeps (pos (be32 buf (4 * i))) s)
              (nak_words-Keeps buf rest (i + 1) false t))
    ]

pub ack_words-Keeps : (buf : List ℕ) (rest i : ℕ) (s : Sender) → Keeps s (ack_words buf rest i s)
unfolding ack_words
ack_words-Keeps buf zero i s = Keeps-refl s
ack_words-Keeps buf (suc rest) i s =
    let id = int32 (be32 buf (4 * i)) in
    let t = register_srtla_ack id s in
    Keeps-trans s t (ack_words buf rest (i + 1) t) (register_srtla_ack-Keeps id s)
      (ack_words-Keeps buf rest (i + 1) t)

-- A copy of `n` bytes has `n` of them, and begins with any shorter one.
pub length-slice : (buf : List ℕ) (i n : ℕ) → length (slice buf i n) ≡ n
unfolding slice
length-slice buf i zero = refl
length-slice buf i (suc n) = ap suc (length-slice buf (i + 1) n)

pub take-slice : (buf : List ℕ) (k i n : ℕ) → take k (slice buf i (k + n)) ≡ slice buf i k
unfolding slice
take-slice buf zero i n = refl
take-slice buf (suc k) i n =
    let e : suc k + n ≡ suc (k + n) = omega arith in
    rw e (ap (λ t. get_or buf i 0 ∷ t) (take-slice buf k (i + 1) n))
