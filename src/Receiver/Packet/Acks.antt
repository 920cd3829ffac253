-- ===== src/Receiver/Packet/Acks.antt =====
-- The SRTLA ACK of register_packet: when it is due, and what it says.
use mathlib.Core.List.{append_assoc, append-nil}
use native.Mathlib.Numerals.{unary_clauses}
use srtla.Base.{
  ℕ, zero, suc, ◌+◌, ◌-◌, ◌*◌, ◌/◌, ◌%◌, ◌^◌, ◌<◌, ◌≡◌, refl, sym, ◌∙◌, ap, subst, true, false,
  List, [], ◌∷◌, ◌++◌, arith, length, drop, length-append, set, get_or, ◌==◌,
}
use srtla.Connection.{Connection}
use srtla.Wire.{be32, srtla_type_ack}
use srtla.Receiver.Packet.{next_idx, is_full, logged, words, srtla_ack_pkt}

-- The connection after the given sequence numbers, in order.
abbrev pub log_all : List ℕ → Connection → Connection
log_all [] c = c
log_all (sn ∷ sns) c = log_all sns (logged sn c)

set-append :
    (xs : List ℕ) (y : ℕ) (ys : List ℕ) (v : ℕ)
    → set (xs ++ y ∷ ys) (length xs) v ≡ (xs ++ v ∷ []) ++ ys
set-append [] y ys v = refl
set-append (x ∷ xs) y ys v = ap (λ t. x ∷ t) (set-append xs y ys v)

-- What is in the log: the numbers `old` so far, and `rest` from an earlier round.
record Logged (c : Connection) (old rest : List ℕ) : Type 0 where
  idx : c.recv_idx ≡ length old
  log : c.recv_log ≡ old ++ rest
  size : length old + length rest ≡ 10

logged-Logged :
    (c : Connection) (old : List ℕ) (y : ℕ) (rest : List ℕ) (sn : ℕ)
    → Logged c old (y ∷ rest)
    → 0 < length rest
    → Logged (logged sn c) (old ++ sn ∷ []) rest
unfolding logged next_idx is_full
logged-Logged c old y rest sn l more =
    let e = l.idx in
    let n = l.size in
    record {
      idx = ground (arith, length-append old (sn ∷ []));
      log = rw (l.log, index l more) (set-append old y rest sn);
      size = omega (arith, length-append old (sn ∷ []));
    }
  where
    index : Logged c old (y ∷ rest) → 0 < length rest → next_idx c - 1 ≡ length old
    index l more = let e = l.idx in let n = l.size in ground arith

-- All the numbers of a round but the last.
log_all-Logged :
    (c : Connection) (old sns rest : List ℕ)
    → Logged c old rest
    → length sns < length rest
    → Logged (log_all sns c) (old ++ sns) (drop (length sns) rest)
log_all-Logged c old [] rest l h = subst (λ t. Logged c t rest) (sym (append-nil old)) l
log_all-Logged c old (sn ∷ sns) [] l h = absurd (omega arith)
log_all-Logged c old (sn ∷ sns) (y ∷ rest) l h =
    let k =
      log_all-Logged (logged sn c) (old ++ sn ∷ []) sns rest
        (logged-Logged c old y rest sn l (omega arith)) (omega arith) in
    subst (λ t. Logged (log_all sns (logged sn c)) t (drop (length sns) rest))
      (append_assoc old (sn ∷ []) sns) k

-- The last number of a round fills the log.
logged-full :
    (c : Connection) (old : List ℕ) (y sn : ℕ)
    → Logged c old (y ∷ [])
    → (is_full c ≡ true) × ((logged sn c).recv_idx ≡ 0) × ((logged sn c).recv_log ≡ old ++ sn ∷ [])
unfolding logged next_idx is_full
logged-full c old y sn l =
    let tenth : next_idx c ≡ 10 = nth l in
    let full : next_idx c == 10 ≡ true = ground (arith, tenth) in
    let slot : next_idx c - 1 ≡ length old = place l in
    (full, rw full refl, rw (slot, l.log) (set-append old y [] sn ∙ append-nil (old ++ sn ∷ [])))
  where
    nth : Logged c old (y ∷ []) → next_idx c ≡ 10
    nth l = let e = l.idx in let n = l.size in ground arith

    place : Logged c old (y ∷ []) → next_idx c - 1 ≡ length old
    place l = let e = l.idx in let n = l.size in ground arith

fresh-Logged : (c : Connection) → c.recv_idx ≡ 0 → length c.recv_log ≡ 10 → Logged c [] c.recv_log
fresh-Logged c i n = record { idx = i; log = refl; size = omega (arith, n) }

last_one :
    (d : Connection) (sns rest : List ℕ) (last : ℕ)
    → length sns ≡ 9
    → Logged d sns rest
    → (is_full d ≡ true)
      × ((logged last d).recv_log ≡ sns ++ last ∷ [])
      × ((logged last d).recv_idx ≡ 0)
last_one d sns [] last n l = absurd (let k = l.size in omega arith)
last_one d sns (y ∷ []) last n l = let f = logged-full d sns y last l in (f.0, f.2, f.1)
last_one d sns (y ∷ z ∷ rest) last n l = absurd (let k = l.size in omega arith)

-- On a connection whose round begins, its log ten entries long, the tenth packet fills the log: it
-- then holds the ten sequence numbers in the order of arrival, and a new round begins.
pub log_all-tenth :
    (c : Connection) (sns : List ℕ) (last : ℕ)
    → c.recv_idx ≡ 0
    → length c.recv_log ≡ 10
    → length sns ≡ 9
    → (is_full (log_all sns c) ≡ true)
      × ((logged last (log_all sns c)).recv_log ≡ sns ++ last ∷ [])
      × ((logged last (log_all sns c)).recv_idx ≡ 0)
log_all-tenth c sns last i n nine =
    last_one (log_all sns c) sns (drop (length sns) c.recv_log) last nine
      (log_all-Logged c [] sns c.recv_log (fresh-Logged c i n) (omega arith))

-- Before the tenth packet of a round, in a log of ten entries, no ACK is due.
log_all-early :
    (c : Connection) (sns : List ℕ)
    → c.recv_idx ≡ 0
    → length c.recv_log ≡ 10
    → length sns < 9
    → is_full (log_all sns c) ≡ false
unfolding is_full next_idx
log_all-early c sns i n few =
    let l = log_all-Logged c [] sns c.recv_log (fresh-Logged c i n) (omega arith) in
    let e = l.idx in ground arith

abbrev pub AreWords : List ℕ → Type 0
AreWords [] = Unit {0}
AreWords (w ∷ ws) = (w < 2 ^ 32) × AreWords ws

pub be32-cons4 :
    (a b c d : ℕ) (ws : List ℕ) (i j : ℕ)
    → j ≡ suc (suc (suc (suc i)))
    → be32 (a ∷ b ∷ c ∷ d ∷ ws) j ≡ be32 ws i
unfolding be32
be32-cons4 a b c d ws i j e = rw e (simp unary_clauses refl)

words-read : (ws : List ℕ) (i : ℕ) → AreWords ws → be32 (words ws) (4 * i) ≡ get_or ws i 0
unfolding words be32
words-read [] i h = refl
words-read (w ∷ ws) zero h = omega (arith, h.0)
words-read (w ∷ ws) (suc i) h =
    be32-cons4 (w / 2 ^ 24 % 256) (w / 2 ^ 16 % 256) (w / 256 % 256) (w % 256) (words ws) (4 * i)
      (4 * suc i) (omega arith)
    ∙ words-read ws i h.1

-- The i-th number of an ACK is read back from the offset 4 + 4 i, big-endian, and the packet's
-- first word is the type of an ACK.
pub srtla_ack_pkt-read :
    (acks : List ℕ) (i : ℕ)
    → AreWords acks
    → (be32 (srtla_ack_pkt acks) (4 + 4 * i) ≡ get_or acks i 0)
      × (be32 (srtla_ack_pkt acks) 0 ≡ srtla_type_ack * 2 ^ 16)
unfolding srtla_ack_pkt be32
srtla_ack_pkt-read acks i h = (
  be32-cons4 145 0 0 0 (words acks) (4 * i) (4 + 4 * i) (omega arith) ∙ words-read acks i h,
  refl,
)
