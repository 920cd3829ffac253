-- ===== src/Exchange/Handshake/Packets.antt =====
-- The packets of the handshake: their types, the ids in them, and the group of an id.
use srtla.Base.{
  ℕ, zero, suc, ◌+◌, ◌/◌, ◌%◌, ◌^◌, ◌≤◌, ◌<◌, ◌≡◌, refl, sym, ◌∙◌, ap, inl, inr, true, false, none,
  some, List, [], ◌∷◌, ◌++◌, length, take, get_or, arith, Bool-cases, pos, ltb,
}
use srtla.Base.Assoc.{bytes_eq}
use srtla.Addr.{slice, constant_time_compare, is_zero}
use srtla.Addr.Compare.{constant_time_compare-zero_iff}
use srtla.Group.{Group}
use srtla.Registry.{find_group_by_id}
use srtla.Wire.{
  put16, be16, get_srt_type, is_srtla_reg1, is_srtla_reg2, srtla_type_reg1, srtla_type_reg2,
}

slice-cons : (b : ℕ) (bs : List ℕ) (i n : ℕ) → slice (b ∷ bs) (suc i) n ≡ slice bs i n
unfolding slice
slice-cons b bs i zero = refl
slice-cons b bs i (suc n) =
    let next : suc i + 1 ≡ suc (i + 1) = omega arith in
    rw next (ap (λ t. get_or bs i 0 ∷ t) (slice-cons b bs (i + 1) n))

pub slice-front : (xs rest : List ℕ) (n : ℕ) → length xs ≡ n → slice (xs ++ rest) 0 n ≡ xs
unfolding slice
slice-front [] rest zero e = refl
slice-front [] rest (suc n) e = absurd (omega (arith, e))
slice-front (x ∷ xs) rest zero e = absurd (omega (arith, e))
slice-front (x ∷ xs) rest (suc n) e =
    let next : 0 + 1 ≡ suc 0 = omega arith in
    rw next
      (ap (λ t. x ∷ t) (slice-cons x (xs ++ rest) 0 n ∙ slice-front xs rest n (omega (arith, e))))

-- After the two bytes of a packet's type.
pub slice-after : (type : ℕ) (xs : List ℕ) (n : ℕ) → slice (put16 type ++ xs) 2 n ≡ slice xs 0 n
slice-after type xs n =
    slice-cons (type / 256 % 256) ((type % 256) ∷ xs) 1 n ∙ slice-cons (type % 256) xs 0 n

pub take-slice_front : (xs : List ℕ) (n : ℕ) → n ≤ length xs → take n xs ≡ slice xs 0 n
unfolding slice
take-slice_front xs zero h = refl
take-slice_front [] (suc n) h = absurd (omega (arith, h))
take-slice_front (x ∷ xs) (suc n) h =
    let next : 0 + 1 ≡ suc 0 = omega arith in
    rw next (ap (λ t. x ∷ t) (take-slice_front xs n (omega (arith, h)) ∙ sym (slice-cons x xs 0 n)))

pub find_group_by_id-last :
    (gs : List Group) (g : Group)
    → find_group_by_id gs g.id ≡ none
    → find_group_by_id (gs ++ g ∷ []) g.id ≡ some g
unfolding find_group_by_id
find_group_by_id-last [] g e =
    let same : constant_time_compare g.id g.id 256 ≡ pos 0 =
      (constant_time_compare-zero_iff g.id g.id 256).1 refl in
    rw same refl
find_group_by_id-last (h ∷ gs) g e =
    elim (Bool-cases (is_zero (constant_time_compare h.id g.id 256))) [
      | inl hit ↦ absurd (clash (rw hit at e))
      | inr miss ↦ rw miss (find_group_by_id-last gs g (rw miss at e))
    ]
  where
    clash : some h ≡ none → ⊥
    clash e = cc

-- What the type of a packet is, and which REG it is.
pub get_srt_type-put16 :
    (type : ℕ) (xs : List ℕ) (n : ℕ)
    → type < 2 ^ 16
    → 2 ≤ n
    → get_srt_type (put16 type ++ xs) n ≡ type
unfolding get_srt_type be16
get_srt_type-put16 type xs n lt two =
    let long : ltb n 2 ≡ false = ground arith in rw long (omega arith)

pub is_srtla_reg1-reg1 :
    (id : List ℕ) (n : ℕ) → n ≡ 258 → is_srtla_reg1 (put16 srtla_type_reg1 ++ id) n ≡ true
unfolding is_srtla_reg1 get_srt_type be16
is_srtla_reg1-reg1 id n e = rw e refl

pub is_srtla_reg1-reg2 :
    (id : List ℕ) (n : ℕ) → n ≡ 258 → is_srtla_reg1 (put16 srtla_type_reg2 ++ id) n ≡ false
unfolding is_srtla_reg1 get_srt_type be16
is_srtla_reg1-reg2 id n e = rw e refl

pub is_srtla_reg2-reg2 :
    (id : List ℕ) (n : ℕ) → n ≡ 258 → is_srtla_reg2 (put16 srtla_type_reg2 ++ id) n ≡ true
unfolding is_srtla_reg2 get_srt_type be16
is_srtla_reg2-reg2 id n e = rw e refl
