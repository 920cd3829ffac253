-- ===== src/Sender/Log/Ring.antt =====
-- The indices that the loops over the packet log of src/sender.cpp go through.
use srtla.Base.{
  ℕ, zero, suc, ◌+◌, ◌%◌, ◌<◌, ◌≤◌, ◌≡◌, refl, sym, ap, inl, inr, Bool, true, false, ◌||◌, List, [],
  ◌∷◌, ◌==◌, arith, negsuc, take, Bool-cases, ==_iff,
}
use srtla.Sender.Log.{get_pkt_idx, slots_from, slots}

-- `n` indices from i on, each one before the last, around the ring.
abbrev pub around : ℕ → ℕ → List ℕ
around zero i = []
around (suc n) i = i ∷ around n ((i + 255) % 256)

pub get_pkt_idx-before : (i : ℕ) → i < 256 → get_pkt_idx i (negsuc 0) ≡ (i + 255) % 256
unfolding get_pkt_idx
get_pkt_idx-before i h = ground arith

-- `n` steps before the loop reaches pkt_idx.
slots_from-around :
    (fuel n idx i : ℕ)
    → idx < 256
    → i < 256
    → i ≡ (idx + n) % 256
    → n < 256
    → n < fuel
    → slots_from fuel idx i ≡ around n i
unfolding slots_from
slots_from-around zero n idx i hx hi e hn hf = absurd (omega arith)
slots_from-around (suc fuel) zero idx i hx hi e hn hf =
    let stop : i == idx ≡ true = (==_iff i idx).1 (omega arith) in rw stop refl
slots_from-around (suc fuel) (suc n) idx i hx hi e hn hf = elim (Bool-cases (i == idx)) [
  | inl stop ↦ absurd (let same : i ≡ idx = (==_iff i idx).0 stop in omega arith)
  | inr go ↦
      rw (go, get_pkt_idx-before i hi)
        (ap (λ t. i ∷ t)
          (slots_from-around fuel n idx ((i + 255) % 256) hx (omega arith) (omega arith)
            (omega arith) (omega arith)))
]

-- With an index in range and fuel for 256 rounds or more, the loop ends by its test: it goes once
-- through each of the 255 slots other than pkt_idx, from the newest packet to the oldest, so that
-- more fuel changes nothing.
pub slots_from-enough :
    (fuel pkt_idx : ℕ)
    → pkt_idx < 256
    → 256 ≤ fuel
    → (slots_from fuel pkt_idx (get_pkt_idx pkt_idx (negsuc 0))
        ≡ around 255 ((pkt_idx + 255) % 256))
      × (slots pkt_idx ≡ around 255 ((pkt_idx + 255) % 256))
unfolding slots
slots_from-enough fuel idx h hf = (
  rw (get_pkt_idx-before idx h) (
      slots_from-around fuel 255 idx ((idx + 255) % 256) h (omega arith) (omega arith) (omega arith)
        (omega arith)),
  rw (get_pkt_idx-before idx h) (
      slots_from-around 256 255 idx ((idx + 255) % 256) h (omega arith) (omega arith) (omega arith)
        (omega arith)),
)

pub slots-around : (idx : ℕ) → idx < 256 → slots idx ≡ around 255 ((idx + 255) % 256)
slots-around idx h = (slots_from-enough 256 idx h (omega arith)).1

abbrev pub mem : ℕ → List ℕ → Bool
mem j [] = false
mem j (x ∷ xs) = (x == j) || mem j xs

-- No index twice.
abbrev pub Nodup : List ℕ → Type 0
Nodup [] = Unit {0}
Nodup (x ∷ xs) = (mem x xs ≡ false) × Nodup xs

abbrev pub Below : List ℕ → Type 0
Below [] = Unit {0}
Below (x ∷ xs) = (x < 256) × Below xs

around-Below : (n i : ℕ) → i < 256 → Below (around n i)
around-Below zero i h = tt
around-Below (suc n) i h = (h, around-Below n ((i + 255) % 256) (omega arith))

-- An index that is d steps back, with n steps or fewer gone through, is not met.
mem-around :
    (n i j d : ℕ)
    → i < 256
    → j < 256
    → i ≡ (j + d) % 256
    → n ≤ d
    → d < 256
    → mem j (around n i) ≡ false
mem-around zero i j d hi hj e hn hd = refl
mem-around (suc n) i j zero hi hj e hn hd = absurd (omega arith)
mem-around (suc n) i j (suc d) hi hj e hn hd =
    let other : i == j ≡ false = ne in
    rw other (
      mem-around n ((i + 255) % 256) j d (omega arith) hj (omega arith) (omega arith) (omega arith))
  where
    ne : i == j ≡ false
    ne = elim (Bool-cases (i == j)) [
      | inl same ↦ absurd (let at : i ≡ j = (==_iff i j).0 same in omega arith)
      | inr other ↦ other
    ]

around-Nodup : (n i : ℕ) → i < 256 → n ≤ 256 → Nodup (around n i)
around-Nodup zero i h hn = tt
around-Nodup (suc n) i h hn = (
  mem-around n ((i + 255) % 256) i 255 (omega arith) h (omega arith) (omega arith) (omega arith),
  around-Nodup n ((i + 255) % 256) (omega arith) (omega arith),
)

pub slots-Nodup : (idx : ℕ) → idx < 256 → Nodup (slots idx)
slots-Nodup idx h =
    rw (slots-around idx h) (around-Nodup 255 ((idx + 255) % 256) (omega arith) (omega arith))

pub slots-Below : (idx : ℕ) → idx < 256 → Below (slots idx)
slots-Below idx h = rw (slots-around idx h) (around-Below 255 ((idx + 255) % 256) (omega arith))

take-around : (k n i : ℕ) → take k (around (k + n) i) ≡ around k i
take-around zero n i = refl
take-around (suc k) n i =
    let e : suc k + n ≡ suc (k + n) = omega arith in
    rw e (ap (λ t. i ∷ t) (take-around k n ((i + 255) % 256)))

-- After a packet is logged, the loop begins with its slot and goes on with what it went through
-- before, but for the oldest one.
pub slots-next : (idx : ℕ) → idx < 256 → slots ((idx + 1) % 256) ≡ idx ∷ take 254 (slots idx)
slots-next idx h =
    let here : ((idx + 1) % 256 + 255) % 256 ≡ idx = omega arith in
    rw (slots-around ((idx + 1) % 256) (omega arith), slots-around idx h, here)
      (ap (λ t. idx ∷ t) (sym (take-around 254 1 ((idx + 255) % 256))))

pub mem-slots_self : (idx : ℕ) → idx < 256 → mem idx (slots idx) ≡ false
mem-slots_self idx h = rw (slots-around idx h) (
    mem-around 255 ((idx + 255) % 256) idx 255 (omega arith) h (omega arith) (omega arith)
      (omega arith))
