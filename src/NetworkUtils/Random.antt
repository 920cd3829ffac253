-- ===== src/NetworkUtils/Random.antt =====
-- The two functions get_random_bytes, of src/utils/network_utils.cpp and of src/sender.cpp. What a
-- read of /dev/urandom gives, from the number of the reads before and from how much is asked, is a
-- parameter; `none` stands for the exception.
use srtla.Base.{
  ℕ, zero, suc, ◌-◌, ◌≤◌, ◌<◌, ◌≡◌, refl, Bool, true, inl, inr, Option, none, some, List, [], ◌++◌,
  ltb, ◌==◌, if◌then◌else◌, length, length-append, arith, Bool-cases,
}

module _ (read : ℕ → ℕ → List ℕ) where
  -- The loop, with fuel; the outer `none` is that it runs out.
  unfoldable pub read_rest : ℕ → ℕ → ℕ → List ℕ → Option (Option (List ℕ))
  read_rest zero reads size buffer = none
  read_rest (suc fuel) reads size buffer =
      let bytes = read reads (size - length buffer) in
      let rest = read_rest fuel (suc reads) size (buffer ++ bytes) in
      if ltb (length buffer) size
      then (if length bytes == 0 then some none else rest)
      else some (some buffer)

  -- A read that is not the last gives a byte at least, so that there are `size` reads at most.
  unfoldable pub get_random_bytes : Bool → ℕ → Option (Option (List ℕ))
  get_random_bytes is_open size = if is_open then read_rest (suc size) 0 size [] else some none

  -- The one of the sender, which reads once.
  unfoldable pub read_once : Bool → ℕ → Option (List ℕ)
  read_once is_open size =
      if is_open
      then (let bytes = read 0 size in if length bytes == size then some bytes else none)
      else none

  -- All the bytes, or a read that gave nothing although more were asked for.
  pub data Filled (size : ℕ) : Option (List ℕ) → Type 0 where
    full : (buffer : List ℕ) → length buffer ≡ size → Filled size (some buffer)
    dry : (reads wanted : ℕ) → 0 < wanted → length (read reads wanted) ≡ 0 → Filled size none

  read_rest-Filled :
      (fuel reads size : ℕ) (buffer : List ℕ)
      → ((n wanted : ℕ) → length (read n wanted) ≤ wanted)
      → length buffer ≤ size
      → size - length buffer < fuel
      → (out : Option (List ℕ)) × (read_rest fuel reads size buffer ≡ some out) × Filled size out
  unfolding read_rest
  read_rest-Filled zero reads size buffer fits le lt = absurd (omega arith)
  read_rest-Filled (suc fuel) reads size buffer fits le lt =
      let wanted = size - length buffer in
      let bytes = read reads wanted in
      elim (Bool-cases (ltb (length buffer) size)) [
        | inr done ↦ rw done (some buffer, refl, full buffer (ground (arith, done)))
        | inl more ↦ elim (Bool-cases (length bytes == 0)) [
          | inl nothing ↦
              rw (more, nothing)
                (none, refl, dry reads wanted (ground (arith, more)) (ground (arith, nothing)))
          | inr something ↦
              let h = fits reads wanted in
              let l = length-append buffer bytes in
              let b : 0 < length bytes = ground (arith, something) in
              rw (more, something)
                (read_rest-Filled fuel (suc reads) size (buffer ++ bytes) fits (omega arith)
                  (omega arith))
        ]
      ]

  -- The loop ends, with `size` bytes unless a read gave nothing.
  get_random_bytes-ends :
      (size : ℕ)
      → ((n wanted : ℕ) → length (read n wanted) ≤ wanted)
      → (out : Option (List ℕ)) × (get_random_bytes true size ≡ some out) × Filled size out
  unfolding get_random_bytes
  get_random_bytes-ends size fits =
      read_rest-Filled (suc size) 0 size [] fits (omega arith) (omega arith)
