-- ===== src/Sender/Log/Search.antt =====
-- A search of the packet log of src/sender.cpp strikes out what it finds.
use srtla.Base.{
  ℕ, zero, suc, ◌≡◌, ◌≢◌, refl, sym, ap, inl, inr, true, false, Option, none, some, List, [], ◌∷◌,
  length, take, get_or, set, subst, get_or-set_self, get_or-set_ne, arith, ℤ, pos, negsuc, eqb_ℤ,
  Bool-cases, ==_iff,
}
use srtla.Sender.Log.{search_log}
use srtla.Sender.Log.Ring.{mem, Nodup, Below}
use srtla.Sender.Log.View.{read, strike}

pub read-set_absent :
    (log : List ℤ) (is : List ℕ) (i : ℕ) (v : ℤ)
    → mem i is ≡ false
    → read (set log i v) is ≡ read log is
read-set_absent log [] i v m = refl
read-set_absent log (x ∷ is) i v m =
    let ne : i ≢ x = λ e. ground (arith, ==_iff x i, e) in
    rw (get_or-set_ne log i x v (pos 0) ne, read-set_absent log is i v (ground arith))

pub take-read : (log : List ℤ) (n : ℕ) (is : List ℕ) → read log (take n is) ≡ take n (read log is)
take-read log zero is = refl
take-read log (suc n) [] = refl
take-read log (suc n) (i ∷ is) = ap (λ t. get_or log i (pos 0) ∷ t) (take-read log n is)

pub mem-take : (n j : ℕ) (is : List ℕ) → mem j is ≡ false → mem j (take n is) ≡ false
mem-take zero j is m = refl
mem-take (suc n) j [] m = refl
mem-take (suc n) j (i ∷ is) m = ground (arith, mem-take n j is)

-- What is found is struck out.
search_log-mem :
    (log : List ℤ) (p : ℤ) (is : List ℕ) (i : ℕ) → search_log log p is ≡ some i → mem i is ≡ true
unfolding search_log
search_log-mem log p [] i e = absurd (clash e)
  where
    clash : none ≡ some i → ⊥
    clash e = cc
search_log-mem log p (x ∷ is) i e = ground (arith, search_log-mem log p is i)

pub strike-search_none :
    (log : List ℤ) (p : ℤ) (is : List ℕ)
    → search_log log p is ≡ none
    → strike p (read log is) ≡ none
unfolding search_log
strike-search_none log p [] e = refl
strike-search_none log p (x ∷ is) e = elim (Bool-cases (eqb_ℤ (get_or log x (pos 0)) p)) [
  | inl hit ↦ absurd (clash (rw hit at e))
  | inr miss ↦ rw (miss, strike-search_none log p is (rw miss at e))
]
  where
    clash : some x ≡ none → ⊥
    clash e = cc

pub strike-search_some :
    (log : List ℤ) (p : ℤ) (is : List ℕ) (i : ℕ)
    → length log ≡ 256
    → Nodup is
    → Below is
    → search_log log p is ≡ some i
    → strike p (read log is) ≡ some (read (set log i (negsuc 0)) is)
unfolding search_log
strike-search_some log p [] i n d b e = absurd (clash e)
  where
    clash : none ≡ some i → ⊥
    clash e = cc
strike-search_some log p (x ∷ is) i n d b e = elim (Bool-cases (eqb_ℤ (get_or log x (pos 0)) p)) [
  | inl hit ↦
      let at : x ≡ i = ap (or_zero) (rw hit at e) in
      let self = get_or-set_self log x (negsuc 0) (pos 0) (omega (arith, b.0)) in
      let others = read-set_absent log is x (negsuc 0) d.0 in
      subst (λ j. strike p (read log (x ∷ is)) ≡ some (read (set log j (negsuc 0)) (x ∷ is))) at
        (rw hit (λ k. some (sym self k ∷ sym others k)))
  | inr miss ↦
      let rest : search_log log p is ≡ some i = rw miss at e in
      let ne : i ≢ x = λ q. ground (arith, search_log-mem log p is i rest, q, d.0) in
      rw (
        miss,
        strike-search_some log p is i n d.1 b.1 rest,
        get_or-set_ne log i x (negsuc 0) (pos 0) ne,
      )
]
  where
    or_zero : Option ℕ → ℕ
    or_zero none = 0
    or_zero (some i) = i
