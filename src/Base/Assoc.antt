-- ===== src/Base/Assoc.antt =====
-- Maps as association lists, over an interface of key equality: what the program uses of
-- std::unordered_map. A key stands in a list at most once.
use Prim.Native.Nat.{ℕ}
use mathlib.Core.Path.{◌≡◌, refl}
use mathlib.Core.Logic.{◌↔◌, inl, inr}
use mathlib.Core.Bool.{Bool, true, false, ◌&&◌}
use mathlib.Core.Option.{Option, none, some}
use mathlib.Core.List.{List, [], ◌∷◌}
use native.Mathlib.Omega.{arith}
use srtla.Base.Tests.{◌==◌ as nat_beq, ==_iff, if◌then◌else◌, Bool-cases}

pub record Eq {ℓ} (A : Type ℓ) : Type ℓ where
  pub beq : A → A → Bool
  pub beq_iff : (a b : A) → (beq a b ≡ true) ↔ (a ≡ b)

instance abbrev pub nat_eq : Eq ℕ
nat_eq = record { beq = nat_beq; beq_iff = ==_iff }

abbrev pub bytes_beq : List ℕ → List ℕ → Bool
bytes_beq [] [] = true
bytes_beq [] (y ∷ ys) = false
bytes_beq (x ∷ xs) [] = false
bytes_beq (x ∷ xs) (y ∷ ys) = nat_beq x y && bytes_beq xs ys

pub bytes_beq_iff : (a b : List ℕ) → (bytes_beq a b ≡ true) ↔ (a ≡ b)
bytes_beq_iff [] [] = ((λ e. refl), (λ e. refl))
bytes_beq_iff [] (y ∷ ys) = ((λ e. cc), (λ e. cc))
bytes_beq_iff (x ∷ xs) [] = ((λ e. cc), (λ e. cc))
bytes_beq_iff (x ∷ xs) (y ∷ ys) =
    ((λ e. ground (arith, bytes_beq_iff xs ys)), (λ e. ground (arith, bytes_beq_iff xs ys)))

instance abbrev pub bytes_eq : Eq (List ℕ)
bytes_eq = record { beq = bytes_beq; beq_iff = bytes_beq_iff }

abbrev pub filter_option {ℓ} : {V : Type ℓ} → (V → Bool) → Option V → Option V
filter_option p none = none
filter_option p (some v) = if p v then some v else none

module _ {ℓ κ} {K : Type ℓ} {V : Type κ} ⦃e : Eq K⦄ where
  unfoldable pub find : K → List (K × V) → Option V
  find k [] = none
  find k ((j, v) ∷ m) = if e.beq j k then some v else find k m

  unfoldable pub insert : K → V → List (K × V) → List (K × V)
  insert k v [] = (k, v) ∷ []
  insert k v ((j, w) ∷ m) = if e.beq j k then (k, v) ∷ m else (j, w) ∷ insert k v m

  -- The loop that erases each entry which fails the test.
  unfoldable pub retain : (V → Bool) → List (K × V) → List (K × V)
  retain p [] = []
  retain p ((j, v) ∷ m) = if p v then (j, v) ∷ retain p m else retain p m

  abbrev pub Distinct : List (K × V) → Type κ
  Distinct [] = Unit
  Distinct ((j, v) ∷ m) = (find j m ≡ none) × Distinct m

  pub find-insert :
      (k j : K) (v : V) (m : List (K × V))
      → find j (insert k v m) ≡ (if e.beq k j then some v else find j m)
  unfolding find insert
  find-insert k j v [] = refl
  find-insert k j v ((i, w) ∷ m) =
      ground (arith, e.beq_iff i k, e.beq_iff i j, e.beq_iff k j, find-insert k j v m)

  pub find-insert_self : (k : K) (v : V) (m : List (K × V)) → find k (insert k v m) ≡ some v
  find-insert_self k v m = rw (find-insert k k v m, (e.beq_iff k k).1 refl)

  find-retain-none :
      (k : K) (p : V → Bool) (m : List (K × V)) → find k m ≡ none → find k (retain p m) ≡ none
  unfolding find retain
  find-retain-none k p [] h = refl
  find-retain-none k p ((j, v) ∷ m) h = ground (arith, find-retain-none k p m)

  pub find-retain :
      (k : K) (p : V → Bool) (m : List (K × V))
      → Distinct m
      → find k (retain p m) ≡ filter_option p (find k m)
  unfolding find retain
  find-retain k p [] d = refl
  find-retain k p ((j, v) ∷ m) d = elim (Bool-cases (e.beq j k)) [
    | inl same ↦
        let eq : j ≡ k = (e.beq_iff j k).0 same in
        let gone : find k (retain p m) ≡ none = rw eq at (find-retain-none j p m d.0) in
        ground arith
    | inr other ↦ ground (arith, find-retain k p m d.1)
  ]

  pub insert-Distinct : (k : K) (v : V) (m : List (K × V)) → Distinct m → Distinct (insert k v m)
  unfolding insert find
  insert-Distinct k v [] d = (refl, tt)
  insert-Distinct k v ((j, w) ∷ m) d = elim (Bool-cases (e.beq j k)) [
    | inl same ↦ let eq : j ≡ k = (e.beq_iff j k).0 same in rw same (rw eq at d.0, d.1)
    | inr other ↦ rw other (
      ground (arith, e.beq_iff j k, e.beq_iff k j, find-insert k j v m, d.0),
      insert-Distinct k v m d.1,
    )
  ]

  pub retain-Distinct : (p : V → Bool) (m : List (K × V)) → Distinct m → Distinct (retain p m)
  unfolding retain
  retain-Distinct p [] d = tt
  retain-Distinct p ((j, v) ∷ m) d = elim (Bool-cases (p v)) [
    | inl kept ↦ rw kept (find-retain-none j p m d.0, retain-Distinct p m d.1)
    | inr gone ↦ rw gone (retain-Distinct p m d.1)
  ]
