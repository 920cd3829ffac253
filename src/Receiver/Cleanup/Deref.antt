-- ===== src/Receiver/Cleanup/Deref.antt =====
-- The table read through a pointer, after each change of it.
use srtla.Base.{
  ℕ, ◌≡◌, refl, sym, ◌∙◌, ap, subst, false, none, some, List, [], ◌∷◌, Bool-cases, inl, inr, ◌==◌,
  ==_iff, if◌then◌else◌,
}
use srtla.Group.{Group}
use srtla.Receiver.{deref}
use srtla.Registry.{remove_group, store}

-- No object is twice in the table.
abbrev pub Distinct : List Group → Type 0
Distinct [] = Unit {0}
Distinct (g ∷ gs) = (deref g.handle gs ≡ none) × Distinct gs

pub deref-handle : (h : ℕ) (gs : List Group) (g : Group) → deref h gs ≡ some g → g.handle ≡ h
unfolding deref
deref-handle h [] g e = absurd (cc)
deref-handle h (k ∷ ks) g e = elim (Bool-cases (k.handle == h)) [
  | inl same ↦
      let eq : k ≡ g = cc (rw same at e) in ap (λ x. x.handle) (sym eq) ∙ (==_iff k.handle h).0 same
  | inr other ↦ deref-handle h ks g (rw other at e)
]

pub deref-store :
    (g : Group) (gs : List Group) (old : Group)
    → deref g.handle gs ≡ some old
    → deref g.handle (store g gs) ≡ some g
unfolding deref store
deref-store g [] old e = absurd (cc)
deref-store g (k ∷ ks) old e = elim (Bool-cases (k.handle == g.handle)) [
  | inl same ↦ rw (same, (==_iff g.handle g.handle).1 refl) refl
  | inr other ↦ rw (other, other) (deref-store g ks old (rw other at e))
]

pub deref-store_other :
    (h : ℕ) (g : Group) (gs : List Group)
    → (g.handle == h) ≡ false
    → deref h (store g gs) ≡ deref h gs
unfolding deref store
deref-store_other h g [] n = refl
deref-store_other h g (k ∷ ks) n = elim (Bool-cases (k.handle == g.handle)) [
  | inl same ↦
      let apart : (k.handle == h) ≡ false =
        subst (λ x. (x == h) ≡ false) (sym ((==_iff k.handle g.handle).0 same)) n in
      rw (same, n, apart) (deref-store_other h g ks n)
  | inr other ↦
      rw other (ap (λ t. if k.handle == h then some k else t) (deref-store_other h g ks n))
]

pub deref-remove : (h : ℕ) (gs : List Group) → deref h (remove_group gs h) ≡ none
unfolding deref remove_group
deref-remove h [] = refl
deref-remove h (k ∷ ks) = elim (Bool-cases (k.handle == h)) [
  | inl same ↦ rw same (deref-remove h ks)
  | inr other ↦ rw (other, other) (deref-remove h ks)
]

pub deref-remove_other :
    (h k : ℕ) (gs : List Group) → (k == h) ≡ false → deref h (remove_group gs k) ≡ deref h gs
unfolding deref remove_group
deref-remove_other h k [] n = refl
deref-remove_other h k (g ∷ gs) n = elim (Bool-cases (g.handle == k)) [
  | inl same ↦
      let apart : (g.handle == h) ≡ false =
        subst (λ x. (x == h) ≡ false) (sym ((==_iff g.handle k).0 same)) n in
      rw (same, apart) (deref-remove_other h k gs n)
  | inr other ↦
      rw other (ap (λ t. if g.handle == h then some g else t) (deref-remove_other h k gs n))
]
