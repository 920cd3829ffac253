-- ===== src/Registry/Members.antt =====
-- What add_group, remove_group and a write through a group's pointer do to the members of the table.
use srtla.Base.{
  ℕ, suc, ◌+◌, ◌≤◌, ◌<◌, ◌≡◌, ◌≢◌, ◌⊎◌, inl, inr, refl, true, List, [], ◌∷◌, arith, Bool-cases,
  ◌==◌, length, length-append, ap, sym, subst,
}
use srtla.Group.{Group}
use srtla.Registry.{remove_group, store, add_group}
use srtla.Registry.Lookup.{MemGroup, head, tail, mem_cons}

pub mem-add_group :
    (gs : List Group) (g x : Group) → MemGroup x (add_group gs g) → MemGroup x gs ⊎ (x ≡ g)
unfolding add_group
mem-add_group [] g x head = inr refl
mem-add_group [] g x (tail m) = elim m [ ]
mem-add_group (h ∷ hs) g x head = inl head
mem-add_group (h ∷ hs) g x (tail m) = elim (mem-add_group hs g x m) [
  | inl k ↦ inl (tail k)
  | inr e ↦ inr e
]

pub mem-remove_group :
    (gs : List Group) (handle : ℕ) (x : Group)
    → MemGroup x (remove_group gs handle)
    → MemGroup x gs × (x.handle ≢ handle)
unfolding remove_group
mem-remove_group [] handle x m = elim m [ ]
mem-remove_group (g ∷ gs) handle x m = elim (Bool-cases (g.handle == handle)) [
  | inl e ↦ let r = mem-remove_group gs handle x (rw e at m) in (tail r.0, r.1)
  | inr e ↦ elim (mem_cons x g (remove_group gs handle) (rw e at m)) [
    | inl same ↦ (
      subst (λ y. MemGroup y (g ∷ gs)) (sym same) head,
      (λ h. ground (arith, ap (λ y. y.handle) same)),
    )
    | inr k ↦ let r = mem-remove_group gs handle x k in (tail r.0, r.1)
  ]
]

pub mem-store :
    (gs : List Group) (g x : Group)
    → MemGroup x (store g gs)
    → (x ≡ g) ⊎ (MemGroup x gs × (x.handle ≢ g.handle))
unfolding store
mem-store [] g x m = elim m [ ]
mem-store (h ∷ hs) g x m = elim (Bool-cases (h.handle == g.handle)) [
  | inl e ↦ elim (mem_cons x g (store g hs) (rw e at m)) [
    | inl same ↦ inl same
    | inr k ↦ deeper h (mem-store hs g x k)
  ]
  | inr e ↦ elim (mem_cons x h (store g hs) (rw e at m)) [
    | inl same ↦ inr (
      subst (λ y. MemGroup y (h ∷ hs)) (sym same) head,
      (λ q. ground (arith, ap (λ y. y.handle) same)),
    )
    | inr k ↦ deeper h (mem-store hs g x k)
  ]
]
  where
    deeper :
        (h : Group)
        → (x ≡ g) ⊎ (MemGroup x hs × (x.handle ≢ g.handle))
        → (x ≡ g) ⊎ (MemGroup x (h ∷ hs) × (x.handle ≢ g.handle))
    deeper h (inl e) = inl e
    deeper h (inr (k, n)) = inr (tail k, n)

pub length-store : (gs : List Group) (g : Group) → length (store g gs) ≡ length gs
unfolding store
length-store [] g = refl
length-store (h ∷ hs) g = ap suc (length-store hs g)

pub length-remove_group :
    (gs : List Group) (handle : ℕ) → length (remove_group gs handle) ≤ length gs
unfolding remove_group
length-remove_group [] handle = omega arith
length-remove_group (g ∷ gs) handle = ground (arith, length-remove_group gs handle)

-- Removing a member shortens the table.
pub length-remove_group_mem :
    (gs : List Group) (g : Group) → MemGroup g gs → length (remove_group gs g.handle) < length gs
unfolding remove_group
length-remove_group_mem [] g m = elim m [ ]
length-remove_group_mem (h ∷ hs) g head = ground (arith, length-remove_group hs g.handle)
length-remove_group_mem (h ∷ hs) g (tail m) =
    ground (arith, length-remove_group hs g.handle, length-remove_group_mem hs g m)

pub length-add_group : (gs : List Group) (g : Group) → length (add_group gs g) ≡ length gs + 1
unfolding add_group
length-add_group gs g = omega (arith, length-append gs (g ∷ []))

-- A write through the pointer of a group that is removed afterwards leaves no trace.
pub remove_group-store :
    (gs : List Group) (g : Group) → remove_group (store g gs) g.handle ≡ remove_group gs g.handle
unfolding remove_group store
remove_group-store [] g = refl
remove_group-store (h ∷ hs) g = elim (Bool-cases (h.handle == g.handle)) [
  | inl e ↦
      let own : g.handle == g.handle ≡ true = ground arith in rw (e, own) (remove_group-store hs g)
  | inr e ↦ rw e (rw e (ap (λ t. h ∷ t) (remove_group-store hs g)))
]
