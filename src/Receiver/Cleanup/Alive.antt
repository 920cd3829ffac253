-- ===== src/Receiver/Cleanup/Alive.antt =====
-- What a cleanup makes of each group of the table.
use srtla.Base.{
  ℕ, ◌+◌, ◌≡◌, refl, sym, ◌∙◌, ap, subst, false, none, some, List, [], ◌∷◌, Bool-cases,
  Option-cases, inl, inr, ltb, ◌==◌, ==_iff, if◌then◌else◌,
}
use srtla.Float.{Float}
use srtla.Group.{Group}
use srtla.Os.{Os}
use srtla.Receiver.{Receiver, deref, for_each}
use srtla.Receiver.Srt.{Config}
use srtla.Receiver.Cleanup.{sweep_group, cleanup_inactive, cleanup_period}
use srtla.Receiver.Cleanup.Deref.{Distinct, deref-handle}
use srtla.Receiver.Cleanup.Swept.{swept, sweep_group-swept, sweep_group-others}

module _ (os : Os) (fl : Float) (cfg : Config) where
  -- The group of one round, if it is still there.
  round-others :
      (now h : ℕ) (k : Group) (r : Receiver)
      → (k.handle == h) ≡ false
      → let next : Receiver = elim (deref k.handle r.groups) [
        | none ↦ r
        | some g ↦ sweep_group os fl cfg now g r
      ] in
        deref h next.groups ≡ deref h r.groups
  round-others now h k r n = elim (Option-cases (deref k.handle r.groups)) [
    | inl gone ↦ rw gone refl
    | inr (g, there) ↦
        let same = deref-handle k.handle r.groups g there in
        rw there
          (sweep_group-others os fl cfg now h g r (subst (λ x. (x == h) ≡ false) (sym same) n))
  ]

  round-itself :
      (now : ℕ) (k : Group) (r : Receiver)
      → let next : Receiver = elim (deref k.handle r.groups) [
        | none ↦ r
        | some g ↦ sweep_group os fl cfg now g r
      ] in
        deref k.handle next.groups ≡ swept now (deref k.handle r.groups)
  unfolding swept
  round-itself now k r = elim (Option-cases (deref k.handle r.groups)) [
    | inl gone ↦ rw gone gone
    | inr (g, there) ↦
        let same = deref-handle k.handle r.groups g there in
        rw there (
          subst (λ x. deref x (sweep_group os fl cfg now g r).groups ≡ swept now (some g)) same
            (sweep_group-swept os fl cfg now g r (ap (λ x. deref x r.groups) same ∙ there)))
  ]

  loop-absent :
      (now h : ℕ) (gs : List Group) (r : Receiver)
      → deref h gs ≡ none
      → deref h (for_each (sweep_group os fl cfg now) gs r).groups ≡ deref h r.groups
  unfolding for_each deref
  loop-absent now h [] r e = refl
  loop-absent now h (k ∷ ks) r e = elim (Bool-cases (k.handle == h)) [
    | inl same ↦ absurd (clash k (rw same at e))
    | inr other ↦ loop-absent now h ks _ (rw other at e) ∙ round-others now h k r other
  ]
    where
      clash : (k : Group) → some k ≡ none → ⊥
      clash k e = cc

  loop-present :
      (now h : ℕ) (gs : List Group) (r : Receiver) (g : Group)
      → Distinct gs
      → deref h gs ≡ some g
      → deref h (for_each (sweep_group os fl cfg now) gs r).groups ≡ swept now (deref h r.groups)
  unfolding for_each deref
  loop-present now h [] r g d e = absurd (cc)
  loop-present now h (k ∷ ks) r g d e = elim (Bool-cases (k.handle == h)) [
    | inl same ↦
        let is : k.handle ≡ h = (==_iff k.handle h).0 same in
        loop-absent now h ks _ (ap (λ x. deref x ks) (sym is) ∙ d.0)
        ∙ subst
            (λ x.
              let next : Receiver = elim (deref k.handle r.groups) [
                | none ↦ r
                | some g ↦ sweep_group os fl cfg now g r
              ] in
              deref x next.groups ≡ swept now (deref x r.groups))
            is (round-itself now k r)
    | inr other ↦
        loop-present now h ks _ g d.1 (rw other at e)
        ∙ ap (swept now) (round-others now h k r other)
  ]

  -- Where no group is twice in the table, a cleanup that is due leaves behind each pointer what the
  -- group comes to: nothing, where none of its connections has been heard of within 15 seconds and
  -- the group is over 30 seconds old, or 5 if it has not seen data; and else the group with exactly
  -- the connections that have been heard of, in their order, as they were but that a recovery of
  -- more than 5 seconds is over, whether the connection has been heard of since it began or not. A
  -- cleanup within 3 seconds of the last one changes no group.
  pub cleanup_inactive-swept :
      (now h : ℕ) (r : Receiver)
      → Distinct r.groups
      → deref h (cleanup_inactive os fl cfg now r).groups
        ≡ (if ltb now (r.last_run + 3) then deref h r.groups else swept now (deref h r.groups))
  unfolding cleanup_inactive swept
  cleanup_inactive-swept now h r d = elim (Bool-cases (ltb now (r.last_run + cleanup_period))) [
    | inl early ↦ rw early refl
    | inr due ↦ rw due (elim (Option-cases (deref h r.groups)) [
      | inl gone ↦
          loop-absent now h r.groups (record r { last_run = now }) gone
          ∙ gone
          ∙ ap (swept now) (sym gone)
      | inr (g, there) ↦ loop-present now h r.groups (record r { last_run = now }) g d there
    ])
  ]
