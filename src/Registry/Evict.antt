-- ===== src/Registry/Evict.antt =====
-- evict_oldest_pending_group of src/connection/connection_registry.cpp: whom it picks.
use srtla.Base.{
  ◌≤◌, ◌≡◌, ◌⊎◌, inl, inr, refl, true, false, Option, none, some, List, [], ◌∷◌, ◌&&◌, ◌<◌, ltb,
  sym, subst, arith, Bool-cases,
}
use srtla.Group.{Group}
use srtla.Registry.{is_pending, scan_pending, oldest_pending_group}
use srtla.Registry.Lookup.{MemGroup, head, tail}

-- No pending group of the list is older.
abbrev pub NoneOlder : Group → List Group → Type 0
NoneOlder g [] = Unit {0}
NoneOlder g (h ∷ hs) = (is_pending h ≡ true → g.created_at ≤ h.created_at) × NoneOlder g hs

abbrev pub NonePending : List Group → Type 0
NonePending [] = Unit {0}
NonePending (h ∷ hs) = (is_pending h ≡ false) × NonePending hs

-- What the scan makes of its best so far and the rest of the list.
abbrev Picked : Option Group → List Group → Option Group → Type 0
Picked none gs none = NonePending gs
Picked (some b) gs none = ⊥
Picked none gs (some g) = (is_pending g ≡ true) × MemGroup g gs × NoneOlder g gs
Picked (some b) gs (some g) =
    ((g ≡ b) ⊎ ((is_pending g ≡ true) × MemGroup g gs))
    × (g.created_at ≤ b.created_at)
    × NoneOlder g gs

-- The result is the best so far `b`, or a pending group further down: so it is in `b ∷ gs`.
from_head :
    (b x : Group) (gs : List Group)
    → is_pending b ≡ true
    → (x ≡ b) ⊎ ((is_pending x ≡ true) × MemGroup x gs)
    → (is_pending x ≡ true) × MemGroup x (b ∷ gs)
from_head b x gs p (inl e) =
    (subst (λ y. is_pending y ≡ true) (sym e) p, subst (λ y. MemGroup y (b ∷ gs)) (sym e) head)
from_head b x gs p (inr (q, m)) = (q, tail m)

skip_none :
    (g : Group) (gs : List Group) (r : Option Group)
    → is_pending g ≡ false
    → Picked none gs r
    → Picked none (g ∷ gs) r
skip_none g gs none h p = (h, p)
skip_none g gs (some x) h p = (p.0, tail p.1, ((λ q. absurd (cc)), p.2))

take_none :
    (g : Group) (gs : List Group) (r : Option Group)
    → is_pending g ≡ true
    → Picked (some g) gs r
    → Picked none (g ∷ gs) r
take_none g gs none h p = absurd p
take_none g gs (some x) h p = let f = from_head g x gs h p.0 in (f.0, f.1, ((λ q. p.1), p.2))

skip_some :
    (b g : Group) (gs : List Group) (r : Option Group)
    → (is_pending g ≡ true → b.created_at ≤ g.created_at)
    → Picked (some b) gs r
    → Picked (some b) (g ∷ gs) r
skip_some b g gs none h p = p
skip_some b g gs (some x) h p = (deeper p.0, p.1, ((λ q. let k = h q in omega (arith, p.1)), p.2))
  where
    deeper :
        (x ≡ b) ⊎ ((is_pending x ≡ true) × MemGroup x gs)
        → (x ≡ b) ⊎ ((is_pending x ≡ true) × MemGroup x (g ∷ gs))
    deeper (inl e) = inl e
    deeper (inr (q, m)) = inr (q, tail m)

take_some :
    (b g : Group) (gs : List Group) (r : Option Group)
    → is_pending g ≡ true
    → g.created_at < b.created_at
    → Picked (some g) gs r
    → Picked (some b) (g ∷ gs) r
take_some b g gs none h k p = absurd p
take_some b g gs (some x) h k p =
    (inr (from_head g x gs h p.0), omega (arith, p.1), ((λ q. p.1), p.2))

scan_pending-Picked :
    (best : Option Group) (gs : List Group) → Picked best gs (scan_pending best gs)
unfolding scan_pending
scan_pending-Picked none [] = tt
scan_pending-Picked (some b) [] = (inl refl, omega arith, tt)
scan_pending-Picked none (g ∷ gs) = elim (Bool-cases (is_pending g)) [
  | inl h ↦ rw h (take_none g gs (scan_pending (some g) gs) h (scan_pending-Picked (some g) gs))
  | inr h ↦ rw h (skip_none g gs (scan_pending none gs) h (scan_pending-Picked none gs))
]
scan_pending-Picked (some b) (g ∷ gs) =
    elim (Bool-cases (is_pending g && ltb g.created_at b.created_at)) [
      | inl h ↦ rw h (
          take_some b g gs (scan_pending (some g) gs) (ground arith) (ground arith)
            (scan_pending-Picked (some g) gs))
      | inr h ↦ rw h (
          skip_some b g gs (scan_pending (some b) gs) (λ q. ground arith)
            (scan_pending-Picked (some b) gs))
    ]

-- What may be evicted from the table: nothing, where no group is pending, or a pending member that
-- no other pending member is older than.
abbrev pub Evictable : List Group → Option Group → Type 0
Evictable groups none = NonePending groups
Evictable groups (some g) = (is_pending g ≡ true) × MemGroup g groups × NoneOlder g groups

Picked-Evictable : (gs : List Group) (r : Option Group) → Picked none gs r → Evictable gs r
Picked-Evictable gs none p = p
Picked-Evictable gs (some g) p = p

-- The group that is evicted is in the table, has no connection and never forwarded data, and no
-- other such group was created earlier; where nothing is evicted there is no such group.
pub oldest_pending_group_lem :
    (groups : List Group) → Evictable groups (oldest_pending_group groups)
unfolding oldest_pending_group
oldest_pending_group_lem groups =
    Picked-Evictable groups (scan_pending none groups) (scan_pending-Picked none groups)

pub oldest_pending_group-mem :
    (groups : List Group) (g : Group) → oldest_pending_group groups ≡ some g → MemGroup g groups
oldest_pending_group-mem groups g e =
    (subst (Evictable groups) e (oldest_pending_group_lem groups)).1
