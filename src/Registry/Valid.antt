-- ===== src/Registry/Valid.antt =====
-- The invariant of the group table, and its preservation by the table's operations.
use srtla.Base.{
  ℕ, suc, ◌≤◌, ◌<◌, ◌≡◌, ◌≢◌, ◌⊎◌, inl, inr, true, false, List, [], ◌∷◌, arith, Bool-cases, length,
  sym, subst, ◌∙◌, ap, negsuc,
}
use srtla.Addr.{SockAddr, addresses_equal}
use srtla.Addr.Compare.{addresses_equal_symm, addresses_equal_trans}
use srtla.Connection.{Connection}
use srtla.Group.{Group}
use srtla.Registry.{remove_group, store, add_group, max_groups, max_conns_per_group}
use srtla.Registry.Lookup.{MemGroup, claims, has_conn_at}
use srtla.Registry.Members.{
  mem-add_group, mem-remove_group, mem-store, length-store, length-remove_group, length-add_group,
}

-- No two connections of the list have one address.
abbrev pub Apart : List Connection → Type 0
Apart [] = Unit {0}
Apart (c ∷ cs) = (has_conn_at cs c.addr ≡ false) × Apart cs

-- The log of received sequence numbers has ten places and is never left full.
abbrev pub LogsOk : List Connection → Type 0
LogsOk [] = Unit {0}
LogsOk (c ∷ cs) = ((c.recv_idx < 10) × (length c.recv_log ≡ 10)) × LogsOk cs

pub record GroupOk (g : Group) : Type 0 where
  pub few : length g.conns ≤ max_conns_per_group
  pub apart : Apart g.conns
  pub logs : LogsOk g.conns
  -- A group that has not forwarded data has no socket towards the SRT server.
  pub closed : g.data_seen ≡ false → g.srt_sock ≡ negsuc 0

-- No address is claimed by two groups.
abbrev pub Exclusive : List Group → Type 0
Exclusive gs =
    (g h : Group)
    → MemGroup g gs
    → MemGroup h gs
    → g.handle ≢ h.handle
    → (a : SockAddr) → claims g a ≡ true
    → claims h a ≡ false

pub record IsValid (gs : List Group) (next : ℕ) : Type 0 where
  pub few : length gs ≤ max_groups
  pub groups_ok : (g : Group) → MemGroup g gs → GroupOk g
  pub fresh : (g : Group) → MemGroup g gs → g.handle < next
  pub unique : (g h : Group) → MemGroup g gs → MemGroup h gs → g.handle ≡ h.handle → g ≡ h
  pub exclusive : Exclusive gs

-- No other group of the table claims an address that `g` claims.
abbrev pub Fits : Group → List Group → Type 0
Fits g gs =
    (h : Group)
    → MemGroup h gs
    → h.handle ≢ g.handle
    → (a : SockAddr) → claims g a ≡ true
    → claims h a ≡ false

flip_claims :
    (g h : Group) (a : SockAddr)
    → (claims g a ≡ true → claims h a ≡ false)
    → claims h a ≡ true
    → claims g a ≡ false
flip_claims g h a f p = elim (Bool-cases (claims g a)) [
  | inl q ↦ absurd (clash (f q) p)
  | inr q ↦ q
]
  where
    clash : claims h a ≡ false → claims h a ≡ true → ⊥
    clash u v = cc

pub empty-IsValid : (next : ℕ) → IsValid [] next
empty-IsValid next = record {
  few = omega arith;
  groups_ok = λ g m. elim m [ ];
  fresh = λ g m. elim m [ ];
  unique = λ g h m k e. elim m [ ];
  exclusive = λ g h m k n a p. elim m [ ];
}

pub later-IsValid : (gs : List Group) (n m : ℕ) → n ≤ m → IsValid gs n → IsValid gs m
later-IsValid gs n m h v = record {
  few = v.few;
  groups_ok = v.groups_ok;
  fresh = λ g k. omega (arith, v.fresh g k);
  unique = v.unique;
  exclusive = v.exclusive;
}

pub remove_group-IsValid :
    (gs : List Group) (next handle : ℕ) → IsValid gs next → IsValid (remove_group gs handle) next
remove_group-IsValid gs next handle v = record {
  few = omega (arith, v.few, length-remove_group gs handle);
  groups_ok = λ g m. v.groups_ok g (mem-remove_group gs handle g m).0;
  fresh = λ g m. v.fresh g (mem-remove_group gs handle g m).0;
  unique = λ g h m k e.
      v.unique g h (mem-remove_group gs handle g m).0 (mem-remove_group gs handle h k).0 e;
  exclusive = λ g h m k n a p.
      v.exclusive g h (mem-remove_group gs handle g m).0 (mem-remove_group gs handle h k).0 n a p;
}

module _ (gs : List Group) (g : Group) (next : ℕ) (v : IsValid gs next) (okay : GroupOk g)
    (fits : Fits g gs) where
  -- Members of a table that has `g` beside the groups of `gs` of other identity.
  abbrev Known : Group → Type 0
  Known x = (x ≡ g) ⊎ (MemGroup x gs × (x.handle ≢ g.handle))

  Known-exclusive :
      (x y : Group)
      → Known x
      → Known y
      → x.handle ≢ y.handle
      → (a : SockAddr) → claims x a ≡ true
      → claims y a ≡ false
  Known-exclusive x y (inl e) (inl f) n a p = absurd (n (ap (λ z. z.handle) (e ∙ sym f)))
  Known-exclusive x y (inl e) (inr (m, k)) n a p = fits y m k a (subst (λ z. claims z a ≡ true) e p)
  Known-exclusive x y (inr (m, k)) (inl f) n a p =
      subst (λ z. claims z a ≡ false) (sym f) (flip_claims g x a (fits x m k a) p)
  Known-exclusive x y (inr (m, _)) (inr (k, _)) n a p = v.exclusive x y m k n a p

  Known-unique : (x y : Group) → Known x → Known y → x.handle ≡ y.handle → x ≡ y
  Known-unique x y (inl e) (inl f) h = e ∙ sym f
  Known-unique x y (inl e) (inr (m, k)) h = absurd (k (sym h ∙ ap (λ z. z.handle) e))
  Known-unique x y (inr (m, k)) (inl f) h = absurd (k (h ∙ ap (λ z. z.handle) f))
  Known-unique x y (inr (m, _)) (inr (k, _)) h = v.unique x y m k h

  Known-GroupOk : (x : Group) → Known x → GroupOk x
  Known-GroupOk x (inl e) = subst GroupOk (sym e) okay
  Known-GroupOk x (inr (m, _)) = v.groups_ok x m

  Known-fresh : (x : Group) (n : ℕ) → g.handle < n → next ≤ n → Known x → x.handle < n
  Known-fresh x n h k (inl e) = subst (λ z. z.handle < n) (sym e) h
  Known-fresh x n h k (inr (m, _)) = omega (arith, v.fresh x m)

  -- A write through a pointer keeps the invariant, if what is written claims no foreign address.
  pub store-IsValid : g.handle < next → IsValid (store g gs) next
  store-IsValid h = record {
    few = omega (arith, v.few, length-store gs g);
    groups_ok = λ x m. Known-GroupOk x (mem-store gs g x m);
    fresh = λ x m. Known-fresh x next h (omega arith) (mem-store gs g x m);
    unique = λ x y m k e. Known-unique x y (mem-store gs g x m) (mem-store gs g y k) e;
    exclusive =
        λ x y m k n a p. Known-exclusive x y (mem-store gs g x m) (mem-store gs g y k) n a p;
  }

  new-Known : g.handle ≡ next → (x : Group) → MemGroup x gs ⊎ (x ≡ g) → Known x
  new-Known e x (inl m) = inr (m, (λ q. omega (arith, v.fresh x m)))
  new-Known e x (inr f) = inl f

  -- So does adding a group of new identity, while there is room.
  pub add_group-IsValid :
      g.handle ≡ next → length gs < max_groups → IsValid (add_group gs g) (suc next)
  add_group-IsValid e room = record {
    few = omega (arith, length-add_group gs g);
    groups_ok = λ x m. Known-GroupOk x (new-Known e x (mem-add_group gs g x m));
    fresh = λ x m.
        Known-fresh x (suc next) (omega arith) (omega arith)
          (new-Known e x (mem-add_group gs g x m));
    unique = λ x y m k h.
        Known-unique x y (new-Known e x (mem-add_group gs g x m))
          (new-Known e y (mem-add_group gs g y k)) h;
    exclusive = λ x y m k n a p.
        Known-exclusive x y (new-Known e x (mem-add_group gs g x m))
          (new-Known e y (mem-add_group gs g y k)) n a p;
  }

has_conn_at-respects :
    (cs : List Connection) (a b : SockAddr)
    → addresses_equal a b ≡ true
    → has_conn_at cs a ≡ true
    → has_conn_at cs b ≡ true
unfolding has_conn_at
has_conn_at-respects [] a b e h = h
has_conn_at-respects (c ∷ cs) a b e h =
    ground (arith, addresses_equal_trans c.addr a b, has_conn_at-respects cs a b e)

pub claims-respects :
    (g : Group) (a b : SockAddr)
    → addresses_equal a b ≡ true
    → claims g a ≡ true
    → claims g b ≡ true
unfolding claims
claims-respects g a b e h =
    ground (arith, addresses_equal_trans g.last_addr a b, has_conn_at-respects g.conns a b e)

-- A group that claims no more than the member it replaces fits.
pub Fits-narrow :
    (gs : List Group) (g g' : Group) (next : ℕ)
    → IsValid gs next
    → MemGroup g gs
    → g'.handle ≡ g.handle
    → ((a : SockAddr) → claims g' a ≡ true → claims g a ≡ true)
    → Fits g' gs
Fits-narrow gs g g' next v m e sub h k n a p =
    v.exclusive g h m k (λ q. n (sym q ∙ sym e)) a (sub a p)

-- So does one that claims besides one address which no other group claims.
pub Fits-extend :
    (gs : List Group) (g' : Group) (x : SockAddr)
    → ((h : Group) → MemGroup h gs → h.handle ≢ g'.handle → claims h x ≡ false)
    → ((a : SockAddr)
        → claims g' a ≡ true
        → ((h : Group) → MemGroup h gs → h.handle ≢ g'.handle → claims h a ≡ false)
          ⊎ (addresses_equal x a ≡ true))
    → Fits g' gs
Fits-extend gs g' x free sub h k n a p = elim (sub a p) [
  | inl f ↦ f h k n
  | inr e ↦ elim (Bool-cases (claims h a)) [
    | inl q ↦ absurd (clash (free h k n) (claims-respects h a x (addresses_equal_symm x a e) q))
    | inr q ↦ q
  ]
]
  where
    clash : claims h x ≡ false → claims h x ≡ true → ⊥
    clash u w = cc
