-- ===== src/Registry/Kin.antt =====
-- Writes through the pointer of a group that leave its addresses alone.
use srtla.Base.{
  ℕ, suc, ◌≤◌, ◌<◌, ◌≡◌, refl, sym, ◌∙◌, ap, subst, true, List, [], ◌∷◌, arith, ◌==◌, length,
}
use srtla.Addr.{SockAddr}
use srtla.Connection.{Connection}
use srtla.Group.{Group}
use srtla.Registry.{store}
use srtla.Registry.Lookup.{MemGroup, head, tail, claims, has_conn_at}
use srtla.Registry.Valid.{IsValid, GroupOk, Apart, LogsOk, Fits-narrow, store-IsValid}

abbrev pub LogOk : Connection → Type 0
LogOk c = (c.recv_idx < 10) × (length c.recv_log ≡ 10)

-- The connections one by one: the same addresses, and logs that are as sound as before.
abbrev pub Like : List Connection → List Connection → Type 0
Like [] [] = Unit {0}
Like [] (d ∷ ds) = ⊥
Like (c ∷ cs) [] = ⊥
Like (c ∷ cs) (d ∷ ds) = (d.addr ≡ c.addr) × (LogOk c → LogOk d) × Like cs ds

pub Like-refl : (cs : List Connection) → Like cs cs
Like-refl [] = tt
Like-refl (c ∷ cs) = (refl, (λ l. l), Like-refl cs)

pub Like-length : (cs ds : List Connection) → Like cs ds → length ds ≡ length cs
Like-length [] [] l = refl
Like-length [] (d ∷ ds) l = absurd l
Like-length (c ∷ cs) [] l = absurd l
Like-length (c ∷ cs) (d ∷ ds) l = ap suc (Like-length cs ds l.2)

pub Like-has_conn_at :
    (cs ds : List Connection) (a : SockAddr) → Like cs ds → has_conn_at ds a ≡ has_conn_at cs a
unfolding has_conn_at
Like-has_conn_at [] [] a l = refl
Like-has_conn_at [] (d ∷ ds) a l = absurd l
Like-has_conn_at (c ∷ cs) [] a l = absurd l
Like-has_conn_at (c ∷ cs) (d ∷ ds) a l = rw (l.0, Like-has_conn_at cs ds a l.2)

pub Like-Apart : (cs ds : List Connection) → Like cs ds → Apart cs → Apart ds
Like-Apart [] [] l p = tt
Like-Apart [] (d ∷ ds) l p = absurd l
Like-Apart (c ∷ cs) [] l p = absurd l
Like-Apart (c ∷ cs) (d ∷ ds) l p =
    (rw (l.0, Like-has_conn_at cs ds c.addr l.2) p.0, Like-Apart cs ds l.2 p.1)

pub Like-LogsOk : (cs ds : List Connection) → Like cs ds → LogsOk cs → LogsOk ds
Like-LogsOk [] [] l p = tt
Like-LogsOk [] (d ∷ ds) l p = absurd l
Like-LogsOk (c ∷ cs) [] l p = absurd l
Like-LogsOk (c ∷ cs) (d ∷ ds) l p = (l.1 p.0, Like-LogsOk cs ds l.2 p.1)

-- The group `h` may replace the group `g` in a valid table.
pub record Kin (g h : Group) : Type 0 where
  pub handle : h.handle ≡ g.handle
  pub okay : GroupOk g → GroupOk h
  pub narrow : (a : SockAddr) → claims h a ≡ true → claims g a ≡ true

pub Kin-refl : (g : Group) → Kin g g
Kin-refl g = record { handle = refl; okay = λ k. k; narrow = λ a p. p }

pub Kin-trans : (g h k : Group) → Kin g h → Kin h k → Kin g k
Kin-trans g h k p q = record {
  handle = q.handle ∙ p.handle;
  okay = λ x. q.okay (p.okay x);
  narrow = λ a x. p.narrow a (q.narrow a x);
}

pub Kin-conns :
    (g : Group) (ds : List Connection) → Like g.conns ds → Kin g (record g { conns = ds })
unfolding claims
Kin-conns g ds l = record {
  handle = refl;
  okay = λ k. record {
    few = subst (λ n. n ≤ 16) (sym (Like-length g.conns ds l)) k.few;
    apart = Like-Apart g.conns ds l k.apart;
    logs = Like-LogsOk g.conns ds l k.logs;
    closed = k.closed;
  };
  narrow = λ a p. ground (arith, Like-has_conn_at g.conns ds a l);
}

pub Kin-IsValid :
    (gs : List Group) (next : ℕ) (g h : Group)
    → IsValid gs next
    → MemGroup g gs
    → Kin g h
    → IsValid (store h gs) next
Kin-IsValid gs next g h v m k =
    store-IsValid gs h next v (k.okay (v.groups_ok g m))
      (Fits-narrow gs g h next v m k.handle k.narrow)
      (subst (λ n. n < next) (sym k.handle) (v.fresh g m))

pub mem-store_self :
    (gs : List Group) (g h : Group) → MemGroup g gs → h.handle ≡ g.handle → MemGroup h (store h gs)
unfolding store
mem-store_self [] g h m e = elim m [ ]
mem-store_self (x ∷ xs) g h head e = let t : x.handle == h.handle ≡ true = ground arith in rw t head
mem-store_self (x ∷ xs) g h (tail m) e = tail (mem-store_self xs g h m e)
