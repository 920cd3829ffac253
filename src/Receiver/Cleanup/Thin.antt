-- ===== src/Receiver/Cleanup/Thin.antt =====
-- Connections that are dropped from a group: the rest is as sound as before.
use srtla.Base.{◌≤◌, ◌≡◌, refl, false, List, [], ◌∷◌, arith, Bool-cases, inl, inr, length}
use srtla.Addr.{SockAddr}
use srtla.Connection.{Connection}
use srtla.Group.{Group}
use srtla.Registry.Lookup.{claims, has_conn_at}
use srtla.Registry.Valid.{Apart, LogsOk}
use srtla.Registry.Kin.{LogOk, Kin}

-- The second list is made of the first by dropping connections, and by changes that leave the
-- addresses and the logs' bounds alone.
pub data Thin : List Connection → List Connection → Type 0 where
  done : Thin [] []
  kept :
      {c d : Connection} {cs ds : List Connection}
      → d.addr ≡ c.addr
      → (LogOk c → LogOk d)
      → Thin cs ds
      → Thin (c ∷ cs) (d ∷ ds)
  dropped : {c : Connection} {cs ds : List Connection} → Thin cs ds → Thin (c ∷ cs) ds

Thin-length : {cs ds : List Connection} → Thin cs ds → length ds ≤ length cs
Thin-length done = omega arith
Thin-length (kept e l t) = omega (arith, Thin-length t)
Thin-length (dropped t) = omega (arith, Thin-length t)

-- An address that is gone stays gone.
Thin-has_conn_at :
    {cs ds : List Connection}
    → Thin cs ds
    → (a : SockAddr) → has_conn_at cs a ≡ false
    → has_conn_at ds a ≡ false
unfolding has_conn_at
Thin-has_conn_at done a h = refl
Thin-has_conn_at (kept {c} {d} e l t) a h = rw e (ground (arith, Thin-has_conn_at t a))
Thin-has_conn_at (dropped t) a h = Thin-has_conn_at t a (ground arith)

Thin-Apart : {cs ds : List Connection} → Thin cs ds → Apart cs → Apart ds
Thin-Apart done p = tt
Thin-Apart (kept {c} {d} e l t) p = (rw e (Thin-has_conn_at t c.addr p.0), Thin-Apart t p.1)
Thin-Apart (dropped t) p = Thin-Apart t p.1

Thin-LogsOk : {cs ds : List Connection} → Thin cs ds → LogsOk cs → LogsOk ds
Thin-LogsOk done p = tt
Thin-LogsOk (kept e l t) p = (l p.0, Thin-LogsOk t p.1)
Thin-LogsOk (dropped t) p = Thin-LogsOk t p.1

pub Thin-Kin :
    (g : Group) (ds : List Connection) → Thin g.conns ds → Kin g (record g { conns = ds })
unfolding claims
Thin-Kin g ds t = record {
  handle = refl;
  okay = λ k. record {
    few = omega (arith, k.few, Thin-length t);
    apart = Thin-Apart t k.apart;
    logs = Thin-LogsOk t k.logs;
    closed = k.closed;
  };
  narrow = λ a p. elim (Bool-cases (has_conn_at g.conns a)) [
    | inl there ↦ ground arith
    | inr gone ↦ ground (arith, Thin-has_conn_at t a gone)
  ];
}
