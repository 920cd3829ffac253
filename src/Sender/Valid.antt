-- ===== src/Sender/Valid.antt =====
-- When the state of src/sender.cpp is sound, and the changes that keep it so.
pub mod Log
pub mod Words
pub mod Receive
pub mod Lines
pub mod Conns
pub mod Origins
pub mod Sources
pub mod Sockets
pub mod Housekeeping
pub mod Rounds
pub mod Reachable
use srtla.Base.{
  ℕ, ◌+◌, ◌<◌, ◌≤◌, ◌≡◌, refl, sym, ◌∙◌, subst, Bool, true, false, ◌||◌, Option, none, some, List,
  [], ◌∷◌, map, length, take, ◌==◌, if◌then◌else◌, arith, ℤ, pos,
}
use srtla.Addr.{SockAddr}
use srtla.Sender.{Conn, Sender, Call, modify_all, send_reg1, send_reg2, send_reg2_all}
use srtla.Sender.Conns.{same_src}

-- The log and its index are within bounds, and the window is one packet at least.
pub record ConnOk (c : Conn) : Type 0 where
  pub idx : c.pkt_idx < 256
  pub log : length c.pkt_log ≡ 256
  pub window_ge : 1000 ≤ c.window

abbrev pub AllOk : List Conn → Type 0
AllOk [] = Unit {0}
AllOk (c ∷ cs) = ConnOk c × AllOk cs

abbrev pub handles : List Conn → List ℕ
handles [] = []
handles (c ∷ cs) = c.handle ∷ handles cs

abbrev pub sources : List Conn → List SockAddr
sources [] = []
sources (c ∷ cs) = c.src ∷ sources cs

abbrev pub mem_handle : ℕ → List ℕ → Bool
mem_handle h [] = false
mem_handle h (x ∷ xs) = (x == h) || mem_handle h xs

abbrev pub has_src : SockAddr → List SockAddr → Bool
has_src a [] = false
has_src a (x ∷ xs) = same_src a x || has_src a xs

-- Handles that differ, all below a bound.
abbrev pub Apart : ℕ → List ℕ → Type 0
Apart n [] = Unit {0}
Apart n (x ∷ xs) = (x < n) × (mem_handle x xs ≡ false) × Apart n xs

abbrev pub Distinct : List SockAddr → Type 0
Distinct [] = Unit {0}
Distinct (x ∷ xs) = (has_src x xs ≡ false) × Distinct xs

abbrev pub Pending : Option ℕ → List ℕ → Type 0
Pending none hs = Unit {0}
Pending (some p) hs = mem_handle p hs ≡ true

-- The connections are sound and differ in identity and source; pending_reg2_conn is null or one of
-- them; the id has 256 bytes and begins with the given half.
pub record IsValid (half : List ℕ) (s : Sender) : Type 0 where
  pub okay : AllOk s.conns
  pub apart : Apart s.next (handles s.conns)
  pub distinct : Distinct (sources s.conns)
  pub pending : Pending s.pending_reg2_conn (handles s.conns)
  pub id_length : length s.srtla_id ≡ 256
  pub id_half : take 128 s.srtla_id ≡ half

-- The connections stay, in their order, and are sound if they were.
pub record KeepsConns (cs ds : List Conn) : Type 0 where
  pub same_handles : handles ds ≡ handles cs
  pub same_sources : sources ds ≡ sources cs
  pub still_ok : AllOk cs → AllOk ds

-- So they do, and the rest that matters is as it was.
pub record Keeps (s t : Sender) : Type 0 where
  pub conns_kept : KeepsConns s.conns t.conns
  pub next_kept : t.next ≡ s.next
  pub pending_kept : t.pending_reg2_conn ≡ s.pending_reg2_conn
  pub id_kept : t.srtla_id ≡ s.srtla_id

pub KeepsConns-refl : (cs : List Conn) → KeepsConns cs cs
KeepsConns-refl cs = record { same_handles = refl; same_sources = refl; still_ok = λ o. o }

pub KeepsConns-trans :
    (cs ds es : List Conn) → KeepsConns cs ds → KeepsConns ds es → KeepsConns cs es
KeepsConns-trans cs ds es k l = record {
  same_handles = l.same_handles ∙ k.same_handles;
  same_sources = l.same_sources ∙ k.same_sources;
  still_ok = λ o. l.still_ok (k.still_ok o);
}

pub KeepsConns-cons :
    (c d : Conn) (cs ds : List Conn)
    → d.handle ≡ c.handle
    → d.src ≡ c.src
    → (ConnOk c → ConnOk d)
    → KeepsConns cs ds
    → KeepsConns (c ∷ cs) (d ∷ ds)
KeepsConns-cons c d cs ds h a f k = record {
  same_handles = rw (h, k.same_handles);
  same_sources = rw (a, k.same_sources);
  still_ok = λ o. (f o.0, k.still_ok o.1);
}

pub Keeps-refl : (s : Sender) → Keeps s s
Keeps-refl s = record {
  conns_kept = KeepsConns-refl s.conns;
  next_kept = refl;
  pending_kept = refl;
  id_kept = refl;
}

pub Keeps-trans : (s t u : Sender) → Keeps s t → Keeps t u → Keeps s u
Keeps-trans s t u k l = record {
  conns_kept = KeepsConns-trans s.conns t.conns u.conns k.conns_kept l.conns_kept;
  next_kept = l.next_kept ∙ k.next_kept;
  pending_kept = l.pending_kept ∙ k.pending_kept;
  id_kept = l.id_kept ∙ k.id_kept;
}

pub Keeps-conns :
    (s : Sender) (ds : List Conn) → KeepsConns s.conns ds → Keeps s (record s { conns = ds })
Keeps-conns s ds k = record {
  conns_kept = k;
  next_kept = refl;
  pending_kept = refl;
  id_kept = refl;
}

pub Keeps-IsValid : (half : List ℕ) (s t : Sender) → Keeps s t → IsValid half s → IsValid half t
Keeps-IsValid half s t k v = record {
  okay = k.conns_kept.still_ok v.okay;
  apart = rw (k.next_kept, k.conns_kept.same_handles) v.apart;
  distinct = rw k.conns_kept.same_sources v.distinct;
  pending = rw (k.pending_kept, k.conns_kept.same_handles) v.pending;
  id_length = rw k.id_kept v.id_length;
  id_half = rw k.id_kept v.id_half;
}

-- A change of one connection that leaves its identity and its source.
pub modify_all-Keeps :
    (h : ℕ) (f : Conn → Conn) (cs : List Conn)
    → ((c : Conn) → (f c).handle ≡ c.handle)
    → ((c : Conn) → (f c).src ≡ c.src)
    → ((c : Conn) → ConnOk c → ConnOk (f c))
    → KeepsConns cs (modify_all h f cs)
modify_all-Keeps h f [] a b o = KeepsConns-refl []
modify_all-Keeps h f (c ∷ cs) a b o =
    KeepsConns-cons c (if c.handle == h then f c else c) cs (modify_all h f cs)
      (ground (arith, a c)) (ground (arith, b c)) (one (c.handle == h))
      (modify_all-Keeps h f cs a b o)
  where
    one : (t : Bool) → ConnOk c → ConnOk (if t then f c else c)
    one true k = o c k
    one false k = k

module _ (ret : List Call → Call → ℤ) where
  pub send_reg1-Keeps : (c : Conn) (s : Sender) → Keeps s (send_reg1 ret c s).1
  unfolding send_reg1
  send_reg1-Keeps c s = ground (arith, Keeps-refl s)

  pub send_reg2-Keeps : (c : Conn) (s : Sender) → Keeps s (send_reg2 ret c s).1
  unfolding send_reg2
  send_reg2-Keeps c s = ground (arith, Keeps-refl s)

  pub send_reg2_all-Keeps : (cs : List Conn) (s : Sender) → Keeps s (send_reg2_all ret cs s)
  unfolding send_reg2_all
  send_reg2_all-Keeps [] s = Keeps-refl s
  send_reg2_all-Keeps (c ∷ cs) s =
      let t = (send_reg2 ret c s).1 in
      Keeps-trans s t (send_reg2_all ret cs t) (send_reg2-Keeps c s) (send_reg2_all-Keeps cs t)
