-- ===== src/Sender/Valid/Lines.antt =====
-- What setup_conns of src/sender.cpp leaves sound.
use srtla.Base.{
  ℕ, suc, ◌+◌, ◌<◌, ◌≡◌, refl, inl, inr, false, Option, none, some, List, [], ◌∷◌, map,
  length-replicate, ◌==◌, arith, pos, Bool-cases, Option-cases,
}
use srtla.Addr.{SockAddr}
use srtla.Sender.{Conn, Sender}
use srtla.Sender.Conns.{
  same_src, conn_find_by_src, new_conn, unmark, parse_ip, cut_line, add_src, setup_line,
  setup_lines, mark_removed,
}
use srtla.Sender.Valid.{
  ConnOk, Apart, Pending, IsValid, KeepsConns, KeepsConns-refl, KeepsConns-cons, Keeps-conns,
  Keeps-IsValid, handles, sources, mem_handle, has_src,
}

new_conn-ConnOk : (h : ℕ) (src : SockAddr) → ConnOk (new_conn h src)
unfolding new_conn
new_conn-ConnOk h src = record {
  idx = omega arith;
  log = length-replicate 256 (pos 0);
  window_ge = omega arith;
}

Apart-suc : (n : ℕ) (hs : List ℕ) → Apart n hs → Apart (suc n) hs
Apart-suc n [] a = tt
Apart-suc n (h ∷ hs) a = (omega (arith, a.0), a.1, Apart-suc n hs a.2)

mem_handle-bound : (n : ℕ) (hs : List ℕ) → Apart n hs → mem_handle n hs ≡ false
mem_handle-bound n [] a = refl
mem_handle-bound n (h ∷ hs) a = let lt : h < n = a.0 in ground (arith, mem_handle-bound n hs a.2)

conn_find_by_src-none :
    (src : SockAddr) (cs : List Conn)
    → conn_find_by_src src cs ≡ none
    → has_src src (sources cs) ≡ false
unfolding conn_find_by_src
conn_find_by_src-none src [] e = refl
conn_find_by_src-none src (c ∷ cs) e = elim (Bool-cases (same_src src c.src)) [
  | inl same ↦ absurd (clash (rw same at e))
  | inr other ↦ rw other (conn_find_by_src-none src cs (rw other at e))
]
  where
    clash : some c ≡ none → ⊥
    clash e = cc

unmark-Keeps : (src : SockAddr) (cs : List Conn) → KeepsConns cs (unmark src cs)
unfolding unmark
unmark-Keeps src [] = KeepsConns-refl []
unmark-Keeps src (c ∷ cs) = elim (Bool-cases (same_src src c.src)) [
  | inl e ↦ rw e (
      KeepsConns-cons c (record c { removed = false }) cs cs refl refl
        (λ o. record { idx = o.idx; log = o.log; window_ge = o.window_ge }) (KeepsConns-refl cs))
  | inr e ↦ rw e (KeepsConns-cons c c cs (unmark src cs) refl refl (λ o. o) (unmark-Keeps src cs))
]

pub Pending-cons : (p : Option ℕ) (h : ℕ) (hs : List ℕ) → Pending p hs → Pending p (h ∷ hs)
Pending-cons none h hs k = tt
Pending-cons (some p) h hs k = elim (Bool-cases (h == p)) [ inl e ↦ rw e | inr e ↦ rw e k ]

pub mark-Keeps : (cs : List Conn) → KeepsConns cs (map mark_removed cs)
mark-Keeps [] = KeepsConns-refl []
mark-Keeps (c ∷ cs) =
    KeepsConns-cons c (mark_removed c) cs (map mark_removed cs) refl refl
      (λ o. record { idx = o.idx; log = o.log; window_ge = o.window_ge }) (mark-Keeps cs)

module _ (inet_addr : List ℕ → List ℕ) (half : List ℕ) where
  add_src-IsValid :
      (src : SockAddr) (s : Sender) → IsValid half s → IsValid half (add_src inet_addr src s).1
  unfolding add_src
  add_src-IsValid src s v = elim (Option-cases (conn_find_by_src src s.conns)) [
    | inl e ↦
        rw (e, add_src)
          (record {
            okay = (new_conn-ConnOk s.next src, v.okay);
            apart = (
              omega arith,
              mem_handle-bound s.next (handles s.conns) v.apart,
              Apart-suc s.next (handles s.conns) v.apart,
            );
            distinct = (conn_find_by_src-none src s.conns e, v.distinct);
            pending = Pending-cons s.pending_reg2_conn s.next (handles s.conns) v.pending;
            id_length = v.id_length;
            id_half = v.id_half;
          })
    | inr (c, e) ↦
        rw (e, add_src)
          (Keeps-IsValid half s (record s { conns = unmark src s.conns })
            (Keeps-conns s (unmark src s.conns) (unmark-Keeps src s.conns)) v)
  ]

  setup_line-IsValid :
      (line : List ℕ) (s : Sender) → IsValid half s → IsValid half (setup_line inet_addr line s).1
  unfolding setup_line
  setup_line-IsValid line s v = elim (Option-cases (parse_ip inet_addr (cut_line line))) [
    | inl e ↦ rw (e, setup_line) v
    | inr (src, e) ↦ rw (e, setup_line) (add_src-IsValid src s v)
  ]

  pub setup_lines-IsValid :
      (lines : List (List ℕ)) (count : ℕ) (s : Sender)
      → IsValid half s
      → IsValid half (setup_lines inet_addr lines count s).1
  unfolding setup_lines
  setup_lines-IsValid [] count s v = v
  setup_lines-IsValid (line ∷ lines) count s v =
      setup_lines-IsValid lines (count + (setup_line inet_addr line s).0)
        (setup_line inet_addr line s).1 (setup_line-IsValid line s v)
