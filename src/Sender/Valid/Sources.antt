-- ===== src/Sender/Valid/Sources.antt =====
-- Which connections update_conns of src/sender.cpp leaves.
use srtla.Base.{
  ℕ, ◌+◌, ◌≡◌, refl, sym, subst, ◌∙◌, ap, inl, inr, Bool, true, false, ◌||◌, Option, none, some,
  List, [], ◌∷◌, map, if◌then◌else◌, arith, Bool-cases, Option-cases, ℤ,
}
use srtla.Base.Assoc.{bytes_eq}
use srtla.Addr.{SockAddr}
use srtla.Sender.{Conn, Sender, Call, Result, ok, exited}
use srtla.Sender.Conns.{
  same_src, conn_find_by_src, new_conn, unmark, parse_ip, cut_line, add_src, setup_line,
  setup_lines, setup_conns, mark_removed, update_conns,
}
use srtla.Sender.Valid.{sources, has_src}
use srtla.Sender.Valid.Conns.{kept, sweep-kept}
use srtla.Sender.Valid.Origins.{AllOldOrNew, reread-OldOrNew}

-- Whether a line of the file names the source.
abbrev pub names : SockAddr → Option SockAddr → Bool
names a none = false
names a (some b) = same_src a b

abbrev pub in_file : (List ℕ → List ℕ) → SockAddr → List (List ℕ) → Bool
in_file inet_addr a [] = false
in_file inet_addr a (line ∷ lines) =
    names a (parse_ip inet_addr (cut_line line)) || in_file inet_addr a lines

-- Whether the source counts, by the mark of its connection and what follows.
abbrev either : Bool → Bool → Bool → Bool
either true here rest = rest
either false here rest = here || rest

abbrev live : SockAddr → List Conn → Bool
live a [] = false
live a (c ∷ cs) = either c.removed (same_src a c.src) (live a cs)

has_src-kept : (a : SockAddr) (cs : List Conn) → has_src a (sources (kept cs)) ≡ live a cs
has_src-kept a [] = refl
has_src-kept a (c ∷ cs) = by_mark c.removed (has_src-kept a cs)
  where
    by_mark :
        (r : Bool)
        → has_src a (sources (kept cs)) ≡ live a cs
        → has_src a (sources (if r then kept cs else c ∷ kept cs))
          ≡ either r (same_src a c.src) (live a cs)
    by_mark true e = e
    by_mark false e = rw e

live-mark : (a : SockAddr) (cs : List Conn) → live a (map mark_removed cs) ≡ false
live-mark a [] = refl
live-mark a (c ∷ cs) = live-mark a cs

either_first : (r x rest : Bool) → (x || rest) ≡ (x || either r x rest)
either_first true x rest = refl
either_first false true rest = refl
either_first false false rest = refl

either_later : (r x y rest : Bool) → either r x (y || rest) ≡ (y || either r x rest)
either_later true x y rest = refl
either_later false true true rest = refl
either_later false true false rest = refl
either_later false false y rest = refl

or_assoc : (x y z : Bool) → (x || (y || z)) ≡ ((y || x) || z)
or_assoc true true z = refl
or_assoc true false z = refl
or_assoc false true z = refl
or_assoc false false z = refl

same_src-eq : (a b c : SockAddr) → same_src b c ≡ true → same_src a c ≡ same_src a b
unfolding same_src
same_src-eq a b c e =
    let f : b.family ≡ c.family = ground arith in
    let p : b.port ≡ c.port = ground arith in
    let i : b.sin_addr ≡ c.sin_addr = (bytes_eq.beq_iff b.sin_addr c.sin_addr).0 (ground arith) in
    rw (f, p, i)

live-unmark :
    (a b : SockAddr) (cs : List Conn) (c : Conn)
    → conn_find_by_src b cs ≡ some c
    → live a (unmark b cs) ≡ (same_src a b || live a cs)
unfolding unmark conn_find_by_src
live-unmark a b [] c e = absurd (clash e)
  where
    clash : none ≡ some c → ⊥
    clash e = cc
live-unmark a b (d ∷ ds) c e = elim (Bool-cases (same_src b d.src)) [
  | inl same ↦
      rw (same, same_src-eq a b d.src same) (either_first d.removed (same_src a b) (live a ds))
  | inr other ↦
      rw (other, live-unmark a b ds c (rw other at e))
        (either_later d.removed (same_src a d.src) (same_src a b) (live a ds))
]

module _ (inet_addr : List ℕ → List ℕ) where
  live-line :
      (a : SockAddr) (line : List ℕ) (s : Sender)
      → live a (setup_line inet_addr line s).1.conns
        ≡ (names a (parse_ip inet_addr (cut_line line)) || live a s.conns)
  unfolding setup_line add_src new_conn
  live-line a line s = elim (Option-cases (parse_ip inet_addr (cut_line line))) [
    | inl e ↦ rw (e, setup_line) refl
    | inr (b, e) ↦
        rw (e, setup_line)
          (elim (Option-cases (conn_find_by_src b s.conns)) [
            | inl new ↦ rw (new, add_src) refl
            | inr (c, old) ↦ rw (old, add_src) (live-unmark a b s.conns c old)
          ])
  ]

  live-lines :
      (a : SockAddr) (lines : List (List ℕ)) (count : ℕ) (s : Sender)
      → live a (setup_lines inet_addr lines count s).1.conns
        ≡ (in_file inet_addr a lines || live a s.conns)
  unfolding setup_lines
  live-lines a [] count s = refl
  live-lines a (line ∷ lines) count s =
      let k = setup_line inet_addr line s in
      live-lines a lines (count + k.0) k.1
      ∙ ap (λ t. in_file inet_addr a lines || t) (live-line a line s)
      ∙ or_assoc (in_file inet_addr a lines) (names a (parse_ip inet_addr (cut_line line)))
          (live a s.conns)

  or_false : (x : Bool) → (x || false) ≡ x
  or_false true = refl
  or_false false = refl

  -- The connections after the file is read have its sources, and are old ones as they were, or new.
  abbrev pub Reread : List (List ℕ) → List Conn → Result Sender → Type 0
  Reread lines cs (ok t) =
      ((a : SockAddr) → has_src a (sources t.conns) ≡ in_file inet_addr a lines)
      × AllOldOrNew cs t.conns
  Reread lines cs exited = ⊥
  Reread lines cs Result.undefined = ⊥

  -- After update_conns has read a file, there is a connection for a source exactly if a line of
  -- the file parses to it, whatever the connections were before; and each connection is one from
  -- before, as it was but that it is not marked as removed, or a new one.
  pub update_conns-Reread :
      (ret : List Call → Call → ℤ) (lines : List (List ℕ)) (s : Sender)
      → Reread lines s.conns (update_conns ret inet_addr (some lines) s)
  unfolding update_conns setup_conns
  update_conns-Reread ret lines s =
      let t = record s { conns = map mark_removed s.conns } in
      let u = (setup_lines inet_addr lines 0 t).1 in
      (
        (λ a.
            ap (λ cs. has_src a (sources cs)) (sweep-kept ret u.conns u)
            ∙ has_src-kept a u.conns
            ∙ live-lines a lines 0 t
            ∙ ap (λ b. in_file inet_addr a lines || b) (live-mark a s.conns)
            ∙ or_false (in_file inet_addr a lines)),
        subst (λ cs. AllOldOrNew s.conns cs) (sym (sweep-kept ret u.conns u))
            (reread-OldOrNew inet_addr lines s),
      )
