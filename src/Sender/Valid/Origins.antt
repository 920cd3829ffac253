-- ===== src/Sender/Valid/Origins.antt =====
-- Where the connections come from that update_conns of src/sender.cpp leaves.
use srtla.Base.{
  ℕ, ◌+◌, ◌≡◌, refl, ◌∙◌, ap, ◌⊎◌, inl, inr, Bool, false, List, [], ◌∷◌, map, Bool-cases,
  Option-cases,
}
use srtla.Addr.{SockAddr}
use srtla.Sender.{Conn, Sender}
use srtla.Sender.Conns.{
  same_src, conn_find_by_src, new_conn, unmark, parse_ip, cut_line, add_src, setup_line,
  setup_lines, mark_removed,
}
use srtla.Sender.Valid.Conns.{kept}

abbrev pub In : Conn → List Conn → Type 0
In c [] = ⊥
In c (d ∷ ds) = (c ≡ d) ⊎ In c ds

-- A connection of the list, or a new one, up to its mark.
abbrev From : List Conn → Conn → Type 0
From cs d =
    ((c : Conn) × In c cs × (d ≡ record c { removed = d.removed }))
    ⊎ ((h : ℕ) × (src : SockAddr) × (d ≡ record (new_conn h src) { removed = d.removed }))

abbrev AllFrom : List Conn → List Conn → Type 0
AllFrom cs [] = Unit {0}
AllFrom cs (d ∷ ds) = From cs d × AllFrom cs ds

-- A connection of the list as it was, its mark taken away, or a new one.
abbrev pub OldOrNew : List Conn → Conn → Type 0
OldOrNew cs d =
    ((c : Conn) × In c cs × (d ≡ record c { removed = false }))
    ⊎ ((h : ℕ) × (src : SockAddr) × (d ≡ new_conn h src))

abbrev pub AllOldOrNew : List Conn → List Conn → Type 0
AllOldOrNew cs [] = Unit {0}
AllOldOrNew cs (d ∷ ds) = OldOrNew cs d × AllOldOrNew cs ds

From-marked :
    (r : Bool) (cs : List Conn) (d : Conn) → From cs d → From cs (record d { removed = r })
From-marked r cs d (inl (c, m, e)) = inl (c, m, ap (λ (x : Conn). record x { removed = r }) e)
From-marked r cs d (inr (h, src, e)) = inr (h, src, ap (λ (x : Conn). record x { removed = r }) e)

From-cons : (c d : Conn) (cs : List Conn) → From cs d → From (c ∷ cs) d
From-cons c d cs (inl (x, m, e)) = inl (x, inr m, e)
From-cons c d cs (inr (h, src, e)) = inr (h, src, e)

AllFrom-cons : (c : Conn) (cs ds : List Conn) → AllFrom cs ds → AllFrom (c ∷ cs) ds
AllFrom-cons c cs [] a = tt
AllFrom-cons c cs (d ∷ ds) a = (From-cons c d cs a.0, AllFrom-cons c cs ds a.1)

marked-AllFrom : (cs : List Conn) → AllFrom cs (map mark_removed cs)
marked-AllFrom [] = tt
marked-AllFrom (c ∷ cs) =
    (inl (c, inl refl, refl), AllFrom-cons c cs (map mark_removed cs) (marked-AllFrom cs))

unmark-AllFrom : (src : SockAddr) (cs ds : List Conn) → AllFrom cs ds → AllFrom cs (unmark src ds)
unfolding unmark
unmark-AllFrom src cs [] a = tt
unmark-AllFrom src cs (d ∷ ds) a = elim (Bool-cases (same_src src d.src)) [
  | inl e ↦ rw e (From-marked false cs d a.0, a.1)
  | inr e ↦ rw e (a.0, unmark-AllFrom src cs ds a.1)
]

new_conn-unmarked :
    (h : ℕ) (src : SockAddr) → record (new_conn h src) { removed = false } ≡ new_conn h src
unfolding new_conn
new_conn-unmarked h src = refl

kept-OldOrNew : (cs ds : List Conn) → AllFrom cs ds → AllOldOrNew cs (kept ds)
kept-OldOrNew cs [] a = tt
kept-OldOrNew cs (d ∷ ds) a = elim (Bool-cases d.removed) [
  | inl e ↦ rw e (kept-OldOrNew cs ds a.1)
  | inr e ↦ simp e (unmarked a.0 e, kept-OldOrNew cs ds a.1)
]
  where
    unmarked : From cs d → d.removed ≡ false → OldOrNew cs d
    unmarked (inl (c, m, q)) e = inl (c, m, q ∙ ap (λ (r : Bool). record c { removed = r }) e)
    unmarked (inr (h, src, q)) e = inr (
      h,
      src,
      q ∙ ap (λ (r : Bool). record (new_conn h src) { removed = r }) e ∙ new_conn-unmarked h src,
    )

module _ (inet_addr : List ℕ → List ℕ) where
  line-AllFrom :
      (cs : List Conn) (line : List ℕ) (s : Sender)
      → AllFrom cs s.conns
      → AllFrom cs (setup_line inet_addr line s).1.conns
  unfolding setup_line add_src
  line-AllFrom cs line s a = elim (Option-cases (parse_ip inet_addr (cut_line line))) [
    | inl e ↦ rw (e, setup_line) a
    | inr (b, e) ↦
        rw (e, setup_line)
          (elim (Option-cases (conn_find_by_src b s.conns)) [
            | inl new ↦ rw (new, add_src) (inr (s.next, b, refl), a)
            | inr (c, old) ↦ rw (old, add_src) (unmark-AllFrom b cs s.conns a)
          ])
  ]

  lines-AllFrom :
      (cs : List Conn) (lines : List (List ℕ)) (count : ℕ) (s : Sender)
      → AllFrom cs s.conns
      → AllFrom cs (setup_lines inet_addr lines count s).1.conns
  unfolding setup_lines
  lines-AllFrom cs [] count s a = a
  lines-AllFrom cs (line ∷ lines) count s a =
      let k = setup_line inet_addr line s in
      lines-AllFrom cs lines (count + k.0) k.1 (line-AllFrom cs line s a)

  -- What is left after the marks are set, the lines are read, and what is still marked goes.
  pub reread-OldOrNew :
      (lines : List (List ℕ)) (s : Sender)
      → let t = record s { conns = map mark_removed s.conns } in
        AllOldOrNew s.conns (kept (setup_lines inet_addr lines 0 t).1.conns)
  reread-OldOrNew lines s =
      let t = record s { conns = map mark_removed s.conns } in
      kept-OldOrNew s.conns (setup_lines inet_addr lines 0 t).1.conns
        (lines-AllFrom s.conns lines 0 t (marked-AllFrom s.conns))
