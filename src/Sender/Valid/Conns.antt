-- ===== src/Sender/Valid/Conns.antt =====
-- What update_conns of src/sender.cpp leaves sound.
use srtla.Base.{
  ℕ, ◌≡◌, refl, ◌∙◌, ap, inl, inr, true, false, Option, none, some, List, [], ◌∷◌, map, ◌==◌,
  ==_iff, if◌then◌else◌, arith, ℤ, Bool-cases, Option-cases,
}
use srtla.Addr.{SockAddr}
use srtla.Sender.{Conn, Sender, Call, is_open, is_pending, remove_active_fd}
use srtla.Sender.Conns.{
  setup_lines, setup_conns, mark_removed, free_conn, sweep, swept, update_conns,
}
use srtla.Sender.Valid.{
  AllOk, Apart, Distinct, Pending, IsValid, Keeps-conns, Keeps-IsValid, handles, sources,
  mem_handle, has_src,
}
use srtla.Sender.Valid.Receive.{ValidOn}
use srtla.Sender.Valid.Lines.{Pending-cons, mark-Keeps, setup_lines-IsValid}

-- The connections that are not marked.
abbrev pub kept : List Conn → List Conn
kept [] = []
kept (c ∷ cs) = if c.removed then kept cs else c ∷ kept cs

kept-AllOk : (cs : List Conn) → AllOk cs → AllOk (kept cs)
kept-AllOk [] o = tt
kept-AllOk (c ∷ cs) o = elim (Bool-cases c.removed) [
  | inl e ↦ rw e (kept-AllOk cs o.1)
  | inr e ↦ simp e (o.0, kept-AllOk cs o.1)
]

mem_handle-kept :
    (h : ℕ) (cs : List Conn)
    → mem_handle h (handles cs) ≡ false
    → mem_handle h (handles (kept cs)) ≡ false
mem_handle-kept h [] e = refl
mem_handle-kept h (c ∷ cs) e = elim (Bool-cases c.removed) [
  | inl r ↦ rw r (mem_handle-kept h cs (ground arith))
  | inr r ↦ rw r (ground (arith, mem_handle-kept h cs))
]

kept-Apart : (n : ℕ) (cs : List Conn) → Apart n (handles cs) → Apart n (handles (kept cs))
kept-Apart n [] a = tt
kept-Apart n (c ∷ cs) a = elim (Bool-cases c.removed) [
  | inl e ↦ rw e (kept-Apart n cs a.2)
  | inr e ↦ rw e (a.0, mem_handle-kept c.handle cs a.1, kept-Apart n cs a.2)
]

has_src-kept :
    (a : SockAddr) (cs : List Conn)
    → has_src a (sources cs) ≡ false
    → has_src a (sources (kept cs)) ≡ false
has_src-kept a [] e = refl
has_src-kept a (c ∷ cs) e = elim (Bool-cases c.removed) [
  | inl r ↦ rw r (has_src-kept a cs (ground arith))
  | inr r ↦ rw r (ground (arith, has_src-kept a cs))
]

kept-Distinct : (cs : List Conn) → Distinct (sources cs) → Distinct (sources (kept cs))
kept-Distinct [] d = tt
kept-Distinct (c ∷ cs) d = elim (Bool-cases c.removed) [
  | inl e ↦ rw e (kept-Distinct cs d.1)
  | inr e ↦ rw e (has_src-kept c.src cs d.0, kept-Distinct cs d.1)
]

-- The pending connection after one connection is freed.
abbrev pub unless_freed : ℕ → Option ℕ → Option ℕ
unless_freed h p = if is_pending p h then none else p

module _ (ret : List Call → Call → ℤ) where
  free_conn-rest :
      (c : Conn) (s : Sender)
      → ((free_conn ret c s).next ≡ s.next)
        × ((free_conn ret c s).srtla_id ≡ s.srtla_id)
        × ((free_conn ret c s).pending_reg2_conn ≡ unless_freed c.handle s.pending_reg2_conn)
  unfolding free_conn remove_active_fd
  free_conn-rest c s = elim (Bool-cases (is_open c.fd)) [
    | inl e ↦ rw e (refl, refl, refl)
    | inr e ↦ rw e (refl, refl, refl)
  ]

  pub sweep-kept : (cs : List Conn) (s : Sender) → (sweep ret cs s).0 ≡ kept cs
  unfolding sweep
  sweep-kept [] s = refl
  sweep-kept (c ∷ cs) s = elim (Bool-cases c.removed) [
    | inl e ↦ rw e (sweep-kept cs (free_conn ret c s))
    | inr e ↦ simp e (ap (λ t. c ∷ t) (sweep-kept cs s))
  ]

  sweep-rest :
      (cs : List Conn) (s : Sender)
      → ((sweep ret cs s).1.next ≡ s.next) × ((sweep ret cs s).1.srtla_id ≡ s.srtla_id)
  unfolding sweep
  sweep-rest [] s = (refl, refl)
  sweep-rest (c ∷ cs) s = elim (Bool-cases c.removed) [
    | inl e ↦
        let t = free_conn ret c s in
        let f = free_conn-rest c s in let k = sweep-rest cs t in rw e (k.0 ∙ f.0, k.1 ∙ f.1)
    | inr e ↦ rw e (sweep-rest cs s)
  ]

  -- The pending connection stands or goes with its connection.
  sweep-none :
      (cs : List Conn) (s : Sender)
      → s.pending_reg2_conn ≡ none
      → (sweep ret cs s).1.pending_reg2_conn ≡ none
  unfolding sweep
  sweep-none [] s n = n
  sweep-none (c ∷ cs) s n = elim (Bool-cases c.removed) [
    | inl e ↦ rw e (sweep-none cs (free_conn ret c s) ((free_conn-rest c s).2 ∙ rw n refl))
    | inr e ↦ rw e (sweep-none cs s n)
  ]

  sweep-other :
      (p : ℕ) (cs : List Conn) (s : Sender)
      → s.pending_reg2_conn ≡ some p
      → mem_handle p (handles cs) ≡ false
      → (sweep ret cs s).1.pending_reg2_conn ≡ some p
  unfolding sweep
  sweep-other p [] s n m = n
  sweep-other p (c ∷ cs) s n m = elim (Bool-cases c.removed) [
    | inl e ↦ rw e (
        sweep-other p cs (free_conn ret c s) ((free_conn-rest c s).2 ∙ rw n (ground arith))
          (ground arith))
    | inr e ↦ rw e (sweep-other p cs s n (ground arith))
  ]

  sweep-some :
      (n p : ℕ) (cs : List Conn) (s : Sender)
      → Apart n (handles cs)
      → s.pending_reg2_conn ≡ some p
      → mem_handle p (handles cs) ≡ true
      → Pending (sweep ret cs s).1.pending_reg2_conn (handles (kept cs))
  unfolding sweep
  sweep-some n p [] s a q m = absurd (clash m)
    where
      clash : false ≡ true → ⊥
      clash e = cc
  sweep-some n p (c ∷ cs) s a q m =
      let f = free_conn-rest c s in
      elim (Bool-cases c.removed) [
        | inl e ↦ rw e (elim (Bool-cases (p == c.handle)) [
          | inl same ↦ rw (sweep-none cs (free_conn ret c s) (f.2 ∙ rw q (rw same refl))) tt
          | inr other ↦
              sweep-some n p cs (free_conn ret c s) a.2 (f.2 ∙ rw q (rw other refl)) (ground arith)
        ])
        | inr e ↦ rw e (elim (Bool-cases (p == c.handle)) [
          | inl same ↦
              let at : p ≡ c.handle = (==_iff p c.handle).0 same in
              rw (sweep-other p cs s q (rw at a.1)) (ground arith)
          | inr other ↦
              Pending-cons (sweep ret cs s).1.pending_reg2_conn c.handle (handles (kept cs))
                (sweep-some n p cs s a.2 q (ground arith))
        ])
      ]

  pub swept-IsValid : (half : List ℕ) (s : Sender) → IsValid half s → IsValid half (swept ret s)
  swept-IsValid half s v = record {
    okay = rw (sweep-kept s.conns s) (kept-AllOk s.conns v.okay);
    apart = rw (sweep-kept s.conns s, (sweep-rest s.conns s).0) (kept-Apart s.next s.conns v.apart);
    distinct = rw (sweep-kept s.conns s) (kept-Distinct s.conns v.distinct);
    pending = rw (sweep-kept s.conns s) (elim (Option-cases s.pending_reg2_conn) [
      | inl e ↦ rw (sweep-none s.conns s e) tt
      | inr (p, e) ↦ sweep-some s.next p s.conns s v.apart e (rw e at v.pending)
    ]);
    id_length = rw (sweep-rest s.conns s).1 v.id_length;
    id_half = rw (sweep-rest s.conns s).1 v.id_half;
  }

  pub update_conns-ValidOn :
      (inet_addr : List ℕ → List ℕ) (half : List ℕ) (file : Option (List (List ℕ))) (s : Sender)
      → IsValid half s
      → ValidOn ret half (update_conns ret inet_addr file s)
  unfolding update_conns setup_conns
  update_conns-ValidOn inet_addr half none s v = tt
  update_conns-ValidOn inet_addr half (some lines) s v =
      let t = record s { conns = map mark_removed s.conns } in
      swept-IsValid half (setup_lines inet_addr lines 0 t).1 (
        setup_lines-IsValid inet_addr half lines 0 t (
          Keeps-IsValid half s t (Keeps-conns s (map mark_removed s.conns) (mark-Keeps s.conns)) v))
