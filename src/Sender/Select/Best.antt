-- ===== src/Sender/Select/Best.antt =====
-- The connection that select_conn of src/sender.cpp chooses.
use srtla.Base.{
  ℕ, ◌<◌, ◌≤◌, ◌≡◌, refl, ap, ◌⊎◌, inl, inr, true, false, not, ◌&&◌, Option, none, some, List, [],
  ◌∷◌, ◌++◌, arith, pos, negsuc, ltb_ℤ, Bool-cases, Option-cases,
}
use srtla.Sender.{Conn, Sender}
use srtla.Sender.Select.{conn_timed_out, score, select_from, select_conn}

abbrev pub AllTimedOut : ℕ → List Conn → Type 0
AllTimedOut t [] = Unit {0}
AllTimedOut t (c ∷ cs) = (conn_timed_out c t ≡ true) × AllTimedOut t cs

-- The connections that have not timed out have scores below k, or up to k.
abbrev pub ScoresBelow : ℕ → ℕ → List Conn → Type 0
ScoresBelow t k [] = Unit {0}
ScoresBelow t k (c ∷ cs) = ((conn_timed_out c t ≡ true) ⊎ (score c < k)) × ScoresBelow t k cs

abbrev pub ScoresUpTo : ℕ → ℕ → List Conn → Type 0
ScoresUpTo t k [] = Unit {0}
ScoresUpTo t k (c ∷ cs) = ((conn_timed_out c t ≡ true) ⊎ (score c ≤ k)) × ScoresUpTo t k cs

-- c stands in the list, has not timed out, and has the best score, better than any before it.
pub record Chosen (t : ℕ) (cs : List Conn) (c : Conn) : Type 0 where
  pub before : List Conn
  pub after : List Conn
  pub split : cs ≡ before ++ c ∷ after
  pub live : conn_timed_out c t ≡ false
  pub earlier : ScoresBelow t (score c) before
  pub later : ScoresUpTo t (score c) after

abbrev pub Choice : ℕ → List Conn → Option Conn → Type 0
Choice t cs none = AllTimedOut t cs
Choice t cs (some c) = Chosen t cs c

Chosen-cons :
    (t : ℕ) (cs : List Conn) (c d : Conn)
    → (conn_timed_out d t ≡ true) ⊎ (score d < score c)
    → Chosen t cs c
    → Chosen t (d ∷ cs) c
Chosen-cons t cs c d h k = record {
  before = d ∷ k.before;
  after = k.after;
  split = ap (λ l. d ∷ l) k.split;
  live = k.live;
  earlier = (h, k.earlier);
  later = k.later;
}

-- The loop from a choice on: it stands, or a better one is met.
abbrev Improved : ℕ → List Conn → Conn → Option Conn → Type 0
Improved t cs c r =
    ((r ≡ some c) × ScoresUpTo t (score c) cs)
    ⊎ ((d : Conn) × (r ≡ some d) × (score c < score d) × Chosen t cs d)

lift : {P : Type 0} {i j k : ℕ} → P ⊎ (i ≤ j) → j < k → P ⊎ (i < k)
lift (inl p) lt = inl p
lift (inr le) lt = inr (omega arith)

improve :
    (t : ℕ) (cs : List Conn) (c : Conn)
    → Improved t cs c (select_from t cs (some c) (pos (score c)))
unfolding select_from
improve t [] c = inl (refl, tt)
improve t (d ∷ ds) c =
    elim (Bool-cases (not (conn_timed_out d t) && ltb_ℤ (pos (score c)) (pos (score d)))) [
      | inl better ↦
          let live : conn_timed_out d t ≡ false = ground arith in
          let more : score c < score d = ground arith in
          rw better (elim (improve t ds d) [
            | inl (e, k) ↦ inr (
              d,
              e,
              more,
              record {
                before = [];
                after = ds;
                split = refl;
                live = live;
                earlier = tt;
                later = k;
              },
            )
            | inr (x, e, lt, k) ↦ inr (x, e, omega arith, Chosen-cons t ds x d (inr lt) k)
          ])
      | inr worse ↦
          let below : (conn_timed_out d t ≡ true) ⊎ (score d ≤ score c) =
            elim (Bool-cases (conn_timed_out d t)) [
              | inl out ↦ inl out
              | inr live ↦ inr (ground arith)
            ] in
          rw worse (elim (improve t ds c) [
            | inl (e, k) ↦ inl (e, (below, k))
            | inr (x, e, lt, k) ↦ inr (x, e, lt, Chosen-cons t ds x d (lift below lt) k)
          ])
    ]

Choice-skip :
    (t : ℕ) (cs : List Conn) (d : Conn)
    → conn_timed_out d t ≡ true
    → (r : Option Conn) → Choice t cs r
    → Choice t (d ∷ cs) r
Choice-skip t cs d out none k = (out, k)
Choice-skip t cs d out (some c) k = Chosen-cons t cs c d (inl out) k

select_from-Choice : (t : ℕ) (cs : List Conn) → Choice t cs (select_from t cs none (negsuc 0))
unfolding select_from
select_from-Choice t [] = tt
select_from-Choice t (d ∷ ds) = elim (Bool-cases (conn_timed_out d t)) [
  | inl out ↦
      rw out (Choice-skip t ds d out (select_from t ds none (negsuc 0)) (select_from-Choice t ds))
  | inr live ↦
      let any : not false && ltb_ℤ (negsuc 0) (pos (score d)) ≡ true = ground arith in
      rw (live, any)
        (elim (improve t ds d) [
          | inl (e, k) ↦ rw e (record {
            before = [];
            after = ds;
            split = refl;
            live = live;
            earlier = tt;
            later = k;
          })
          | inr (x, e, lt, k) ↦ rw e (Chosen-cons t ds x d (inr lt) k)
        ])
]

-- Where the clock can be read, the connection that is chosen has not timed out, and its score, the
-- window by the number in flight and one, is the best of those that have not timed out and better
-- than any before it in the list; none is chosen only if all have timed out.
pub select_conn-Choice : (t : ℕ) (s : Sender) → Choice t s.conns (select_conn (some t) s).0
unfolding select_conn
select_conn-Choice t s =
    let k = select_from-Choice t s.conns in
    elim (Option-cases (select_from t s.conns none (negsuc 0))) [
      | inl e ↦ rw (e, select_conn) (rw e at k)
      | inr (c, e) ↦ rw (e, select_conn) (rw e at k)
    ]
