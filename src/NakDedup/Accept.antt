-- ===== src/NakDedup/Accept.antt =====
-- should_accept_nak: when a packet passes, and how often over any history.
use srtla.Base.{
  ℕ, suc, ◌+◌, ◌-◌, ◌≤◌, ◌<◌, ◌≡◌, ◌↔◌, inl, inr, true, Option, none, some, List, [], ◌∷◌, arith,
  ap, ◌==◌, ==_iff, if◌then◌else◌, Option-cases,
}
use srtla.Base.Assoc.{find, find-insert, nat_eq}
use srtla.NakDedup.{Cache, NakHashEntry, should_accept_nak, max_repeats}

-- A known hash passes exactly if 100 ms have gone by since it last passed and it has been repeated
-- less than once; an unknown one always passes.
pub should_accept_nak_iff :
    (cache : Cache) (hash now : ℕ)
    → ((should_accept_nak cache hash now).0 ≡ true) ↔ (
        (e : NakHashEntry)
        → find hash cache ≡ some e
        → (e.timestamp_ms + 100 ≤ now) × (e.repeat_count < max_repeats))
unfolding should_accept_nak
should_accept_nak_iff cache hash now = elim (Option-cases (find hash cache)) [
  | inl fresh ↦ ((λ h e f. cc), (λ h. rw (fresh, should_accept_nak)))
  | inr (e, known) ↦ ((λ h e' f. ground arith), (λ h. let p = h e known in ground arith))
]

-- How often a hash may still pass.
abbrev pub credit : Option NakHashEntry → ℕ
credit none = 2
credit (some e) = max_repeats - e.repeat_count

same_key : (cache : Cache) (a b : ℕ) → (a == b) ≡ true → find a cache ≡ find b cache
same_key cache a b h = ap (λ k. find k cache) ((==_iff a b).0 h)

-- One query spends a credit of its hash exactly if it passes, and touches no other hash.
credit-should_accept_nak :
    (cache : Cache) (hash now other : ℕ)
    → let (ok, cache') = should_accept_nak cache hash now in
      credit (find other cache') + (if hash == other then (if ok then 1 else 0) else 0)
      ≡ credit (find other cache)
unfolding should_accept_nak
credit-should_accept_nak cache hash now other = elim (Option-cases (find hash cache)) [
  | inl fresh ↦
      let e : NakHashEntry = record { timestamp_ms = now; repeat_count = 0 } in
      rw (fresh, should_accept_nak)
        (ground (arith, find-insert hash other e cache, same_key cache hash other, fresh))
  | inr (old, known) ↦
      let e : NakHashEntry = record { timestamp_ms = now; repeat_count = suc old.repeat_count } in
      rw (known, should_accept_nak)
        (ground (arith, find-insert hash other e cache, same_key cache hash other, known))
]

-- The cache after a history of queries, each a hash and the time of the query, and how many of
-- them pass with the hash `h`.
abbrev pub passes : ℕ → Cache → List (ℕ × ℕ) → ℕ
passes h cache [] = 0
passes h cache ((hash, now) ∷ rest) =
    let (ok, cache') = should_accept_nak cache hash now in
    (if hash == h then (if ok then 1 else 0) else 0) + passes h cache' rest

passes-le-credit :
    (h : ℕ) (cache : Cache) (history : List (ℕ × ℕ))
    → passes h cache history ≤ credit (find h cache)
passes-le-credit h cache [] = omega arith
passes-le-credit h cache ((hash, now) ∷ rest) = omega (
  arith,
  credit-should_accept_nak cache hash now h,
  passes-le-credit h (should_accept_nak cache hash now).1 rest,
)

-- Over any history of queries, in any order and with any times, packets with one payload hash pass
-- twice at most.
pub passes-le-two : (h : ℕ) (history : List (ℕ × ℕ)) → passes h [] history ≤ 2
unfolding find
passes-le-two h history = passes-le-credit h [] history
