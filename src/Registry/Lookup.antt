-- ===== src/Registry/Lookup.antt =====
-- find_by_address and find_group_by_id of src/connection/connection_registry.cpp.
use srtla.Base.{
  ◌≡◌, ◌⊎◌, inl, inr, refl, Bool, true, false, ◌||◌, Option, none, some, List, [], ◌∷◌, arith, sym,
  subst, Bool-cases, Option-cases,
}
use srtla.Addr.{SockAddr, addresses_equal}
use srtla.Connection.{Connection}
use srtla.Group.{Group}
use srtla.Registry.{find_conn, group_answer, first_answer, find_by_address}

-- A connection of the list has the address.
unfoldable pub has_conn_at : List Connection → SockAddr → Bool
has_conn_at [] a = false
has_conn_at (c ∷ cs) a = addresses_equal c.addr a || has_conn_at cs a

-- A group claims the addresses of its connections and its last address.
unfoldable pub claims : Group → SockAddr → Bool
claims g a = has_conn_at g.conns a || addresses_equal g.last_addr a

pub data MemGroup (g : Group) : List Group → Type 0 where
  head : {gs : List Group} → MemGroup g (g ∷ gs)
  tail : {h : Group} {gs : List Group} → MemGroup g gs → MemGroup g (h ∷ gs)

pub data MemConn (c : Connection) : List Connection → Type 0 where
  head : {cs : List Connection} → MemConn c (c ∷ cs)
  tail : {d : Connection} {cs : List Connection} → MemConn c cs → MemConn c (d ∷ cs)

pub mem_cons : (x g : Group) (gs : List Group) → MemGroup x (g ∷ gs) → (x ≡ g) ⊎ MemGroup x gs
mem_cons x g gs MemGroup.head = inl refl
mem_cons x g gs (MemGroup.tail m) = inr m

-- No group of the list claims the address.
abbrev pub Unclaimed : List Group → SockAddr → Type 0
Unclaimed [] a = Unit {0}
Unclaimed (g ∷ gs) a = (claims g a ≡ false) × Unclaimed gs a

pub find_conn-none :
    (cs : List Connection) (a : SockAddr) → find_conn cs a ≡ none → has_conn_at cs a ≡ false
unfolding find_conn has_conn_at
find_conn-none [] a h = refl
find_conn-none (c ∷ cs) a h = ground (arith, find_conn-none cs a)

pub find_conn-some :
    (cs : List Connection) (a : SockAddr) {c : Connection}
    → find_conn cs a ≡ some c
    → (addresses_equal c.addr a ≡ true) × (has_conn_at cs a ≡ true)
unfolding find_conn has_conn_at
find_conn-some [] a h = cc
find_conn-some (d ∷ cs) a {c} h = ground (arith, find_conn-some cs a {c = c})

pub find_conn-MemConn :
    (cs : List Connection) (a : SockAddr) (c : Connection) → find_conn cs a ≡ some c → MemConn c cs
unfolding find_conn
find_conn-MemConn [] a c h = absurd (cc)
find_conn-MemConn (d ∷ cs) a c h = elim (Bool-cases (addresses_equal d.addr a)) [
  | inl e ↦ let same : d ≡ c = cc (rw e at h) in rw (← same) MemConn.head
  | inr e ↦ MemConn.tail (find_conn-MemConn cs a c (rw e at h))
]

pub first_answer_cases :
    (g : Group) (a : SockAddr) (later : Option (Group × Option Connection)) (h : Group)
    (oc : Option Connection)
    → first_answer (group_answer g (find_conn g.conns a) a) later ≡ some (h, oc)
    → ((claims g a ≡ true) × (h ≡ g) × (oc ≡ find_conn g.conns a))
      ⊎ ((claims g a ≡ false) × (later ≡ some (h, oc)))
unfolding claims
first_answer_cases g a later h oc e = elim (Option-cases (find_conn g.conns a)) [
  | inl missing ↦ elim (Bool-cases (addresses_equal g.last_addr a)) [
    | inl last ↦
        let none_conn : Option Connection = none in
        let e' : some (g, none_conn) ≡ some (h, oc) = rw (missing, last) at e in
        let none_is : none_conn ≡ oc = cc e' in
        inl (ground (arith, last), cc e', cc (none_is, missing))
    | inr apart ↦
        inr (ground (arith, find_conn-none g.conns a missing, apart), rw (missing, apart) at e)
  ]
  | inr (c, found) ↦
      let e' : some (g, some c) ≡ some (h, oc) = rw found at e in
      inl (ground (arith, find_conn-some g.conns a {c = c} found), cc e', cc (e', found))
]

-- What a lookup by address returns: the group it names is in the table and claims the address, and
-- the connection is that group's connection at the address, or null where it has none.
pub find_by_address-some :
    (gs : List Group) (a : SockAddr) (g : Group) (oc : Option Connection)
    → find_by_address gs a ≡ some (g, oc)
    → MemGroup g gs × (claims g a ≡ true) × (oc ≡ find_conn g.conns a)
unfolding find_by_address
find_by_address-some [] a g oc e = absurd (cc)
find_by_address-some (h ∷ hs) a g oc e =
    elim (first_answer_cases h a (find_by_address hs a) g oc e) [
      | inl (claimed, same, conn) ↦ (
        subst (λ x. MemGroup x (h ∷ hs)) (sym same) MemGroup.head,
        subst (λ x. claims x a ≡ true) (sym same) claimed,
        subst (λ x. oc ≡ find_conn x.conns a) (sym same) conn,
      )
      | inr (_, rest) ↦ let r = find_by_address-some hs a g oc rest in (MemGroup.tail r.0, r.1, r.2)
    ]

first_answer-none :
    (g : Group) (a : SockAddr) (later : Option (Group × Option Connection))
    → first_answer (group_answer g (find_conn g.conns a) a) later ≡ none
    → (claims g a ≡ false) × (later ≡ none)
unfolding claims
first_answer-none g a later e = elim (Option-cases (find_conn g.conns a)) [
  | inl missing ↦ elim (Bool-cases (addresses_equal g.last_addr a)) [
    | inl last ↦
        let none_conn : Option Connection = none in
        let e' : some (g, none_conn) ≡ none = rw (missing, last) at e in absurd (cc e')
    | inr apart ↦
        (ground (arith, find_conn-none g.conns a missing, apart), rw (missing, apart) at e)
  ]
  | inr (c, found) ↦ let e' : some (g, some c) ≡ none = rw found at e in absurd (cc e')
]

-- A lookup by address finds nothing only where no group claims the address.
pub find_by_address-none :
    (gs : List Group) (a : SockAddr)
    → find_by_address gs a ≡ none
    → (g : Group) → MemGroup g gs
    → claims g a ≡ false
unfolding find_by_address
find_by_address-none [] a e g m = elim m [ ]
find_by_address-none (h ∷ hs) a e g MemGroup.head =
    (first_answer-none h a (find_by_address hs a) e).0
find_by_address-none (h ∷ hs) a e g (MemGroup.tail m) =
    find_by_address-none hs a (first_answer-none h a (find_by_address hs a) e).1 g m
