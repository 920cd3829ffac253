-- ===== src/Sender/Log/Recent.antt =====
-- The ring of src/sender.cpp behaves as the list of the last 255 sequence numbers.
use srtla.Base.{
  ℕ, ◌+◌, ◌-◌, ◌*◌, ◌%◌, ◌^◌, ◌≤◌, ltb, ◌<◌, ◌≡◌, ◌≢◌, refl, sym, ◌∙◌, ap, inl, inr, Bool, true,
  false, not, none, some, List, [], ◌∷◌, map, length, take, get_or, set, length-set,
  get_or-set_self, get_or-set_ne, ◌==◌, if◌then◌else◌, arith, ℤ, pos, negsuc, ltb_ℤ, Bool-cases,
  Option-cases, ==_iff,
}
use srtla.Sender.{Conn}
use srtla.Sender.Log.{
  in_flight_units, reg_pkt, slots, search_pkt, lost_pkt, nak_conns, acked_pkt, grow_window,
  srtla_ack_conns, drop_acked, conn_register_srt_ack,
}
use srtla.Sender.Log.Ring.{mem, Nodup, Below, slots-Nodup, slots-Below, slots-next, mem-slots_self}
use srtla.Sender.Log.View.{
  read, view, views, sent, strike, nak_at, nak, grown, acked, ack_at, srtla_ack, cut, count_from,
  srt_ack, LogOk, LogsOk,
}
use srtla.Sender.Log.Search.{
  read-set_absent, take-read, mem-take, strike-search_none, strike-search_some,
}

-- Logging a sequence number on a connection whose log and index are in range puts it first among
-- the last 255 and forgets the oldest.
pub view-reg_pkt : (c : Conn) (sn : ℕ) → LogOk c → view (reg_pkt c sn) ≡ sent sn (view c)
unfolding reg_pkt
view-reg_pkt c sn l =
    let idx = c.pkt_idx in
    let is = slots idx in
    let log = set c.pkt_log idx (pos sn) in
    let tail : read log (take 254 is) ≡ take 254 (read c.pkt_log is) =
      read-set_absent c.pkt_log (take 254 is) idx (pos sn)
        (mem-take 254 idx is (mem-slots_self idx l.0))
      ∙ take-read c.pkt_log 254 is in
    rw (
      slots-next idx l.0,
      get_or-set_self c.pkt_log idx (pos sn) (pos 0) (omega (arith, l.0, l.1)),
      tail,
    )

search_pkt-some :
    (c : Conn) (p : ℤ) (i : ℕ)
    → LogOk c
    → search_pkt c p ≡ some i
    → strike p (view c).recent ≡ some (read (set c.pkt_log i (negsuc 0)) (slots c.pkt_idx))
unfolding search_pkt
search_pkt-some c p i l e =
    strike-search_some c.pkt_log p (slots c.pkt_idx) i l.1 (slots-Nodup c.pkt_idx l.0)
      (slots-Below c.pkt_idx l.0) e

search_pkt-none : (c : Conn) (p : ℤ) → search_pkt c p ≡ none → strike p (view c).recent ≡ none
unfolding search_pkt
search_pkt-none c p e = strike-search_none c.pkt_log p (slots c.pkt_idx) e

-- On connections whose logs and indices are in range, a lost packet is struck out on the first
-- connection that has it among its last 255, whose window shrinks by 100, to 1000 at least; where
-- none has it, nothing changes.
pub views-nak : (p : ℤ) (cs : List Conn) → LogsOk cs → views (nak_conns p cs) ≡ nak p (views cs)
unfolding nak_conns lost_pkt
views-nak p [] l = refl
views-nak p (c ∷ cs) l = elim (Option-cases (search_pkt c p)) [
  | inl e ↦
      rw (e, nak_conns)
        (ap (λ t. view c ∷ t) (views-nak p cs l.1)
          ∙ ap (λ o. nak_at o (view c) (views cs) (nak p (views cs))) (sym (search_pkt-none c p e)))
  | inr (i, e) ↦
      rw (e, nak_conns)
        (ap (λ o. nak_at o (view c) (views cs) (nak p (views cs)))
          (sym (search_pkt-some c p i l.0 e)))
]

view-grow : (c : Conn) → view (grow_window c) ≡ grown (view c)
unfolding grow_window
view-grow c = elim (Bool-cases (c.last_rcvd == 0)) [ inl e ↦ simp e refl | inr e ↦ simp e refl ]

views-grow : (cs : List Conn) → views (map grow_window cs) ≡ map grown (views cs)
views-grow [] = refl
views-grow (c ∷ cs) = rw (view-grow c, views-grow cs)

in_flight_units-plain :
    (w n : ℕ) → n < 2147484 → ltb_ℤ (pos w) (in_flight_units n) ≡ ltb w (n * 1000)
in_flight_units-plain w n h =
    let small : (n * 1000) % 2 ^ 32 ≡ n * 1000 = omega arith in rw small (ground arith)

-- No product of in_flight_pkts overflows.
abbrev pub FewInFlight : List Conn → Type 0
FewInFlight [] = Unit {0}
FewInFlight (c ∷ cs) = (c.in_flight_pkts ≤ 2147484) × FewInFlight cs

view-acked :
    (c : Conn) (i : ℕ)
    → c.in_flight_pkts ≤ 2147484
    → view (acked_pkt c i) ≡ acked (view c) (read (set c.pkt_log i (negsuc 0)) (slots c.pkt_idx))
unfolding acked_pkt
view-acked c i few = rw (in_flight_units-plain c.window (c.in_flight_pkts - 1) (omega arith)) refl

-- On connections whose logs and indices are in range, with 2147484 packets in flight at most on
-- each, so that no product overflows, a packet that an SRTLA ACK names is struck
-- out on the first connection that has it among its last 255, which has one packet fewer in flight,
-- and 29 more in its window if what is left in flight, times 1000, is more than the window; then
-- each connection that has heard from the receiver has 1 more in its window, to 60000 at most.
pub views-srtla_ack :
    (p : ℤ) (cs : List Conn)
    → LogsOk cs
    → FewInFlight cs
    → views (srtla_ack_conns p cs) ≡ srtla_ack p (views cs)
unfolding srtla_ack_conns
views-srtla_ack p [] l few = refl
views-srtla_ack p (c ∷ cs) l few = elim (Option-cases (search_pkt c p)) [
  | inl e ↦
      rw (e, srtla_ack_conns)
        ((λ k. view-grow c k ∷ views-srtla_ack p cs l.1 few.1 k)
          ∙ ap (λ o. ack_at o (view c) (views cs) (srtla_ack p (views cs)))
              (sym (search_pkt-none c p e)))
  | inr (i, e) ↦
      rw (e, srtla_ack_conns)
        ((λ k. (view-grow (acked_pkt c i) ∙ ap grown (view-acked c i few.0)) k ∷ views-grow cs k)
          ∙ ap (λ o. ack_at o (view c) (views cs) (srtla_ack p (views cs)))
              (sym (search_pkt-some c p i l.0 e)))
]

get_or-if_set :
    (older : Bool) (log : List ℤ) (i j : ℕ) (v : ℤ)
    → i ≢ j
    → get_or (if older then set log i v else log) j (pos 0) ≡ get_or log j (pos 0)
get_or-if_set true log i j v ne = get_or-set_ne log i j v (pos 0) ne
get_or-if_set false log i j v ne = refl

get_or-if_set_self :
    (older : Bool) (log : List ℤ) (i : ℕ) (v : ℤ)
    → i < length log
    → get_or (if older then set log i v else log) i (pos 0)
      ≡ (if older then v else get_or log i (pos 0))
get_or-if_set_self true log i v h = get_or-set_self log i v (pos 0) h
get_or-if_set_self false log i v h = refl

read-if_set :
    (older : Bool) (log : List ℤ) (is : List ℕ) (i : ℕ) (v : ℤ)
    → mem i is ≡ false
    → read (if older then set log i v else log) is ≡ read log is
read-if_set true log is i v m = read-set_absent log is i v m
read-if_set false log is i v m = refl

length-if_set :
    (older : Bool) (log : List ℤ) (i : ℕ) (v : ℤ)
    → length (if older then set log i v else log) ≡ length log
length-if_set true log i v = length-set log i v
length-if_set false log i v = refl

get_or-drop_absent :
    (ack : ℤ) (is : List ℕ) (log : List ℤ) (n j : ℕ)
    → mem j is ≡ false
    → get_or (drop_acked ack is log n).0 j (pos 0) ≡ get_or log j (pos 0)
unfolding drop_acked
get_or-drop_absent ack [] log n j m = refl
get_or-drop_absent ack (i ∷ is) log n j m =
    let older = ltb_ℤ (get_or log i (pos 0)) ack in
    let ne : i ≢ j = λ e. ground (arith, ==_iff i j, e) in
    get_or-drop_absent ack is (if older then set log i (negsuc 0) else log)
      (if older then n else n + 1) j (ground arith)
    ∙ get_or-if_set older log i j (negsuc 0) ne

read-drop :
    (ack : ℤ) (is : List ℕ) (log : List ℤ) (n : ℕ)
    → length log ≡ 256
    → Nodup is
    → Below is
    → (read (drop_acked ack is log n).0 is ≡ map (cut ack) (read log is))
      × ((drop_acked ack is log n).1 ≡ count_from ack (read log is) n)
unfolding drop_acked
read-drop ack [] log n len d b = (refl, refl)
read-drop ack (i ∷ is) log n len d b =
    let older = ltb_ℤ (get_or log i (pos 0)) ack in
    let log' = if older then set log i (negsuc 0) else log in
    let n' = if older then n else n + 1 in
    let k = read-drop ack is log' n' (length-if_set older log i (negsuc 0) ∙ len) d.1 b.1 in
    let others = read-if_set older log is i (negsuc 0) d.0 in
    let head =
      get_or-drop_absent ack is log' n' i d.0
      ∙ get_or-if_set_self older log i (negsuc 0) (omega (arith, b.0, len)) in
    let tail = k.0 ∙ ap (map (cut ack)) others in
    ((λ t. head t ∷ tail t), k.1 ∙ ap (λ xs. count_from ack xs n') others)

-- On a connection whose log and index are in range, an SRT ACK strikes out every older number among
-- the last 255, and what is in flight is then the count of the entries that are not older.
pub view-srt_ack :
    (ack : ℤ) (c : Conn) → LogOk c → view (conn_register_srt_ack ack c) ≡ srt_ack ack (view c)
unfolding conn_register_srt_ack
view-srt_ack ack c l =
    let k =
      read-drop ack (slots c.pkt_idx) c.pkt_log 0 l.1 (slots-Nodup c.pkt_idx l.0)
        (slots-Below c.pkt_idx l.0) in
    λ t. record {
      recent = k.0 t;
      window = c.window;
      in_flight = k.1 t;
      heard = not (c.last_rcvd == 0);
    }
