-- ===== src/Sender/Log/View.antt =====
-- The packet log of src/sender.cpp as what it stands for: the last 255 sequence numbers, the
-- newest first, where -1 takes the place of one that has been answered; and what a NAK and an ACK
-- mean on that.
use mathlib.Core.Option.{map as map_option}
use srtla.Base.{
  ℕ, ◌+◌, ◌-◌, ◌*◌, ◌<◌, max, min, ◌≡◌, Bool, not, Option, none, some, List, [], ◌∷◌, map, length,
  take, get_or, ltb, ◌==◌, if◌then◌else◌, ℤ, pos, negsuc, ltb_ℤ, eqb_ℤ,
}
use srtla.Sender.{Conn}
use srtla.Sender.Log.{slots}

abbrev pub read : List ℤ → List ℕ → List ℤ
read log [] = []
read log (i ∷ is) = get_or log i (pos 0) ∷ read log is

-- What the program knows of a connection's packets: those logged, its window, the number in
-- flight, and whether it has heard from the receiver.
pub record View : Type 0 where
  pub recent : List ℤ
  pub window : ℕ
  pub in_flight : ℕ
  pub heard : Bool

abbrev pub view : Conn → View
view c = record {
  recent = read c.pkt_log (slots c.pkt_idx);
  window = c.window;
  in_flight = c.in_flight_pkts;
  heard = not (c.last_rcvd == 0);
}

abbrev pub views : List Conn → List View
views [] = []
views (c ∷ cs) = view c ∷ views cs

-- The specification. A packet that is sent comes first, and the oldest is forgotten.
abbrev pub sent : ℕ → View → View
sent sn v = record v { recent = pos sn ∷ take 254 v.recent; in_flight = v.in_flight + 1 }

-- The newest entry with this number is struck out; `none` if there is none.
abbrev pub strike : ℤ → List ℤ → Option (List ℤ)
strike p [] = none
strike p (x ∷ xs) =
    if eqb_ℤ x p then some (negsuc 0 ∷ xs) else map_option (λ r. x ∷ r) (strike p xs)

abbrev pub lost : View → List ℤ → View
lost v r = record v { recent = r; window = max (v.window - 100) 1000 }

-- The first connection that has logged the packet pays for its loss.
abbrev pub nak_at : Option (List ℤ) → View → List View → List View → List View
nak_at none v vs rest = v ∷ rest
nak_at (some r) v vs rest = lost v r ∷ vs

abbrev pub nak : ℤ → List View → List View
nak p [] = []
nak p (v ∷ vs) = nak_at (strike p v.recent) v vs (nak p vs)

abbrev pub acked : View → List ℤ → View
acked v r = record v {
  recent = r;
  in_flight = v.in_flight - 1;
  window = if ltb v.window ((v.in_flight - 1) * 1000) then v.window + 29 else v.window;
}

abbrev pub grown : View → View
grown v = if v.heard then record v { window = min (v.window + 1) 60000 } else v

-- The first connection that has logged the packet is credited; all that are heard from grow.
abbrev pub ack_at : Option (List ℤ) → View → List View → List View → List View
ack_at none v vs rest = grown v ∷ rest
ack_at (some r) v vs rest = grown (acked v r) ∷ map grown vs

abbrev pub srtla_ack : ℤ → List View → List View
srtla_ack p [] = []
srtla_ack p (v ∷ vs) = ack_at (strike p v.recent) v vs (srtla_ack p vs)

-- Older numbers are struck out, and what is left is counted.
abbrev pub cut : ℤ → ℤ → ℤ
cut ack x = if ltb_ℤ x ack then negsuc 0 else x

abbrev pub count_from : ℤ → List ℤ → ℕ → ℕ
count_from ack [] n = n
count_from ack (x ∷ xs) n = count_from ack xs (if ltb_ℤ x ack then n else n + 1)

abbrev pub srt_ack : ℤ → View → View
srt_ack ack v = record v { recent = map (cut ack) v.recent; in_flight = count_from ack v.recent 0 }

-- The connection's log and its index are in range.
abbrev pub LogOk : Conn → Type 0
LogOk c = (c.pkt_idx < 256) × (length c.pkt_log ≡ 256)

abbrev pub LogsOk : List Conn → Type 0
LogsOk [] = Unit {0}
LogsOk (c ∷ cs) = LogOk c × LogsOk cs
