-- ===== src/Tests.antt =====
-- Concrete addresses, packets and tables, for the examples of the children.
pub mod Handlers
pub mod Outcomes
pub mod Parts
pub mod Measures
pub mod Links
pub mod Scrapes
pub mod Starts
use srtla.Base.{
  ℕ, ◌≡◌, refl, sym, ◌∙◌, ap, subst, ◌<◌, inl, inr, true, false, Option, none, some, List, [], ◌∷◌,
  ◌++◌, replicate, length, ℤ, pos, negsuc, arith,
}
use srtla.Addr.{SockAddr, af_inet, zero_addr}
use srtla.Float.{Float, thousandths}
use srtla.Group.{Group, new_group}
use srtla.Connection.{Connection, ConnectionStats, initial_stats, new_connection}
use srtla.Os.{Os, willing}
use srtla.Receiver.{Receiver, start}
use srtla.Receiver.Quiet.{Valid}
use srtla.Receiver.Srt.{Config}
use srtla.Registry.{add_group}
use srtla.Registry.Lookup.{MemGroup, mem_cons, has_conn_at}
use srtla.Registry.Valid.{IsValid, GroupOk, empty-IsValid, add_group-IsValid}

-- 10.0.0.1 and 10.0.0.2, on the port 5000.
abbrev pub client : SockAddr
client = record { family = af_inet; port = 5000; sin_addr = 10 ∷ 0 ∷ 0 ∷ 1 ∷ []; sin6_addr = [] }

abbrev pub stranger : SockAddr
stranger = record client { sin_addr = 10 ∷ 0 ∷ 0 ∷ 2 ∷ [] }

-- The client again, on another port.
abbrev pub client_again : SockAddr
client_again = record client { port = 5001 }

abbrev pub os : Os
os = willing 100

abbrev pub config : Config
config = record { srt_addr = record client { port = 4001 }; epoll_fd = pos 3 }

abbrev pub reg1 : List ℕ
reg1 = 0x92 ∷ 0x00 ∷ replicate 256 7

-- The id that the receiver makes where every random byte is 0.
abbrev pub reg2 : List ℕ
reg2 = 0x92 ∷ 0x01 ∷ replicate 128 7 ++ replicate 128 0

abbrev pub data_packet : List ℕ
data_packet = 0 ∷ 0 ∷ 0 ∷ 5 ∷ replicate 12 1

abbrev pub nak_packet : List ℕ
nak_packet = 0x80 ∷ 0x03 ∷ replicate 14 0 ++ 0 ∷ 0 ∷ 0 ∷ 9 ∷ []

abbrev pub keepalive : List ℕ
keepalive = 0x90 ∷ 0x00 ∷ []

abbrev pub batch : List (SockAddr × List ℕ)
batch =
    (client, reg1)
    ∷ (client, reg2)
    ∷ (client, data_packet)
    ∷ (client, nak_packet)
    ∷ (client, nak_packet)
    ∷ (client, keepalive)
    ∷ (stranger, data_packet)
    ∷ []

-- A group that the client has registered, before any connection.
abbrev pub waiting : Group
waiting = record (new_group 0 (replicate 256 7) [] 100) { last_addr = client }

-- A group with a connection and data.
abbrev pub running : Group
running = record waiting { conns = new_connection 1 client 100 ∷ []; data_seen = true }

abbrev pub with_group : Group → Receiver
with_group g = record start { groups = g ∷ []; next = 2 }

pub start-Valid : Valid start
start-Valid = empty-IsValid 0

-- A table of one group is valid, if the group is sound.
only : (g h : Group) → MemGroup h (g ∷ []) → h ≡ g
only g h m = elim (mem_cons h g [] m) [ inl e ↦ e | inr k ↦ elim k [ ] ]

pub with_group-Valid : (g : Group) → GroupOk g → g.handle ≡ 0 → Valid (with_group g)
with_group-Valid g okay first = record {
  few = omega arith;
  groups_ok = λ h m. subst GroupOk (sym (only g h m)) okay;
  fresh = λ h m. subst (λ x. x.handle < 2) (sym (only g h m)) (omega (arith, first));
  unique = λ h k m n e. only g h m ∙ sym (only g k n);
  exclusive = λ h k m n e a p. absurd (e (ap (λ x. x.handle) (only g h m ∙ sym (only g k n))));
}

pub waiting-GroupOk : GroupOk waiting
unfolding new_group
waiting-GroupOk = record { few = omega arith; apart = tt; logs = tt; closed = λ e. refl }

pub running-GroupOk : GroupOk running
unfolding new_group new_connection has_conn_at
running-GroupOk = record {
  few = omega arith;
  apart = (refl, tt);
  logs = ((omega arith, refl), tt);
  closed = λ e. refl;
}

pub waiting-first : waiting.handle ≡ 0
unfolding new_group
waiting-first = refl

pub running-first : running.handle ≡ 0
unfolding new_group
running-first = refl
