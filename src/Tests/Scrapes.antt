-- ===== src/Tests/Scrapes.antt =====
-- The theorems on the exporter and on printed ports at concrete inputs.
use srtla.Base.{
  ℕ, zero, suc, ◌+◌, ◌%◌, ◌^◌, ◌≤◌, ◌<◌, ◌≡◌, refl, true, false, ◌||◌, Bool, none, some, List, [],
  ◌∷◌, ◌==◌, ltb, leb, Bool-cases, inl, inr, if◌then◌else◌, ℤ, pos, negsuc, length, take, replicate,
  arith, ◌⊎◌, any,
}
use srtla.Addr.Print.{parse_port}
use srtla.Addr.Print.Ports.{parse_port-to_string}
use srtla.Connection.{new_connection}
use srtla.Exporter.{Exporter, Platform, render, established, connections}
use srtla.Exporter.Counters.{named, series, named-render}
use srtla.Exporter.Families.{formed, formed-render}
use srtla.Exporter.Items.{IsPlain, InRange}
use srtla.Exporter.Scrape.{read_lines}
use srtla.AuthLimiter.{blocked_count}
use srtla.Exporter.Serve.{
  Call, accept4, send, socket, Kernel, response, handle_event, start, new_exporter, destroy,
}
use srtla.Exporter.Serve.Clients.{Served, handle_event-Served}
use srtla.Exporter.Serve.Http.{read_response, read_response-response}
use srtla.Exporter.Serve.Life.{serve_events, exporter-closes}
use srtla.Exporter.Serve.Deliveries.{deliveries, gives, interruptions, open_sockets, Sane}
use srtla.Exporter.Serve.Start.{Listening, Silent, start-settles}
use srtla.Exporter.Table.{k_conn_defs}
use srtla.Group.{new_group}
use srtla.Metrics.{packets_received, value}
use srtla.Tests.{client, with_group, running}
use srtla.Text.{Text, codes, has, to_string, to_string_ℤ}

abbrev platform : Platform
platform = record {
  version = codes "1.0.0";
  inet_ntop = λ family addr. codes "10.0.0.1";
  getsockname = λ fd. none;
}

abbrev detailed : Exporter
detailed = record { listen_fd = pos 5; detailed = true; start_time = pos 1700000000 }

platform-IsPlain : IsPlain platform
unfolding has any
platform-IsPlain = record { version = (refl, refl); inet_ntop = λ family addr. (refl, refl) }

value-replicate : (n i : ℕ) → value (replicate n 0) i ≡ 0
unfolding value
value-replicate zero i = refl
value-replicate (suc n) zero = refl
value-replicate (suc n) (suc i) = value-replicate n i

running-InRange : InRange platform detailed (with_group running) 103
unfolding k_conn_defs new_group new_connection established connections blocked_count
running-InRange = record {
  counters = λ i. omega (arith, value-replicate 33 i);
  counted = record {
    start_time = omega arith;
    groups = omega arith;
    established = omega arith;
    connections = omega arith;
    blocked = omega arith;
  };
  detail = omega arith;
}

named-render_example :
    named (series packets_received) (read_lines (render platform detailed (with_group running) 103))
    ≡ some (pos (value (with_group running).values packets_received)) ∷ []
named-render_example =
    named-render platform detailed (with_group running) 103 packets_received (omega arith)
      platform-IsPlain running-InRange

formed-render_example :
    formed [] [] (read_lines (render platform detailed (with_group running) 103)) ≡ true
formed-render_example =
    formed-render platform detailed (with_group running) 103 platform-IsPlain running-InRange

read_response-response_example :
    read_response (take 40 (response (codes "x 1\n")))
    ≡ (if leb (length (response (codes "x 1\n"))) 40 then some (codes "x 1\n") else none)
read_response-response_example = read_response-response (codes "x 1\n") 40 (omega arith)

-- One client comes, and takes all that it is sent.
abbrev has_accept : List Call → Bool
has_accept [] = false
has_accept (accept4 fd ∷ calls) = true
has_accept (_ ∷ calls) = has_accept calls

abbrev once : Kernel
once = record {
  ret = λ calls call. elim call [
    | accept4 fd ↦ if has_accept calls then negsuc 0 else pos 7
    | send fd t ↦ pos (length t)
    | socket domain ↦ pos 5
    | _ ↦ pos 0
  ];
  errno = λ calls. 11;
  seconds = λ calls. some 103;
}

length-gives : (fd : ℤ) (t : Text) (ds : List (ℤ × Text)) → length (gives once fd t ds) ≡ length ds
length-gives fd t [] = refl
length-gives fd t ((client, d) ∷ ds) = ground (arith, length-gives fd t ds)

few_clients :
    (before : List Call) → length (deliveries once before) ≤ (if has_accept before then 1 else 0)
few_clients [] = omega arith
few_clients (accept4 fd ∷ calls) = let h = few_clients calls in ground (arith, h)
few_clients (send fd t ∷ calls) =
    let h = few_clients calls in
    let g = length-gives fd (take (length t) t) (deliveries once calls) in omega arith
few_clients (_ ∷ calls) = few_clients calls

once-Sane : Sane once 0
once-Sane = record { fits = λ calls fd t. omega arith; interrupted = never }
  where
    never : (calls : List Call) → interruptions once calls ≤ 0
    never [] = omega arith
    never (send fd t ∷ calls) = let h = never calls in ground (arith, h)
    never (_ ∷ calls) = never calls

few_default : (before : List Call) → length (deliveries once before) ≤ 1
few_default before = elim (Bool-cases (has_accept before)) [
  | inl e ↦ let h = few_clients before in ground (arith, e, h)
  | inr e ↦ let h = few_clients before in ground (arith, e, h)
]

abbrev plain : Exporter
plain = record detailed { detailed = false }

small :
    (e : Exporter)
    → e.detailed ≡ false
    → e.start_time ≡ pos 1700000000
    → (now : ℕ) → length (response (render platform e (with_group running) now)) + 0 < 8000
unfolding render response established connections blocked_count new_group to_string to_string_ℤ
    value
small e off began now = rw (off, began) (omega arith)

handle_event-Served_example :
    (now : ℕ) × (after : List Call) × (handle_event once platform 2 8000 plain
        (with_group running)
        []
      ≡ some after)
    × Served once (render platform plain (with_group running) now) [] after
handle_event-Served_example =
    handle_event-Served once platform plain (with_group running) [] 0 1 8000 once-Sane few_default
      (small plain refl refl)

start-settles_example :
    Listening once
      (pos 3)
      []
      (start once (some client) (pos 1700000000) 9100 (pos 3) false new_exporter [])
    ⊎ Silent once [] (start once (some client) (pos 1700000000) 9100 (pos 3) false new_exporter [])
start-settles_example =
    start-settles once (some client) (pos 1700000000) 9100 (pos 3) false new_exporter [] refl

abbrev started : Bool × Exporter × List Call
started = start once (some client) (pos 1700000000) 9100 (pos 3) false new_exporter []

exporter-closes_example :
    (after : List Call) × (serve_events once platform 1 8000 started.1
        (with_group running ∷ [])
        started.2
      ≡ some after)
    × (open_sockets once (destroy started.1 after) ≡ [])
unfolding start
exporter-closes_example =
    exporter-closes once platform 0 1 8000 once-Sane few_default (some client) (pos 1700000000) 9100
      (pos 3) false (with_group running ∷ []) [] (small started.1 refl refl, tt)

parse_port-to_string_example :
    let m = 4294972296 % 2 ^ 32 in
    parse_port (to_string 4294972296) ≡ (if m == 0 || ltb 65535 m then negsuc 1 else pos m)
parse_port-to_string_example = parse_port-to_string 4294972296 (omega arith)
