-- ===== src/Tests/Starts.antt =====
-- A start of srtla_rec, as a witness.
use srtla.Base.{ℕ, ◌≡◌, ◌⊎◌, Option, none, some, List, [], ◌∷◌, ℤ, pos, drop}
use srtla.Exporter.Serve.{Kernel}
use srtla.Float.{thousandths}
use srtla.NetworkUtils
use srtla.Receiver.{start}
use srtla.Receiver.Loop.{Event, packets, srt_data, scrape, run}
use srtla.Receiver.Quiet.{Valid}
use srtla.Receiver.Setup
use srtla.Receiver.Setup.{Started, default_args, main}
use srtla.Receiver.Setup.Ready.{Ready, Failure, main-Valid}
use srtla.Tests.{client, os, batch, reg2, nak_packet}

-- The epoll is 3, the SRTLA socket 4; the SRT server answers the probe.
abbrev ret : List Setup.Call → Setup.Call → ℤ
ret calls k = elim k [ Setup.epoll_create1 ↦ pos 3 | Setup.socket family ↦ pos 4 | _ ↦ pos 0 ]

abbrev probe : List NetworkUtils.Call → NetworkUtils.Call → ℤ
probe calls k = elim k [
  | NetworkUtils.socket family ↦ pos 5
  | NetworkUtils.send fd buf ↦ pos 64
  | NetworkUtils.recv fd ↦ pos 64
  | _ ↦ pos 0
]

abbrev kernel : Kernel
kernel = record { ret = λ calls k. pos 0; errno = λ calls. 0; seconds = λ calls. none }

abbrev turns : List (List Event × Option ℕ)
turns =
    (packets (some batch) ∷ scrape ∷ srt_data (drop 2 reg2) (pos 20) nak_packet ∷ [], some 100)
    ∷ ([], some 160)
    ∷ []

main-Valid_example :
    ((s : Started) × Ready ret probe kernel (some (client ∷ [])) none (pos 0) default_args s
      × (main ret probe kernel (some (client ∷ [])) none (pos 0) os thousandths default_args turns
          ≡ some (run os thousandths s.config turns start))
      × Valid (run os thousandths s.config turns start))
    ⊎ (main ret probe kernel (some (client ∷ [])) none (pos 0) os thousandths default_args turns
        ≡ none)
      × Failure ret probe kernel (some (client ∷ [])) none (pos 0) default_args
main-Valid_example =
    main-Valid ret probe kernel (some (client ∷ [])) none (pos 0) os thousandths default_args turns
