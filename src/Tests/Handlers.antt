-- ===== src/Tests/Handlers.antt =====
-- The receiver's handlers on concrete packets.
use srtla.Base.{ℕ, ◌≡◌, refl, true, Option, some, List, [], ◌∷◌, ◌++◌, drop, pos}
use srtla.Connection.{Connection, new_connection}
use srtla.Float.{thousandths}
use srtla.Registry.{oldest_pending_group}
use srtla.Receiver.{start}
use srtla.Receiver.Quiet.{Valid}
use srtla.Receiver.Packet.{is_full, logged}
use srtla.Receiver.Packet.Acks.{log_all, log_all-tenth}
use srtla.Receiver.Loop.{Event, packets, srt_data, run}
use srtla.Receiver.Loop.Reachable.{run-Valid}
use srtla.Registry.Evict.{Evictable, oldest_pending_group_lem}
use srtla.Tests.{client, os, config, reg2, batch, nak_packet, waiting, running}

oldest_pending_group_lem_example :
    Evictable (running ∷ waiting ∷ []) (oldest_pending_group (running ∷ waiting ∷ []))
oldest_pending_group_lem_example = oldest_pending_group_lem (running ∷ waiting ∷ [])

abbrev fresh_conn : Connection
fresh_conn = new_connection 1 client 100

-- The client registers and sends, the server answers, and after a minute of silence all is cleaned up.
abbrev two_turns : List (List Event × Option ℕ)
two_turns =
    (packets (some batch) ∷ srt_data (drop 2 reg2) (pos 20) nak_packet ∷ [], some 100)
    ∷ ([], some 160)
    ∷ []

run-Valid_example : Valid (run os thousandths config two_turns start)
run-Valid_example = run-Valid os thousandths config two_turns

log_all-tenth_example :
    (is_full (log_all (1 ∷ 2 ∷ 3 ∷ 4 ∷ 5 ∷ 6 ∷ 7 ∷ 8 ∷ 9 ∷ []) fresh_conn) ≡ true)
    × ((logged 10 (log_all (1 ∷ 2 ∷ 3 ∷ 4 ∷ 5 ∷ 6 ∷ 7 ∷ 8 ∷ 9 ∷ []) fresh_conn)).recv_log
        ≡ (1 ∷ 2 ∷ 3 ∷ 4 ∷ 5 ∷ 6 ∷ 7 ∷ 8 ∷ 9 ∷ []) ++ 10 ∷ [])
    × ((logged 10 (log_all (1 ∷ 2 ∷ 3 ∷ 4 ∷ 5 ∷ 6 ∷ 7 ∷ 8 ∷ 9 ∷ []) fresh_conn)).recv_idx ≡ 0)
unfolding new_connection
log_all-tenth_example =
    log_all-tenth fresh_conn (1 ∷ 2 ∷ 3 ∷ 4 ∷ 5 ∷ 6 ∷ 7 ∷ 8 ∷ 9 ∷ []) 10 refl refl refl
