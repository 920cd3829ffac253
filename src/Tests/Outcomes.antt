-- ===== src/Tests/Outcomes.antt =====
-- What becomes of a group, on concrete calls.
use srtla.Base.{ℕ, ◌≡◌, refl, List, [], ◌∷◌, replicate, pos, negsuc, arith}
use srtla.AuthLimiter.{record_failure}
use srtla.Connection.{new_connection}
use srtla.Float.{thousandths}
use srtla.Group.{Group, new_group}
use srtla.Os.{Os}
use srtla.Registry.{remove_group}
use srtla.Wire.{is_srt_ack, is_srt_nak, is_srt_shutdown, is_srt_handshake_reject, get_srt_type}
use srtla.Receiver.{start}
use srtla.Receiver.Srt.{
  or_zero, failed_auth, handle_srt_data, forward_to_srt_server, ensure_group_socket,
}
use srtla.Receiver.Srt.Outcomes.{forward_to_srt_server-false, handle_srt_data-rejected}
use srtla.Receiver.{deref}
use srtla.Receiver.Cleanup.{cleanup_inactive}
use srtla.Receiver.Cleanup.Swept.{swept}
use srtla.Receiver.Cleanup.Alive.{cleanup_inactive-swept}
use srtla.Tests.{client, stranger, os, config, data_packet, running, with_group}

-- Every call fails.
abbrev broken : Os
broken = record os { ret = λ calls call. negsuc 0 }

abbrev connected : Group
connected = record running { srt_sock = pos 5 }

forward_to_srt_server-false_example :
    (forward_to_srt_server broken config running data_packet (with_group running)).1.groups
    ≡ remove_group (with_group running).groups running.handle
unfolding forward_to_srt_server ensure_group_socket new_group
forward_to_srt_server-false_example =
    forward_to_srt_server-false broken config running data_packet (with_group running) refl

-- The server closes before it has acknowledged anything.
abbrev shutdown : List ℕ
shutdown = 0x80 ∷ 0x05 ∷ replicate 14 0

handle_srt_data-rejected_example :
    ((handle_srt_data os config connected (pos 16) shutdown (with_group connected)).groups
      ≡ remove_group (with_group connected).groups connected.handle)
    × ((handle_srt_data os config connected (pos 16) shutdown (with_group connected)).entries
        ≡ (record_failure [] start.values client (or_zero os config (os.get_seconds []))).0)
unfolding failed_auth is_srt_ack is_srt_nak is_srt_shutdown is_srt_handshake_reject get_srt_type
    new_group
handle_srt_data-rejected_example =
    handle_srt_data-rejected os config connected 16 shutdown (with_group connected) (omega arith)
      refl refl

-- One connection that was heard of in time, and one that was not.
abbrev two_links : Group
two_links = record running {
  conns = new_connection 1 client 100 ∷ new_connection 2 stranger 120 ∷ [];
}

cleanup_inactive-swept_example :
    deref two_links.handle
      (cleanup_inactive os thousandths config 130 (with_group two_links)).groups
    ≡ swept 130 (deref two_links.handle (with_group two_links).groups)
unfolding deref
cleanup_inactive-swept_example =
    cleanup_inactive-swept os thousandths config 130 two_links.handle (with_group two_links)
      (refl, tt)
