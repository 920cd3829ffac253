-- ===== src/Lib.antt =====
-- srtla, the bonding proxy for SRT: what the receiver srtla_rec and the sender srtla_send do, and
-- why it is right.
--
-- The receiver takes packets that a client sends over several links (connections), joined in a
-- group by a handshake (REG1 makes a group, REG2 adds a connection), and forwards them to an SRT
-- server on one socket for each group; what the server answers goes back to the client. A registry
-- holds the groups; every handler finds its group there and changes it through a pointer. The
-- quality evaluator and the load balancer rate the connections from time to time, a cleanup drops
-- what has timed out, and a limiter blocks addresses whose streams the server has rejected.
--
-- The sender takes SRT packets from one caller and sends each on the connection with the best
-- score, its window by the packets in flight. A ring of 256 slots for each connection logs what went
-- out; NAKs of the SRT server and ACKs of both protocols are looked up there. A housekeeping every
-- second reopens sockets, repeats the handshake and sends keepalives; SIGHUP has the list of source
-- addresses read again.
--
-- Files and code:
--   Base         shared names, and lemmas on lists, association lists, bits and Booleans
--   Wire         src/common.h and common.c: packet classes, the extended keepalive
--   Addr         Print: print_addr, port_no and parse_port of src/common.c. Compare: the comparison of
--                addresses in src/connection/connection_registry.cpp, with constant_time_compare
--                of src/utils/network_utils.cpp
--   Metrics      the counters of src/metrics/prometheus.cpp
--   Exporter     the exporter of src/metrics/prometheus.cpp: Table and the text of a scrape; Scrape, how
--                a client reads it; Serve, the sockets from start to the destructor
--   Text         texts as bytes, printed numbers and their reader
--   NetworkUtils the probe of the SRT server in src/utils/network_utils.cpp; Random, the random bytes
--                read by it and by src/sender.cpp
--   NakDedup     src/utils/nak_dedup.cpp
--   AuthLimiter  src/utils/auth_rate_limiter.cpp
--   Connection   src/connection/connection.cpp, ConnectionStats of src/receiver_config.h and
--                src/quality/metrics_collector.cpp
--   Group        src/connection/connection_group.cpp; InfoFile, the socket info file
--   Float        the floating-point numbers, a parameter
--   Quality      src/quality/quality_evaluator.cpp
--   LoadBalancer src/quality/load_balancer.cpp
--   Registry     src/connection/connection_registry.cpp; Valid says when a table of groups is sound
--   Clock        get_seconds and get_ms of src/common.c
--   Os           the system calls, a parameter
--   Receiver     the state of srtla_rec. Register and Packet: src/protocol/srtla_handler.cpp. Srt:
--                src/protocol/srt_handler.cpp. Cleanup: cleanup_inactive. Setup and Loop: main of
--                src/receiver_main.cpp
--   Sender       src/sender.cpp: the state of srtla_send. Log: the packet log (View: what it stands
--                for). Select: select_conn and handle_srt_data. Receive: handle_srtla_data. Conns:
--                setup_conns, update_conns and the sockets. Housekeeping: connection_housekeeping.
--                Loop: main. Valid says when the state is sound
--   Exchange     a sender and a receiver together
--   Tests        the theorems at concrete inputs
--
-- A definition has the name of the function that it models; a function with many steps is split
-- into definitions that it unfolds. A handler takes the receiver's state and returns the new one.
-- What the operating system does is a record `Os` whose fields give the result of each call from
-- the calls made before it; nothing is assumed of them. The calls are kept in the state, the newest
-- first, so that what is sent, and where, is part of the model.
--
-- An object behind a shared pointer is a value with an identity, its `handle`. A handler works on
-- its copy, and `put_group` writes it back to the entry of that identity. Bytes are numbers below
-- 256; the unsigned counters wrap as they do in the source; times are natural numbers, seconds of
-- the monotonic clock or milliseconds. Loops go over lists, so that there is no fuel, but for the one
-- over the packet log: its header gives a list of indices with fuel 256, which is enough.
--
-- The sender's calls of the operating system get their results from a function of the calls
-- before them; clock readings, packets and the file come with each round of the main loop. Its
-- `int` counters in_flight_pkts and window are natural numbers, since neither goes below 0, and
-- are not bounded above: the model stands for runs in which they stay below 2^31. The product of
-- in_flight_pkts with WINDOW_MULT, which overflows sooner, is taken modulo 2^32; the theorem
-- that needs it has 2147484 packets in flight at most. `Result` says that the program goes on,
-- has called exit, or that C++ leaves its behaviour undefined: the end of a range in a NAK, 2^31
-- - 1 or more, that overflows the int32_t counter, or is read past the buffer. Where get_seconds
-- fails in handle_srtla_data, its variable holds any value.
--
-- In the exporter two loops have fuel, the one over accept4 and the one over send: one round more than
-- clients, and one more than the bytes of a response and the interruptions, are enough. A number is
-- printed with 20 digits at most, which is enough for 64 bits. Its event changes nothing that the main
-- loop keeps; in the main loop it stands for itself.
--
-- The socket info file of a group is one call with the list of addresses; its name and contents are
-- in Group/InfoFile. DropLog has the times and the counts of the lines that log_forward_drop logs.
--
-- Not modelled: the other log lines, and the parsing of arguments, which is a library's. Memory is
-- not modelled: an event of the main loop carries the id of its group, while the source reads the id
-- through a pointer.
pub mod Base
pub mod Wire
pub mod Addr
pub mod Metrics
pub mod NetworkUtils
pub mod NakDedup
pub mod AuthLimiter
pub mod Connection
pub mod Group
pub mod Float
pub mod Quality
pub mod LoadBalancer
pub mod Registry
pub mod Os
pub mod Receiver
pub mod Text
pub mod Clock
pub mod Exporter
pub mod Sender
pub mod Exchange
pub mod Tests
