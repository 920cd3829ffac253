-- ===== src/Os.antt =====
-- The operating system as the receiver meets it: every call that it makes, and what comes back.
-- Nothing is assumed of the results; each may depend on all the calls made so far.
use srtla.Base.{ℕ, List, [], Option, some, ℤ, pos}
use srtla.Base.{length}
use srtla.Addr.{SockAddr}

pub data Syscall : Type 0 where
  -- On the SRTLA socket.
  sendto : SockAddr → List ℕ → Syscall
  sendmmsg : List SockAddr → List ℕ → Syscall
  -- On a group's socket towards the SRT server.
  send : ℤ → List ℕ → Syscall
  socket : ℕ → Syscall
  set_rcvbuf set_sndbuf get_flags set_nonblock : ℤ → Syscall
  connect : ℤ → SockAddr → Syscall
  epoll_add : ℤ → ℕ → Syscall
  epoll_del close : ℤ → Syscall
  -- The file that lists a group's addresses, named after the local port of its socket.
  write_info : ℤ → List SockAddr → Syscall
  remove_info : ℤ → Syscall

-- The calls made, the newest first, come before the call in question.
pub record Os : Type 0 where
  pub ret : List Syscall → Syscall → ℤ
  pub errno : List Syscall → ℕ
  -- CLOCK_MONOTONIC_COARSE in seconds and in milliseconds, `none` where clock_gettime fails.
  pub get_seconds : List Syscall → Option ℕ
  pub get_ms : List Syscall → Option ℕ
  pub random : List Syscall → List ℕ

-- Sends go through whole, other calls return 0, sockets are numbered 5, and the clock stands.
abbrev pub willing : ℕ → Os
willing seconds = record {
  ret = λ calls call. elim call [
    | sendto a buf ↦ pos (length buf)
    | sendmmsg addrs buf ↦ pos (length addrs)
    | send s buf ↦ pos (length buf)
    | socket f ↦ pos 5
    | _ ↦ pos 0
  ];
  errno = λ calls. 0;
  get_seconds = λ calls. some seconds;
  get_ms = λ calls. some 1000;
  random = λ calls. [];
}
