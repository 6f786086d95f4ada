-- ===== src/Calls.antt =====
-- The calls of the operating system that set the program up. The system is a parameter: what it answers to
-- a call after those before it.
use real_time_cr.Prelude.{ltb, length, ◌==◌, if◌then◌else◌, ℕ, ◌-◌, ◌^◌, Bool, List, [], ◌∷◌, ◌++◌}
use real_time_cr.Words.{lt32}

pub data SocketOption : Type 0 where
  so_linger so_reuseaddr so_sndbuf so_rcvbuf tcp_nodelay ip_add_membership : SocketOption

pub data Call : Type 0 where
  ftok : (path : List ℕ) → Call
  shmget shmat : Call
  shmget_excl shmctl : Call
  sched_setaffinity : (core : ℕ) → Call
  socket : Call
  setsockopt : (fd : ℕ) → SocketOption → Call
  ioctl_fionbio : (fd : ℕ) → Call
  bind : (fd port : ℕ) → Call
  close : (fd : ℕ) → Call

-- The calls so far, each with its result, an `int` or an address as a bit pattern.
abbrev pub Trace : Type 0
Trace = List (Call × ℕ)

abbrev pub Os : Type 0
Os = Trace → Call → ℕ

abbrev pub recorded : Os → Call → Trace → Trace
recorded os c t = t ++ ((c, os t c) ∷ [])

-- The tests `< 0` and `== -1`.
abbrev pub is_negative : ℕ → Bool
is_negative r = lt32 r 0

abbrev pub system_call_error : ℕ
system_call_error = 2 ^ 32 - 1

-- What the constructors of shmQueue.h make of the path, an array of 1024 bytes: `assert` ends the program, for
-- the build does not define NDEBUG; `strncpy` leaves no zero behind 1024 bytes, and `ftok` reads past the
-- end of the array; or the path is there as it is.
pub data KeyFile : Type 0 where
  too_long unterminated copied : KeyFile

unfoldable pub key_file : (path : List ℕ) → KeyFile
key_file path =
    if ltb 1024 (length path)
    then too_long
    else if length path == 1024
    then unterminated
    else copied

-- The sockets that have been opened and not closed, the last one first.
abbrev pub without : ℕ → List ℕ → List ℕ
without fd [] = []
without fd (x ∷ xs) = if fd == x then xs else x ∷ without fd xs

abbrev pub after_call : Call → ℕ → List ℕ → List ℕ
after_call socket r open_fds = if is_negative r then open_fds else r ∷ open_fds
after_call (close fd) r open_fds = without fd open_fds
after_call _ r open_fds = open_fds

abbrev pub open_sockets : List ℕ → Trace → List ℕ
open_sockets open_fds [] = open_fds
open_sockets open_fds ((c, r) ∷ t) = open_sockets (after_call c r open_fds) t
