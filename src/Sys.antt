-- ===== src/Sys.antt =====
-- The operating system as the program sees it. Nothing of it is implemented here: `Os` is a
-- parameter of every definition that makes a system call. Each answer is a function of the whole
-- history, so a statement about every `Os` is one about every behaviour of network and kernel.
-- The history, newest event first, is also the record of what the program did.
pub mod Tls
use quic_web_rtc_like.Base.{
  ℕ, Bool, true, false, Option, List, [], ◌∷◌, ◌||◌, eqb_ℤ, Bytes, ℤ, ◌≡◌, refl, ◌⊎◌, inl, inr,
}
use quic_web_rtc_like.Sys.Tls.{TlsCall}

pub data Errno : Type 0 where
  eintr : Errno
  -- EAGAIN and EWOULDBLOCK, which the program never tells apart
  again : Errno
  other : ℕ → Errno

-- The `int` or `ssize_t` of a call: a number from 0 on, or -1 with `errno`.
pub data Ret : Type 0 where
  ret : ℕ → Ret
  fail : Errno → Ret

-- `r < 0`
abbrev pub failed : Ret → Bool
failed (ret n) = false
failed (fail e) = true

-- What a read of a socket gives: the bytes written to the buffer.
pub data Input : Type 0 where
  got : Bytes → Input
  no_input : Errno → Input

-- `struct sockaddr_in`, its fields as the program stores them.
pub record Addr : Type 0 where
  pub sin_family : ℕ
  pub sin_port : ℕ
  pub sin_addr : ℕ

-- The options that the program sets; timeouts in seconds.
pub data SockOpt : Type 0 where
  rcv_timeout : ℤ → SockOpt
  reuse_addr : ℤ → SockOpt

-- The calls that return a number.
pub data Call : Type 0 where
  socket : Call
  close : ℤ → Call
  set_sock_opt : ℤ → SockOpt → Call
  bind : ℤ → Addr → Call
  listen : ℤ → ℕ → Call
  accept : ℤ → Call
  connect : ℤ → Addr → Call
  send_to : ℤ → Bytes → Addr → Call
  send : ℤ → Bytes → Call

-- `struct timeval`
pub record Timeval : Type 0 where
  pub tv_sec : ℕ
  pub tv_usec : ℕ

-- What `select` gives: the descriptors that are readable, none at a timeout; or an error.
pub data Selected : Type 0 where
  ready : List ℤ → Selected
  not_ready : Errno → Selected

-- `FD_ISSET`
abbrev pub is_in : ℤ → List ℤ → Bool
is_in fd [] = false
is_in fd (x ∷ xs) = eqb_ℤ fd x || is_in fd xs

pub data Event : Type 0 where
  did : Call → Ret → Event
  -- a question about a descriptor that changes nothing: its type, its name
  asked : ℤ → Event
  -- a wait for some descriptors, without end where the timeout is `none`
  waited : List ℤ → Option Timeval → Selected → Event
  -- a reading of the monotonic clock
  clocked : Event
  -- a read of at most so many bytes from a descriptor
  read : ℤ → ℕ → Input → Event
  -- a call of the application's callback
  notified : ℕ → Bytes → Event
  -- a call of OpenSSL
  tls : TlsCall → Event

abbrev pub Trace : Type 0
Trace = List Event

pub record Os : Type 0 where
  pub answer : Trace → Call → Ret
  pub input : Trace → ℤ → ℕ → Input
  -- `recvmsg`, with whether MSG_TRUNC was set
  pub message : Trace → ℤ → ℕ → Input × Bool
  pub sock_type : Trace → ℤ → Option ℕ
  pub sock_name : Trace → ℤ → Option Addr
  pub select : Trace → List ℤ → Option Timeval → Selected
  -- `clock_gettime(CLOCK_MONOTONIC)`: seconds and nanoseconds
  pub clock : Trace → Option (ℕ × ℕ)
  -- constants of the system's headers
  pub fd_setsize : ℕ
  pub af_inet : ℕ
  pub sock_dgram : ℕ
  -- the content of an array on the stack before it is written
  pub garbage : Trace → Bytes

-- What the program ends a call with: a value, `exit()`, or, in the model of a loop that has no
-- bound of its own, a fuel that did not suffice.
pub data Outcome (A : Type 0) : Type 0 where
  returned : A → Outcome A
  exited : Outcome A
  out_of_fuel : Outcome A

-- A call, and the history with it.
abbrev pub perform : Os → Call → Trace → Ret × Trace
perform os c t = let r : Ret = os.answer t c in (r, did c r ∷ t)

abbrev pub receive : Os → ℤ → ℕ → Trace → Input × Trace
receive os fd n t = let i : Input = os.input t fd n in (i, read fd n i ∷ t)

-- To split on what a read gave and keep the equation.
pub Input-cases : (i : Input) → ((b : Bytes) × (i ≡ got b)) ⊎ ((e : Errno) × (i ≡ no_input e))
Input-cases (got b) = inl (b, refl)
Input-cases (no_input e) = inr (e, refl)

pub Selected-cases :
    (s : Selected) → ((fds : List ℤ) × (s ≡ ready fds)) ⊎ ((e : Errno) × (s ≡ not_ready e))
Selected-cases (ready fds) = inl (fds, refl)
Selected-cases (not_ready e) = inr (e, refl)

pub Ret-cases : (r : Ret) → ((n : ℕ) × (r ≡ ret n)) ⊎ ((e : Errno) × (r ≡ fail e))
Ret-cases (ret n) = inl (n, refl)
Ret-cases (fail e) = inr (e, refl)

pub Outcome-cases :
    {A : Type 0} (o : Outcome A) → ((a : A) × (o ≡ returned a)) ⊎ ((o ≡ exited) ⊎ (o ≡ out_of_fuel))
Outcome-cases (returned a) = inl (a, refl)
Outcome-cases exited = inr (inl refl)
Outcome-cases out_of_fuel = inr (inr refl)
