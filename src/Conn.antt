-- ===== src/Conn.antt =====
-- source/libs/protocols/udp_conn/inc/udp_conn.h: the status codes and the connection that every
-- protocol shares.
pub mod Api
pub mod Phase
pub mod Tcp
pub mod Loop
pub mod Session
pub mod Ending
pub mod Written
pub mod Wait
mod Tests
pub mod Kept
pub mod Local
pub mod Rounds
pub mod Keeps
pub mod Relay
pub mod Relayed
pub mod Upload
pub mod Uploaded
use quic_web_rtc_like.Base.{Bytes, ◌∷◌, ℕ, Bool, Option, ℤ, pos, negsuc, ltb_ℤ, eqb_ℤ, not}
use quic_web_rtc_like.Sys.{Addr, Trace, Os, Call, Ret, Input, notified, perform, receive}

-- `udp_conn_status_t`
pub data Status : Type 0 where
  not_applicable with_tcp_tunneling without_tcp_tunneling not_closed : Status
  ok err already_init not_init tcp_bind_error tcp_hp_error connect_error : Status
  unknown_mode closed ok_truncated : Status

-- The value of each enumerator.
abbrev pub code : Status → ℤ
code Status.not_applicable = pos 4
code Status.with_tcp_tunneling = pos 3
code Status.without_tcp_tunneling = pos 2
code Status.not_closed = pos 1
code Status.ok = pos 0
code Status.err = negsuc 0
code Status.already_init = negsuc 1
code Status.not_init = negsuc 2
code Status.tcp_bind_error = negsuc 3
code Status.tcp_hp_error = negsuc 4
code Status.connect_error = negsuc 5
code Status.unknown_mode = negsuc 6
code Status.closed = negsuc 7
code Status.ok_truncated = negsuc 8

-- `status < 0`
abbrev pub is_error : Status → Bool
is_error s = ltb_ℤ (code s) (pos 0)

-- `if (status)`
abbrev pub is_set : Status → Bool
is_set s = not (eqb_ℤ (code s) (pos 0))

-- `udp_session_t`
pub record UdpSession : Type 0 where
  pub socket_fd : ℤ
  pub ka_miss_threshold : ℤ
  pub dst : Addr
  pub src : Addr

-- `tcp_session_t`
pub record TcpSession : Type 0 where
  pub socket_fd : ℤ
  pub accepted_sock : ℤ
  pub reuse : ℤ
  pub local : Addr

-- `udp_conn_ctrl_t`; `read_fds` is rebuilt before each `select`, so it is no state.
pub record Ctrl : Type 0 where
  pub mode : ℕ
  pub init : Bool

-- `udp_conn_t`: `none` is NULL. `D` and `C` are the protocol's data and configuration.
pub record Conn (D C : Type 0) : Type 0 where
  pub udp_session : Option UdpSession
  pub tcp_session : Option TcpSession
  pub ctrl : Option Ctrl
  pub config : Option C
  pub data_ptr : Option D
  -- whether `udp_conn_callback` is not NULL
  pub has_callback : Bool
  pub trace : Trace

module _ {D C : Type 0} where
  -- A system call by a function that holds the connection.
  abbrev pub call : Os → Call → Conn D C → Ret × Conn D C
  call os k c = let (r, t) = perform os k c.trace in (r, record c { trace = t })

  -- A call whose result the code ignores.
  abbrev pub run : Os → Call → Conn D C → Conn D C
  run os k c = (call os k c).1

  abbrev pub receive_on : Os → ℤ → ℕ → Conn D C → Input × Conn D C
  receive_on os fd n c = let (i, t) = receive os fd n c.trace in (i, record c { trace = t })

  -- The application's callback gets the connection, and may call the API with it.
  abbrev pub notify : (ℕ → Bytes → Conn D C → Conn D C) → ℕ → Bytes → Conn D C → Conn D C
  notify callback reason bytes c =
      callback reason bytes (record c { trace = notified reason bytes ∷ c.trace })
