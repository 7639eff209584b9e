-- ===== src/Conn/Session.antt =====
-- source/libs/protocols/udp_conn/src/udp_conn.c: udp_connection from its beginning, where the session
-- is opened, to the first round of its loop.
use quic_web_rtc_like.Base.{ℕ, ◌+◌, not, or_return, ◌==◌, if◌then◌else◌}
use quic_web_rtc_like.Sys.{Os, Outcome, returned}
use quic_web_rtc_like.Conn.{
  Status, err, not_init, tcp_bind_error, tcp_hp_error, connect_error, unknown_mode, is_error, Conn,
}
use quic_web_rtc_like.Conn.Api.{Api}
use quic_web_rtc_like.Conn.Phase.{Phase, stop, go, ◌>>=◌, settle, leave}
use quic_web_rtc_like.Conn.Tcp.{tcp_bind}
use quic_web_rtc_like.Conn.Loop.{ka_interval_us, monotonic_us, rounds}

module _ {D C : Type 0} (os : Os) (api : Api D C) where
  -- A step of the opening: its failure has a code of its own.
  abbrev pub or_code : Outcome Status × Conn D C → Status → Phase D C (Conn D C)
  or_code r s = settle r λ s' c. if is_error s' then stop (returned s) c else go c

  abbrev pub connect_phase : Conn D C → Phase D C (Conn D C)
  connect_phase c = let (s, c1) = api.connect c in or_code (returned s, c1) connect_error

  -- A client waits for its local connection first.
  unfoldable pub open_client : Conn D C → Phase D C (Conn D C)
  open_client c = do
    c1 ← or_code (tcp_bind os c) tcp_bind_error
    c2 ← or_code (api.hole_punching c1) tcp_hp_error
    connect_phase c2

  -- A server opens the path first.
  unfoldable pub open_server : Conn D C → Phase D C (Conn D C)
  open_server c = do
    c1 ← or_code (api.hole_punching c) tcp_hp_error
    c2 ← or_code (tcp_bind os c1) tcp_bind_error
    connect_phase c2

  unfoldable pub open_session : ℕ → Conn D C → Phase D C (Conn D C)
  open_session mode c =
      if mode == b'c'
      then open_client c
      else if mode == b's'
      then open_server c
      else stop (returned unknown_mode) c

  unfoldable pub udp_connection : ℕ → Conn D C → Outcome Status × Conn D C
  udp_connection fuel c =
      or_return c.udp_session (returned err, c)
        λ u.
          or_return c.ctrl (returned err, c)
            λ k.
              if not k.init
              then (returned not_init, c)
              else leave (do c1 ← open_session k.mode c; monotonic_us os api c1)
                  λ (now_us, c').
                    rounds os api fuel u
                      (record { conn = c'; threshold = 0; next_ka_us = now_us + ka_interval_us })
