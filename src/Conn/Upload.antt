-- ===== src/Conn/Upload.antt =====
-- What a protocol under `udp_connection` promises of the way from the local end to the peer.
use quic_web_rtc_like.Base.{◌≡◌, true, ℕ, Option, some, Bytes, ◌++◌, if◌then◌else◌}
use quic_web_rtc_like.Sys.{Trace, Outcome, returned}
use quic_web_rtc_like.Conn.{Status, is_error, TcpSession, Conn}
use quic_web_rtc_like.Conn.Api.{Api, closes}
use quic_web_rtc_like.Conn.Relay.{told, taken}

module _ {D C : Type 0} (Ready : Conn D C → Type 0) (reason : ℕ) (api : Api D C) where
  -- What was sent, and what the local end had sent.
  abbrev pub carried : Conn D C → Bytes × Bytes
  carried c = (told reason c.trace, taken c.trace)

  -- From the first connection to the second nothing is carried and nothing is freed.
  abbrev pub Steady : Conn D C → Conn D C → Type 0
  Steady c c1 = (carried c1 ≡ carried c) × (Ready c → Ready c1)

  -- And a closed session is not opened.
  abbrev pub Keeps : Conn D C → Conn D C → Type 0
  Keeps c c1 = Steady c c1 × (closes api c ≡ true → closes api c1 ≡ true)

-- What a protocol promises, `Ready` being what closing needs and `Done` the outcomes at which a
-- session is closed: only sending carries something, all that it was given or nothing.
pub record Uploads {D C : Type 0} (Ready : Conn D C → Type 0) (Done : Outcome Status → Type 0)
    (reason : ℕ) (api : Api D C) : Type 0 where
  pub done : (s : Status) → Done (returned s)
  pub moved-Ready :
      (c : Conn D C) (t : Trace) (tcp : Option TcpSession)
      → Ready c
      → Ready (record c { trace = t; tcp_session = tcp })
  pub moved-closes : (c : Conn D C) (t : Trace) → closes api (record c { trace = t }) ≡ closes api c
  pub get_timeout : (c : Conn D C) → Keeps Ready reason api c (api.get_timeout c).2
  pub process_events :
      (c : Conn D C) (f : Conn D C → Outcome Status × Conn D C)
      → api.process_events ≡ some f
      → Keeps Ready reason api c (f c).1
  pub hole_punching : (c : Conn D C) → Steady Ready reason api c (api.hole_punching c).1
  pub connect : (c : Conn D C) → Steady Ready reason api c (api.connect c).1
  pub udp_recv : (n : ℕ) (c : Conn D C) → Keeps Ready reason api c (api.udp_recv n c).2
  pub send_keep_alive : (c : Conn D C) → Keeps Ready reason api c (api.send_keep_alive c).1
  pub disconnect : (c : Conn D C) → Keeps Ready reason api c (api.disconnect c).1
  pub disconnect-closes :
      (c : Conn D C) → Ready c → Done (api.disconnect c).0 → closes api (api.disconnect c).1 ≡ true
  pub udp_send :
      (b : Bytes) (c : Conn D C)
      → let (s, c1) = api.udp_send b c in
        (taken c1.trace ≡ taken c.trace)
        × (told reason c1.trace
            ≡ (if is_error s then told reason c.trace else told reason c.trace ++ b))
        × (Ready c → Ready c1)
