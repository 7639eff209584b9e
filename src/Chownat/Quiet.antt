-- ===== src/Chownat/Quiet.antt =====
-- Parts of a round of `udp_connection` over chownat while nothing comes from either end.
use quic_web_rtc_like.Base.{
  Bytes, ℕ, ◌+◌, ◌*◌, ◌/◌, ◌≤◌, ◌≡◌, false, some, List, [], ◌∷◌, ℤ, pos, arith, length, or_return,
  le→ltb_false, if◌then◌else◌, eqb_ℤ,
}
use quic_web_rtc_like.Sys.{
  Os, Addr, Trace, Event, Timeval, returned, ret, did, ready, clocked, waited, send_to,
}
use quic_web_rtc_like.Conn.{ok, UdpSession}
use quic_web_rtc_like.Conn.Api.{closes}
use quic_web_rtc_like.Conn.Phase.{go}
use quic_web_rtc_like.Conn.Wait.{microseconds}
use quic_web_rtc_like.Conn.Loop.{Loop, monotonic_us, ka_interval_us, drop_session, on_timeout}
use quic_web_rtc_like.Chownat.State.{Data, Config, St, Callback}
use quic_web_rtc_like.Chownat.Setup.{is_closed, get_timeout, send_keep_alive}
use quic_web_rtc_like.Chownat.Disconnect.{disconnect_send}
use quic_web_rtc_like.Chownat.Closing.{IsLive}
use quic_web_rtc_like.Chownat.Backend.{chownat_api}
use quic_web_rtc_like.Chownat.Msg

-- The clock in microseconds; 0 where it fails.
abbrev pub micros : Os → Trace → ℕ
micros os t = or_return (os.clock t) 0 λ (sec, nsec). sec * 1_000_000 + nsec / 1000

-- Nothing comes from either end: every wait runs its time out, messages can be sent, and the clock is
-- read without failure, never runs back, and has moved on by the timeout after a wait.
pub record Quiet (os : Os) : Type 0 where
  pub times_out : (t : Trace) (fds : List ℤ) (tv : Timeval) → os.select t fds (some tv) ≡ ready []
  pub sends :
      (t : Trace) (fd : ℤ) (b : Bytes) (a : Addr) → os.answer t (send_to fd b a) ≡ ret (length b)
  pub clock : (t : Trace) → (now : ℕ × ℕ) × (os.clock t ≡ some now)
  pub forward : (t : Trace) (e : Event) → micros os t ≤ micros os (e ∷ t)
  pub waits :
      (t : Trace) (fds : List ℤ) (tv : Timeval)
      → micros os t + microseconds tv ≤ micros os (waited fds (some tv) (ready []) ∷ t)

-- Events alone leave a connection live.
abbrev pub later : (c : St) (d : Data) (t : Trace) → IsLive c d → IsLive (record c { trace = t }) d
later c d t live = record {
  session = live.session;
  has_session = live.has_session;
  ctrl = live.ctrl;
  has_ctrl = live.has_ctrl;
  inited = live.inited;
  config = live.config;
  has_config = live.has_config;
  has_data = live.has_data;
}

module _ (os : Os) (callback : Callback) (fuel : ℕ) (quiet : Quiet os) where
  pub monotonic_us-quiet :
      (c : St)
      → monotonic_us os (chownat_api os callback fuel) c
        ≡ go (micros os c.trace, record c { trace = clocked ∷ c.trace })
  unfolding monotonic_us
  monotonic_us-quiet c = ground (arith, (quiet.clock c.trace).1)

  send_keep_alive-quiet :
      (c : St) (d : Data) (live : IsLive c d)
      → d.closed ≡ false
      → send_keep_alive os c ≡ (
        returned ok,
        record c {
          trace =
              did (send_to live.session.socket_fd Msg.keep_alive live.session.dst) (ret 1)
              ∷ c.trace;
        },
      )
  unfolding send_keep_alive
  send_keep_alive-quiet c d live is_open =
      ground (arith, quiet.sends c.trace live.session.socket_fd Msg.keep_alive live.session.dst)

  pub get_timeout-quiet : (c : St) (d : Data) → IsLive c d → get_timeout c ≡ (ok, some (5, 0))
  unfolding get_timeout
  get_timeout-quiet c d live = ground arith

  pub closes-open :
      (c : St) (d : Data)
      → IsLive c d
      → d.closed ≡ false
      → closes (chownat_api os callback fuel) c ≡ false
  unfolding is_closed
  closes-open c d live is_open = ground arith

  -- At the deadline: the keep-alive is sent and the next deadline is set. One too many ends the
  -- session.
  pub on_timeout-quiet :
      (u : UdpSession) (l : Loop Data Config) (d : Data) (live : IsLive l.conn d)
      → d.closed ≡ false
      → l.next_ka_us ≤ micros os l.conn.trace
      → let api = chownat_api os callback fuel in
        let c1 : St = record l.conn { trace = clocked ∷ l.conn.trace } in
        let t2 : Trace =
          did (send_to live.session.socket_fd Msg.keep_alive live.session.dst) (ret 1)
          ∷ clocked
          ∷ l.conn.trace in
        let c3 : St = record l.conn { trace = clocked ∷ t2 } in
        on_timeout os api u l
        ≡ go (record {
          conn =
              if eqb_ℤ (pos l.threshold) live.session.ka_miss_threshold
              then (disconnect_send os c3).1
              else c3;
          threshold = l.threshold + 1;
          next_ka_us = micros os t2 + ka_interval_us;
        })
  unfolding on_timeout drop_session
  on_timeout-quiet u l d live is_open late =
      let c1 : St = record l.conn { trace = clocked ∷ l.conn.trace } in
      let t2 : Trace =
        did (send_to live.session.socket_fd Msg.keep_alive live.session.dst) (ret 1) ∷ c1.trace in
      let live1 : IsLive c1 d = later l.conn d c1.trace live in
      let live2 : IsLive (record l.conn { trace = t2 }) d = later l.conn d t2 live in
      let sent : send_keep_alive os c1 ≡ (returned ok, record l.conn { trace = t2 }) =
        send_keep_alive-quiet c1 d live1 is_open in
      rw
        (
          closes-open l.conn d live is_open,
          monotonic_us-quiet,
          le→ltb_false (micros os l.conn.trace) l.next_ka_us late,
          sent,
          closes-open (record l.conn { trace = t2 }) d live2 is_open,
          monotonic_us-quiet,
        )
        (ground (arith, live.has_session))
