-- ===== src/Chownat/Silence.antt =====
-- A peer that says nothing: the keep-alives of `udp_connection` run out and the session ends.
use quic_web_rtc_like.Base.{
  ℕ, zero, suc, ◌+◌, ◌-◌, ◌≤◌, ◌<◌, ◌≡◌, ◌∙◌, ap, refl, true, false, some, [], ◌∷◌, pos, arith,
  if◌then◌else◌, eqb_ℤ,
}
use quic_web_rtc_like.Sys.{Os, Trace, Timeval, returned, ret, did, ready, clocked, waited, send_to}
use quic_web_rtc_like.Conn.{ok, UdpSession, Ctrl}
use quic_web_rtc_like.Conn.Api.{closes}
use quic_web_rtc_like.Conn.Phase.{go}
use quic_web_rtc_like.Conn.Wait.{choose_timeout_lem}
use quic_web_rtc_like.Conn.Loop.{
  Loop, ka_interval_us, choose_timeout, run_events, drain, udp_fd, tcp_fd, watches, on_select,
  await, round, rounds,
}
use quic_web_rtc_like.Conn.Session.{open_session, udp_connection}
use quic_web_rtc_like.Chownat.State.{Data, Config, St, Callback}
use quic_web_rtc_like.Chownat.Setup.{is_closed}
use quic_web_rtc_like.Chownat.Disconnect.{disconnect_send}
use quic_web_rtc_like.Chownat.Closing.{IsLive, disconnect_send-ok}
use quic_web_rtc_like.Chownat.Backend.{chownat_api}
use quic_web_rtc_like.Chownat.Msg
use quic_web_rtc_like.Chownat.Quiet.{
  Quiet, micros, later, monotonic_us-quiet, get_timeout-quiet, closes-open, on_timeout-quiet,
}

module _ (os : Os) (callback : Callback) (fuel : ℕ) (quiet : Quiet os) where
  -- A round in silence: the wait ends at the deadline, which is not more than an interval away again
  -- afterwards.
  round-quiet :
      (f : ℕ) (u : UdpSession) (l : Loop Data Config) (d : Data) (live : IsLive l.conn d)
      → d.closed ≡ false
      → l.next_ka_us ≤ micros os l.conn.trace + ka_interval_us
      → (t : Trace) × (next : ℕ) × (next ≤ micros os t + ka_interval_us)
        × (round os (chownat_api os callback fuel) (suc f) u l
            ≡ go (record {
              conn =
                  if eqb_ℤ (pos l.threshold) live.session.ka_miss_threshold
                  then (disconnect_send os (record l.conn { trace = t })).1
                  else record l.conn { trace = t };
              threshold = l.threshold + 1;
              next_ka_us = next;
            }))
  unfolding round run_events drain await on_select
  round-quiet f u l d live is_open soon =
      let t = l.conn.trace in
      let five : Timeval = record { tv_sec = 5; tv_usec = 0 } in
      let wait = choose_timeout ok five (l.next_ka_us - micros os t) in
      let api = chownat_api os callback fuel in
      let fds = watches os api (udp_fd os api l.conn) (tcp_fd os api l.conn) in
      let t1 : Trace = waited fds (some wait) (ready []) ∷ clocked ∷ t in
      let live1 : IsLive (record l.conn { trace = t1 }) d = later l.conn d t1 live in
      let late : l.next_ka_us ≤ micros os t1 = grind (
        arith,
        quiet.waits (clocked ∷ t) fds wait,
        quiet.forward t clocked,
        choose_timeout_lem five (l.next_ka_us - micros os t),
      ) in
      let t2 : Trace =
        did (send_to live.session.socket_fd Msg.keep_alive live.session.dst) (ret 1)
        ∷ clocked
        ∷ t1 in
      (
        clocked ∷ t2,
        micros os t2 + ka_interval_us,
        grind (arith, quiet.forward t2 clocked),
        rw
            (
              closes-open os callback fuel quiet l.conn d live is_open,
              get_timeout-quiet os callback fuel quiet l.conn d live,
              monotonic_us-quiet os callback fuel quiet l.conn,
              quiet.times_out (clocked ∷ t) fds wait,
            )
            (on_timeout-quiet os callback fuel quiet u
              (record l { conn = record l.conn { trace = t1 } }) d live1 is_open late),
      )

  -- A connection that `disconnect` left closed ends the loop.
  disconnect_send-closes :
      (c : St) (d : Data)
      → IsLive c d
      → d.closed ≡ false
      → let c' = (disconnect_send os c).1 in
        (closes (chownat_api os callback fuel) c' ≡ true)
        × (c'.data_ptr ≡ some (record d { id = 0; expected = 0; closed = true }))
  unfolding is_closed
  disconnect_send-closes c d live is_open =
      let shut = (disconnect_send-ok os c d live is_open).1 in (ground (arith, shut), shut)

  rounds-closed :
      (f : ℕ) (u : UdpSession) (l : Loop Data Config)
      → closes (chownat_api os callback fuel) l.conn ≡ true
      → rounds os (chownat_api os callback fuel) (suc f) u l ≡ (returned ok, l.conn)
  unfolding rounds
  rounds-closed f u l shut = rw (rounds, shut) refl

  rounds-open :
      (f : ℕ) (u : UdpSession) (l l' : Loop Data Config)
      → closes (chownat_api os callback fuel) l.conn ≡ false
      → round os (chownat_api os callback fuel) f u l ≡ go l'
      → rounds os (chownat_api os callback fuel) (suc f) u l
        ≡ rounds os (chownat_api os callback fuel) f u l'
  unfolding rounds
  rounds-open f u l l' is_open e = rw (rounds, is_open, e) refl

  -- The rounds that are left: `left` more keep-alives than the one that ends the session.
  rounds-quiet :
      (left f : ℕ) (u : UdpSession) (l : Loop Data Config) (d : Data) (live : IsLive l.conn d)
      → d.closed ≡ false
      → l.next_ka_us ≤ micros os l.conn.trace + ka_interval_us
      → live.session.ka_miss_threshold ≡ pos (l.threshold + left)
      → left + 2 < f
      → let (o, c') = rounds os (chownat_api os callback fuel) f u l in
        (o ≡ returned ok) × (c'.data_ptr ≡ some (record d { id = 0; expected = 0; closed = true }))
  rounds-quiet left zero u l d live is_open soon k enough = absurd (omega arith)
  rounds-quiet zero (suc zero) u l d live is_open soon k enough = absurd (omega arith)
  rounds-quiet zero (suc (suc f)) u l d live is_open soon k enough =
      let (t, next, soon', e) = round-quiet f u l d live is_open soon in
      let at_limit : eqb_ℤ (pos l.threshold) live.session.ka_miss_threshold ≡ true =
        rw k (ground arith) in
      let ended =
        disconnect_send-closes (record l.conn { trace = t }) d (later l.conn d t live) is_open in
      let l' : Loop Data Config = record {
        conn = (disconnect_send os (record l.conn { trace = t })).1;
        threshold = l.threshold + 1;
        next_ka_us = next;
      } in
      rw
        (
          rounds-open (suc f) u l l' (closes-open os callback fuel quiet l.conn d live is_open)
              (e ∙ rw at_limit refl),
          rounds-closed f u l' ended.0,
        )
        (refl, ended.1)
  rounds-quiet (suc left) (suc zero) u l d live is_open soon k enough = absurd (omega arith)
  rounds-quiet (suc left) (suc (suc f)) u l d live is_open soon k enough =
      let (t, next, soon', e) = round-quiet f u l d live is_open soon in
      let before : eqb_ℤ (pos l.threshold) live.session.ka_miss_threshold ≡ false =
        rw k (ground arith) in
      let l' : Loop Data Config = record {
        conn = record l.conn { trace = t };
        threshold = l.threshold + 1;
        next_ka_us = next;
      } in
      rw
        (rounds-open (suc f) u l l' (closes-open os callback fuel quiet l.conn d live is_open)
          (e ∙ rw before refl))
        (rounds-quiet left (suc f) u l' d (later l.conn d t live) is_open soon'
          (k ∙ ap pos (omega arith)) (omega arith))

  -- If udp_connection has opened a chownat session, with every pointer set and not closed, and
  -- from then on nothing arrives, then with a threshold of n missed keep-alives in that session
  -- and a fuel above n + 2 it returns success, with the session closed and its counters at 0.
  -- Every wait runs its time out, the clock never fails nor runs back and has moved on by the
  -- timeout after a wait, and every message is sent whole.
  pub silent_peer_ends :
      (misses f : ℕ) (c c1 : St) (u : UdpSession) (k : Ctrl) (d : Data) (live : IsLive c1 d)
      → c.udp_session ≡ some u
      → c.ctrl ≡ some k
      → k.init ≡ true
      → open_session os (chownat_api os callback fuel) k.mode c ≡ go c1
      → d.closed ≡ false
      → live.session.ka_miss_threshold ≡ pos misses
      → misses + 2 < f
      → let (o, c') = udp_connection os (chownat_api os callback fuel) f c in
        (o ≡ returned ok) × (c'.data_ptr ≡ some (record d { id = 0; expected = 0; closed = true }))
  unfolding udp_connection
  silent_peer_ends misses f c c1 u k d live has_u has_k inited opened is_open limit enough =
      let t1 : Trace = clocked ∷ c1.trace in
      let l : Loop Data Config = record {
        conn = record c1 { trace = t1 };
        threshold = 0;
        next_ka_us = micros os c1.trace + ka_interval_us;
      } in
      let soon : l.next_ka_us ≤ micros os t1 + ka_interval_us =
        grind (arith, quiet.forward c1.trace clocked) in
      let enters : udp_connection os (chownat_api os callback fuel) f c
          ≡ rounds os (chownat_api os callback fuel) f u l =
        simp (has_u, has_k, inited, opened, monotonic_us-quiet os callback fuel quiet c1) in
      rw enters (
        rounds-quiet misses f u l d (later c1 d t1 live) is_open soon (limit ∙ ap pos (omega arith))
          enough)
