-- ===== src/Chownat/Received.antt =====
-- The stream that chownat hands over under `udp_connection`, and that the local end gets.
use mathlib.Core.Path.{subst}
use quic_web_rtc_like.Base.{
  ◌≡◌, refl, sym, not, inl, inr, ◌∙◌, Bool-cases, ℕ, Option, some, true, false, arith, [], ◌∷◌,
  ◌++◌, Bytes, is_some,
}
use quic_web_rtc_like.Sys.{Event, Os, read, Input, got, no_input, Outcome, returned}
use quic_web_rtc_like.Conn.{Status, ok, err, UdpSession}
use quic_web_rtc_like.Conn.Kept.{of_if, of_or_return, is_silent, Opened, Carried, Forwards}
use quic_web_rtc_like.Conn.Keeps.{udp_connection-always, tcp_send-LocalOnly}
use quic_web_rtc_like.Conn.Relay.{told, told-silent, tcp_send-unsent}
use quic_web_rtc_like.Conn.Session.{udp_connection}
use quic_web_rtc_like.Chownat.State.{Data, St, Callback, packet_size, mtu, mark_closed}
use quic_web_rtc_like.Chownat.Transfer.{udp_recv, udp_send, store, dispatch}
use quic_web_rtc_like.Chownat.Disconnect.{disconnect_send, finish}
use quic_web_rtc_like.Chownat.Setup.{connect, send_keep_alive}
use quic_web_rtc_like.Chownat.Punch.{hole_punching}
use quic_web_rtc_like.Conn.Tcp.{tcp_mtu_size, tcp_send}
use quic_web_rtc_like.Chownat.Backend.{chownat_api, hole_punching-data, send_keep_alive-data}
use quic_web_rtc_like.Chownat.Delivery.{Ignores}
use quic_web_rtc_like.Chownat.Reason
use quic_web_rtc_like.Chownat.Assembly.{assembled, assembled-silent, assembled-read}
use quic_web_rtc_like.Chownat.Seen.{
  send_keep_alive-seen, hole_punching-seen, disconnect_send-seen, connect-seen,
}
use quic_web_rtc_like.Chownat.Assembled.{
  Assembles, StillAwaits, StillAwaits-same, Assembles-moved, Assembles-after, Assembles-from,
  mark_closed-StillAwaits, dispatch-Assembles,
}
use quic_web_rtc_like.Conn.Relay.{passed_on}
use quic_web_rtc_like.Chownat.Relaying.{chownat_relays}

module _ (os : Os) (callback : Callback) (ignores : Ignores callback) where
  udp_recv-Assembles :
      (fuel : ℕ) (c : St) → Assembles c → Assembles (udp_recv os callback fuel true mtu c).2
  unfolding udp_recv
  udp_recv-Assembles fuel c p = of_or_return X c.udp_session _ _ p λ u _.
      of_or_return X c.data_ptr _ _ p λ d has. of_or_return X c.ctrl _ _ p λ k _.
        of_if X (not k.init) _ _ p (elim (Bool-cases d.closed) [
          | inl over ↦ rw (over, X) p
          | inr still ↦
              rw (still, X) (by_input u d has still (os.input c.trace u.socket_fd packet_size))
        ])
    where
      X : Outcome Status × Option Bytes × St → Type 0
      X r = Assembles r.2

      by_input :
          (u : UdpSession) (d : Data)
          → c.data_ptr ≡ some d
          → d.closed ≡ false
          → (i : Input)
          → let c1 : St = record c { trace = read u.socket_fd packet_size i ∷ c.trace } in
            X (elim i as (λ i. Outcome Status × Option Bytes × St) [
              | no_input e ↦ (returned err, some [], mark_closed c1)
              | got msg ↦
                  let (o, out, c2) = dispatch os callback fuel u d mtu msg c1 in (o, some out, c2)
            ])
      by_input u d has still (no_input e) =
          let c1 : St = record c { trace = read u.socket_fd packet_size (no_input e) ∷ c.trace } in
          Assembles-after c (mark_closed c1) refl
            (mark_closed-StillAwaits os callback ignores c.data_ptr c1) p
      by_input u d has still (got msg) =
          dispatch-Assembles os callback ignores fuel u d msg (assembled c.trace)
            (record c { trace = read u.socket_fd packet_size (got msg) ∷ c.trace }) has
            (p.0, λ d' e o. p.1 d' (has ∙ e) o) still refl

  connect-data : (c : St) → (connect callback c).1.data_ptr ≡ c.data_ptr
  unfolding connect
  connect-data c = grind (arith, ignores)

  udp_send-told :
      (b : Bytes) (c : St)
      → told Reason.udp_recv_data (udp_send os callback b c).2.trace
        ≡ told Reason.udp_recv_data c.trace
  unfolding udp_send
  udp_send-told b c = grind (arith, ignores)

  udp_send-assembled :
      (b : Bytes) (c : St) → assembled (udp_send os callback b c).2.trace ≡ assembled c.trace
  unfolding udp_send
  udp_send-assembled b c = grind (arith, ignores)

  udp_send-StillAwaits :
      (b : Bytes) (c : St) → StillAwaits c.data_ptr (udp_send os callback b c).2.data_ptr
  unfolding udp_send store
  udp_send-StillAwaits b c d1 has still = grind (arith, ignores)

  disconnect_send-StillAwaits : (c : St) → StillAwaits c.data_ptr (disconnect_send os c).1.data_ptr
  unfolding disconnect_send finish
  disconnect_send-StillAwaits c d1 has still = grind arith

  Assembles-event :
      (c : St) (e : Event)
      → is_silent e ≡ true
      → Assembles c
      → Assembles (record c { trace = e ∷ c.trace })
  Assembles-event c e quiet =
      Assembles-moved c.data_ptr (e ∷ c.trace) c.trace
        (told-silent Reason.udp_recv_data e c.trace quiet) (assembled-silent e c.trace quiet)

  Assembles-Opened : (fuel : ℕ) → Opened Assembles Assembles (chownat_api os callback fuel)
  Assembles-Opened fuel = record {
    event = Assembles-event;
    accepted = λ c tcp tcp' e p. p;
    hole_punching = λ c.
        Assembles-after c (hole_punching os fuel c).1 (hole_punching-seen os fuel c) (
          StillAwaits-same c.data_ptr (hole_punching os fuel c).1.data_ptr
            (hole_punching-data os fuel c));
    connect = λ c.
        Assembles-after c (connect callback c).1 (connect-seen os callback ignores c)
          (StillAwaits-same c.data_ptr (connect callback c).1.data_ptr (connect-data c));
  }

  Assembles-Carried : (fuel : ℕ) → Carried Assembles (chownat_api os callback fuel)
  Assembles-Carried fuel = record {
    event = Assembles-event;
    get_timeout = λ c p. p;
    process_events = λ c f e p. cc;
    send_keep_alive = λ c.
        Assembles-after c (send_keep_alive os c).1 (send_keep_alive-seen os c) (
          StillAwaits-same c.data_ptr (send_keep_alive os c).1.data_ptr
            (send_keep_alive-data os c));
    disconnect = λ c.
        Assembles-after c (disconnect_send os c).1 (disconnect_send-seen os c)
          (disconnect_send-StillAwaits c);
  }

  Assembles-Forwards : (fuel : ℕ) → Forwards Assembles (chownat_api os callback fuel)
  Assembles-Forwards fuel = record {
    local_read = λ c fd i.
        Assembles-moved c.data_ptr (read fd tcp_mtu_size i ∷ c.trace) c.trace refl
          (assembled-read fd tcp_mtu_size i c.trace refl);
    udp_send = λ b c.
        Assembles-from c (udp_send os callback b c).2 (udp_send-told b c) (udp_send-assembled b c)
          (udp_send-StillAwaits b c);
  }

  tcp_send-Assembles :
      (fuel : ℕ) (b : Bytes) (c : St) → Assembles c → Assembles (tcp_send os fuel b c).1
  tcp_send-Assembles fuel b c p =
      let t = (tcp_send os fuel b c).1.trace in
      subst Assembles (sym (tcp_send-LocalOnly os fuel b c)) (
        Assembles-moved c.data_ptr t c.trace
          (tcp_send-unsent (told Reason.udp_recv_data) os (λ fd x r t. refl) fuel b c)
          (tcp_send-unsent assembled os (λ fd x r t. refl) fuel b c) p)

  -- What chownat has handed over is the stream that the datagrams amount to, at every end of
  -- udp_connection, if this held at the start with an open session awaiting the packet after it.
  pub chownat-Assembles :
      (fuel : ℕ) (c : St)
      → Assembles c
      → Assembles (udp_connection os (chownat_api os callback fuel) fuel c).1
  chownat-Assembles fuel =
      udp_connection-always os (chownat_api os callback fuel) Assembles Assembles (λ c p. p)
        (Assembles-Opened fuel) (Assembles-Carried fuel) (udp_recv-Assembles fuel)
        tcp_send-Assembles (Assembles-Forwards fuel) fuel

  -- However long udp_connection runs over chownat, whatever the network delivers and however it
  -- ends, the bytes that the system has taken for the local end are a prefix of the stream that
  -- the datagrams read so far amount to, in which each packet counts only when its number is the
  -- next one modulo 256; at a success they are all of it. The callback leaves the connection
  -- alone, there is a TCP session, and this held at the start with nothing left over and an open
  -- session awaiting the packet after the stream.
  pub received_stream :
      (fuel : ℕ) (c : St)
      → is_some c.tcp_session ≡ true
      → told Reason.udp_recv_data c.trace ≡ passed_on c.trace
      → Assembles c
      → let (o, c') = udp_connection os (chownat_api os callback fuel) fuel c in
        (rest : Bytes) × ((assembled c'.trace).1 ≡ passed_on c'.trace ++ rest)
        × (o ≡ returned ok → rest ≡ [])
  received_stream fuel c tcp even matches =
      let (rest, left, whole) = chownat_relays os callback ignores fuel c tcp even in
      (rest, sym (chownat-Assembles fuel c matches).0 ∙ left, whole)
