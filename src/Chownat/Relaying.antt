-- ===== src/Chownat/Relaying.antt =====
-- source/libs/protocols/chownat/src/chownat.c: chownat under `udp_connection` as a relay.
use mathlib.Core.List.{append-nil}
use quic_web_rtc_like.Base.{
  ◌≡◌, refl, ap, sym, not, inl, inr, ◌∙◌, Bool-cases, ℕ, Bool, Option, some, true, false, arith, [],
  ◌∷◌, ◌++◌, Bytes, is_some,
}
use quic_web_rtc_like.Sys.{Os, read, Input, got, no_input, Outcome, returned}
use quic_web_rtc_like.Conn.{Status, err, is_set, UdpSession}
use quic_web_rtc_like.Conn.Kept.{of_if, of_or_return}
use quic_web_rtc_like.Conn.Relay.{told, passed_on, view, bytes_of, Relays, Relayed}
use quic_web_rtc_like.Conn.Relayed.{udp_connection-relays}
use quic_web_rtc_like.Conn.Session.{udp_connection}
use quic_web_rtc_like.Chownat.State.{Data, St, Callback, packet_size, mark_closed}
use quic_web_rtc_like.Chownat.Setup.{is_closed}
use quic_web_rtc_like.Chownat.Transfer.{udp_send, udp_recv, dispatch, on_packet, on_resend}
use quic_web_rtc_like.Chownat.Disconnect.{disconnect_recv}
use quic_web_rtc_like.Chownat.Backend.{chownat_api}
use quic_web_rtc_like.Chownat.Delivery.{Ignores}
use quic_web_rtc_like.Chownat.Reason
use quic_web_rtc_like.Chownat.Seen.{
  Seen, send_keep_alive-seen, hole_punching-seen, disconnect_send-seen, disconnect_recv-seen,
  connect-seen, on_resend-seen,
}

module _ (os : Os) (callback : Callback) (ignores : Ignores callback) where
  -- What a relay sees.
  abbrev shown : St → Bytes × Bytes × Bool
  shown = view Reason.udp_recv_data

  abbrev relay_part : Seen → Bytes × Bytes × Bool
  relay_part v = (v.0.0.1, v.0.0.2, v.1)

  shows : {v w : Seen} → v ≡ w → relay_part v ≡ relay_part w
  shows e = ap relay_part e

  udp_send-shown : (b : Bytes) (c : St) → shown (udp_send os callback b c).2 ≡ shown c
  unfolding udp_send
  udp_send-shown b c = grind (arith, ignores)

  on_resend-shown :
      (u : UdpSession) (d : Data) (msg : Bytes) (c : St)
      → shown (on_resend os callback u d msg c) ≡ shown c
  on_resend-shown u d msg c = shows (on_resend-seen os callback ignores u d msg c)

  disconnect_recv-shown : (fuel : ℕ) (c : St) → shown (disconnect_recv os fuel c).1 ≡ shown c
  disconnect_recv-shown fuel c = shows (disconnect_recv-seen os fuel c)

  -- What a call of `udp_recv` that gives `out` adds.
  abbrev Gives : Bytes → St → St → Type 0
  Gives out c c1 =
      shown c1
      ≡ (told Reason.udp_recv_data c.trace ++ out, passed_on c.trace, is_some c.tcp_session)

  on_packet-Gives :
      (u : UdpSession) (d : Data) (n : ℕ) (msg : Bytes) (c : St)
      → let (s, out, c1) = on_packet os callback u d n msg c in Gives out c c1
  unfolding on_packet
  on_packet-Gives u d n msg c = grind (arith, ignores, append-nil)

  dispatch-Gives :
      (fuel : ℕ) (u : UdpSession) (d : Data) (n : ℕ) (msg : Bytes) (c : St)
      → let (o, out, c1) = dispatch os callback fuel u d n msg c in Gives out c c1
  unfolding dispatch
  dispatch-Gives fuel u d n msg c =
      grind (arith, append-nil, on_packet-Gives, on_resend-shown, disconnect_recv-shown)

  -- What a call that gives nothing leaves.
  Gives-none : (c c1 : St) → shown c1 ≡ shown c → Gives [] c c1
  Gives-none c c1 e =
      e
      ∙ ap (λ x. (x, passed_on c.trace, is_some c.tcp_session))
          (sym (append-nil (told Reason.udp_recv_data c.trace)))

  udp_recv-Gives :
      (fuel n : ℕ) (c : St)
      → let (o, out, c1) = udp_recv os callback fuel true n c in Gives (bytes_of out) c c1
  unfolding udp_recv
  udp_recv-Gives fuel n c = of_or_return X c.udp_session _ _ nothing λ u _.
      of_or_return X c.data_ptr _ _ nothing λ d _. of_or_return X c.ctrl _ _ nothing λ k _.
        of_if X (not k.init) _ _ nothing
          (of_if X d.closed _ _ nothing (by_input u d (os.input c.trace u.socket_fd packet_size)))
    where
      X : Outcome Status × Option Bytes × St → Type 0
      X (o, out, c1) = Gives (bytes_of out) c c1

      nothing : Gives [] c c
      nothing = Gives-none c c refl

      by_input :
          (u : UdpSession) (d : Data) (i : Input)
          → let c1 : St = record c { trace = read u.socket_fd packet_size i ∷ c.trace } in
            X (elim i as (λ i. Outcome Status × Option Bytes × St) [
              | no_input e ↦ (returned err, some [], mark_closed c1)
              | got msg ↦
                  let (o, out, c2) = dispatch os callback fuel u d n msg c1 in (o, some out, c2)
            ])
      by_input u d (no_input e) =
          Gives-none c
            (mark_closed (record c { trace = read u.socket_fd packet_size (no_input e) ∷ c.trace }))
            refl
      by_input u d (got msg) =
          dispatch-Gives fuel u d n msg
            (record c { trace = read u.socket_fd packet_size (got msg) ∷ c.trace })

  -- A session that is closed after `udp_recv` has given nothing.
  abbrev Unless : Bytes → St → Type 0
  Unless out c1 = is_set (is_closed c1) ≡ true → out ≡ []

  dispatch-Unless :
      (fuel : ℕ) (u : UdpSession) (d : Data) (n : ℕ) (msg : Bytes) (c : St)
      → c.data_ptr ≡ some d
      → d.closed ≡ false
      → let (o, out, c1) = dispatch os callback fuel u d n msg c in Unless out c1
  unfolding dispatch on_packet is_closed
  dispatch-Unless fuel u d n msg c has still = grind (arith, ignores)

  udp_recv-Unless :
      (fuel n : ℕ) (c : St)
      → let (o, out, c1) = udp_recv os callback fuel true n c in Unless (bytes_of out) c1
  unfolding udp_recv
  udp_recv-Unless fuel n c =
      of_or_return X c.udp_session _ _ (λ shut. refl)
        λ u _.
          of_or_return X c.data_ptr _ _ (λ shut. refl)
            λ d has.
              of_or_return X c.ctrl _ _ (λ shut. refl)
                λ k _.
                  of_if X (not k.init) _ _ (λ shut. refl)
                    (elim (Bool-cases d.closed) [
                      | inl over ↦ rw (over, X) λ shut. refl
                      | inr still ↦
                          rw (still, X)
                            (by_input u d has still (os.input c.trace u.socket_fd packet_size))
                    ])
    where
      X : Outcome Status × Option Bytes × St → Type 0
      X (o, out, c1) = Unless (bytes_of out) c1

      by_input :
          (u : UdpSession) (d : Data)
          → c.data_ptr ≡ some d
          → d.closed ≡ false
          → (i : Input)
          → let c1 : St = record c { trace = read u.socket_fd packet_size i ∷ c.trace } in
            X (elim i as (λ i. Outcome Status × Option Bytes × St) [
              | no_input e ↦ (returned err, some [], mark_closed c1)
              | got msg ↦
                  let (o, out, c2) = dispatch os callback fuel u d n msg c1 in (o, some out, c2)
            ])
      by_input u d has still (no_input e) = λ shut. refl
      by_input u d has still (got msg) =
          dispatch-Unless fuel u d n msg
            (record c { trace = read u.socket_fd packet_size (got msg) ∷ c.trace }) has still

  pub chownat_api-Relays : (fuel : ℕ) → Relays Reason.udp_recv_data (chownat_api os callback fuel)
  chownat_api-Relays fuel = record {
    get_timeout = λ c. refl;
    process_events = λ c f e. cc;
    hole_punching = λ c. shows (hole_punching-seen os fuel c);
    connect = λ c. shows (connect-seen os callback ignores c);
    udp_send = λ b c. udp_send-shown b c;
    udp_recv = udp_recv-Gives fuel;
    udp_recv-closed = udp_recv-Unless fuel;
    send_keep_alive = λ c. shows (send_keep_alive-seen os c);
    disconnect = λ c. shows (disconnect_send-seen os c);
  }

  -- Over chownat, the local end gets a prefix of what the callback was told, and all of it at a
  -- success.
  pub chownat_relays :
      (fuel : ℕ) (c : St)
      → is_some c.tcp_session ≡ true
      → told Reason.udp_recv_data c.trace ≡ passed_on c.trace
      → let (o, c') = udp_connection os (chownat_api os callback fuel) fuel c in
        Relayed Reason.udp_recv_data o c'.trace
  chownat_relays fuel =
      udp_connection-relays os (chownat_api os callback fuel) Reason.udp_recv_data
        (chownat_api-Relays fuel) fuel
