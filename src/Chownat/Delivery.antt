-- ===== src/Chownat/Delivery.antt =====
-- One packet, from `chownat_udp_send` over the wire to `chownat_udp_recv`.
use quic_web_rtc_like.Base.{
  ℕ, ◌%◌, ◌≤◌, ◌≡◌, ◌≢◌, true, false, Option, none, some, [], ◌∷◌, Bytes, arith, length, take, ltb,
  if◌then◌else◌, length-take, min,
}
use quic_web_rtc_like.Sys.{Os, Trace, returned, did, read, notified, send_to, got}
use quic_web_rtc_like.Conn.{ok, ok_truncated, UdpSession}
use quic_web_rtc_like.Chownat.State.{Data, St, Callback, mtu, packet_size}
use quic_web_rtc_like.Chownat.Msg
use quic_web_rtc_like.Chownat.Closing.{IsLive}
use quic_web_rtc_like.Chownat.Transfer.{udp_send, udp_recv, on_packet, store, next_number}
use quic_web_rtc_like.Chownat.Reason

-- The application's callback leaves the connection alone.
abbrev pub Ignores : Callback → Type 0
Ignores callback = (r : ℕ) (b : Bytes) (c : St) → callback r b c ≡ c

-- The newest datagram of a history.
abbrev pub emitted : Trace → Option Bytes
emitted [] = none
emitted (did (send_to fd b dst) r ∷ t) = some b
emitted (_ ∷ t) = emitted t

module _ (os : Os) (callback : Callback) (ignores : Ignores callback) where
  -- Sending at most an MTU on an open session, with a callback that leaves it alone, emits one
  -- packet with the current number and stores the payload, also where sendto fails.
  pub udp_send-open :
      (p : Bytes) (c : St) (d : Data)
      → IsLive c d
      → d.closed ≡ false
      → length p ≤ mtu
      → let c' = (udp_send os callback p c).2 in
        (emitted c'.trace ≡ some (Msg.packet d.id p)) × IsLive c' (store p d)
  unfolding udp_send
  udp_send-open p c d live is_open fits = (
    grind (arith, ignores),
    record {
      session = live.session;
      has_session = grind (arith, ignores);
      ctrl = live.ctrl;
      has_ctrl = grind (arith, ignores);
      inited = live.inited;
      config = live.config;
      has_config = grind (arith, ignores);
      has_data = grind (arith, ignores);
    },
  )

  -- The expected packet in `on_packet`: what is copied, and the connection after the callback.
  on_packet-expected :
      (u : UdpSession) (d : Data) (nbytes : ℕ) (n : ℕ) (p : Bytes) (c : St)
      → n % 256 ≡ d.expected
      → let copied = take (min (length p) nbytes) p in
        on_packet os callback u d nbytes (Msg.packet n p) c ≡ (
          if ltb nbytes (length p) then ok_truncated else ok,
          copied,
          record c {
            data_ptr = some (record d { expected = next_number d.expected });
            trace = notified Reason.udp_recv_data copied ∷ c.trace;
          },
        )
  unfolding on_packet
  on_packet-expected u d nbytes n p c number =
      let copied = take (min (length p) nbytes) p in
      ground (
        arith,
        length-take (min (length p) nbytes) p,
        ignores Reason.udp_recv_data copied (record c {
          data_ptr = some (record d { expected = next_number d.expected });
          trace = notified Reason.udp_recv_data copied ∷ c.trace;
        }),
      )

  -- On an open session whose callback leaves it alone, the packet with the expected number is
  -- delivered: the caller gets the payload cut to the size of its buffer, the status says whether
  -- it was cut, and the expected number moves on.
  pub udp_recv-expected :
      (fuel nbytes n : ℕ) (p : Bytes) (c : St) (d : Data) (live : IsLive c d)
      → d.closed ≡ false
      → os.input c.trace live.session.socket_fd packet_size ≡ got (Msg.packet n p)
      → n % 256 ≡ d.expected
      → let (o, out, c') = udp_recv os callback fuel true nbytes c in
        (o ≡ returned (if ltb nbytes (length p) then ok_truncated else ok))
        × (out ≡ some (take (min (length p) nbytes) p))
        × IsLive c' (record d { expected = next_number d.expected })
  unfolding udp_recv
  udp_recv-expected fuel nbytes n p c d live is_open arrived number =
      let c1 : St = record c {
        trace = read live.session.socket_fd packet_size (got (Msg.packet n p)) ∷ c.trace;
      } in
      let e = on_packet-expected live.session d nbytes n p c1 number in
      (
        ground (arith, e),
        ground (arith, e),
        record {
          session = live.session;
          has_session = ground (arith, e);
          ctrl = live.ctrl;
          has_ctrl = ground (arith, e);
          inited = live.inited;
          config = live.config;
          has_config = ground (arith, e);
          has_data = ground (arith, e);
        },
      )

  -- On an open session a packet with another number delivers nothing and changes no counter; the
  -- newest datagram requests the expected one.
  pub udp_recv-unexpected :
      (fuel nbytes n : ℕ) (p : Bytes) (c : St) (d : Data) (live : IsLive c d)
      → d.closed ≡ false
      → os.input c.trace live.session.socket_fd packet_size ≡ got (Msg.packet n p)
      → n % 256 ≢ d.expected
      → let (o, out, c') = udp_recv os callback fuel true nbytes c in
        (o ≡ returned ok)
        × (out ≡ some [])
        × (emitted c'.trace ≡ some (Msg.resend d.expected))
        × IsLive c' d
  unfolding udp_recv
  udp_recv-unexpected fuel nbytes n p c d live is_open arrived number = (
    ground arith,
    ground arith,
    ground arith,
    record {
      session = live.session;
      has_session = ground arith;
      ctrl = live.ctrl;
      has_ctrl = ground arith;
      inited = live.inited;
      config = live.config;
      has_config = ground arith;
      has_data = ground arith;
    },
  )
