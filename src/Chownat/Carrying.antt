-- ===== src/Chownat/Carrying.antt =====
-- What connecting, sending and receiving over chownat leave of the way from the local end to the peer.
use quic_web_rtc_like.Base.{
  ◌≡◌, refl, ap, not, ◌∙◌, Bool-cases, ℕ, Option, some, true, false, arith, [], ◌∷◌, Bytes, ◌++◌,
  length, ltb, starts_with, if◌then◌else◌, inl, inr,
}
use quic_web_rtc_like.Sys.{Os, read, Input, got, no_input, Outcome, returned, exited, out_of_fuel}
use quic_web_rtc_like.Conn.{Status, err, is_error, UdpSession}
use quic_web_rtc_like.Conn.Kept.{of_if, of_or_return}
use quic_web_rtc_like.Conn.Relay.{told, taken}
use quic_web_rtc_like.Chownat.State.{Data, St, Callback, packet_size, mark_closed}
use quic_web_rtc_like.Chownat.Setup.{connect}
use quic_web_rtc_like.Chownat.Disconnect.{disconnect_recv}
use quic_web_rtc_like.Chownat.Transfer.{udp_recv, udp_send, dispatch, on_packet, on_resend}
use quic_web_rtc_like.Chownat.Delivery.{Ignores}
use quic_web_rtc_like.Chownat.Msg
use quic_web_rtc_like.Chownat.Reason
use quic_web_rtc_like.Chownat.Seen.{connect-seen, on_resend-seen}
use quic_web_rtc_like.Chownat.Upload.{
  Keeps, Keeps-refl, standing, carried, carries, rest_of, disconnect_recv-carried,
  disconnect_recv-standing, disconnect_recv-numbered, shut, number,
}

mark_closed-standing : (c : St) → standing (mark_closed c) ≡ standing c
mark_closed-standing c = ground arith

mark_closed-shut : (c : St) → shut (mark_closed c) ≡ true
mark_closed-shut c = ground arith

-- Nothing carried and nothing freed.
abbrev Alike : St → St → Type 0
Alike c c1 =
    (carried c1 ≡ carried c) × (standing c1 ≡ standing c) × (shut c1 ≡ false → number c1 ≡ number c)

module _ (os : Os) (callback : Callback) (ignores : Ignores callback) where
  pub connect-Keeps : (c : St) → Keeps c (connect callback c).1
  unfolding connect
  connect-Keeps c = record {
    amounts = carries (connect-seen os callback ignores c);
    pointers = grind (arith, ignores);
    closed = λ over. grind (arith, ignores);
    numbered = λ still. grind (arith, ignores);
  }

  on_resend-rest :
      (u : UdpSession) (d : Data) (msg : Bytes) (c : St)
      → rest_of (on_resend os callback u d msg c) ≡ rest_of c
  unfolding on_resend
  on_resend-rest u d msg c = grind (arith, ignores)

  on_resend-carried :
      (u : UdpSession) (d : Data) (msg : Bytes) (c : St)
      → carried (on_resend os callback u d msg c) ≡ carried c
  on_resend-carried u d msg c = carries (on_resend-seen os callback ignores u d msg c)

  on_packet-Alike :
      (u : UdpSession) (d : Data) (n : ℕ) (msg : Bytes) (c : St)
      → c.data_ptr ≡ some d
      → Alike c (on_packet os callback u d n msg c).2
  unfolding on_packet
  on_packet-Alike u d n msg c has = grind (arith, ignores)

  -- Reading from the peer carries nothing to it.
  dispatch-Alike :
      (fuel : ℕ) (u : UdpSession) (d : Data) (n : ℕ) (msg : Bytes) (c : St)
      → c.data_ptr ≡ some d
      → Alike c (dispatch os callback fuel u d n msg c).2
  unfolding dispatch
  dispatch-Alike fuel u d n msg c has = of_if X (ltb (length msg) 3) _ _ nothing (
      of_if X (starts_with Msg.close_request msg) _ _ closing (
        of_if X (starts_with Msg.confirm msg) _ _ nothing (
          of_if X (starts_with Msg.resend_tag msg) _ _ resent_some (
            of_if X (starts_with Msg.packet_tag msg) _ _ (on_packet-Alike u d n msg c has)
              nothing))))
    where
      X : Outcome Status × Bytes × St → Type 0
      X r = Alike c r.2

      nothing : Alike c c
      nothing = (refl, refl, λ still. refl)

      resent_some : Alike c (on_resend os callback u d msg c)
      resent_some = (
        on_resend-carried u d msg c,
        ap (λ v. v.0) (on_resend-rest u d msg c),
        λ still. ap (λ v. v.2) (on_resend-rest u d msg c),
      )

      closed_by :
          (o : Outcome Status) (c1 : St)
          → Alike c c1
          → X (elim o [
            | returned _ ↦ (returned err, [], mark_closed c1)
            | _ ↦ (out_of_fuel, [], c1)
          ])
      closed_by (returned s) c1 (e1, e2, e3) =
          (e1, mark_closed-standing c1 ∙ e2, λ still. absurd (ground (arith, mark_closed-shut c1)))
      closed_by exited c1 e = e
      closed_by out_of_fuel c1 e = e

      closing :
          let (o, c1) = disconnect_recv os fuel c in
          X (elim o [ returned _ ↦ (returned err, [], mark_closed c1) | _ ↦ (out_of_fuel, [], c1) ])
      closing = closed_by (disconnect_recv os fuel c).0 (disconnect_recv os fuel c).1 (
        disconnect_recv-carried os fuel c,
        disconnect_recv-standing os fuel c,
        disconnect_recv-numbered os fuel c,
      )

  pub udp_recv-Keeps : (fuel n : ℕ) (c : St) → Keeps c (udp_recv os callback fuel true n c).2
  unfolding udp_recv
  udp_recv-Keeps fuel n c = of_or_return X c.udp_session _ _ nothing λ u _.
      of_or_return X c.data_ptr _ _ nothing λ d has. of_or_return X c.ctrl _ _ nothing λ k _.
        of_if X (not k.init) _ _ nothing (elim (Bool-cases d.closed) [
          | inl over ↦ rw (over, X) nothing
          | inr still ↦
              rw (still, X) (by_input u d has still (os.input c.trace u.socket_fd packet_size))
        ])
    where
      X : Outcome Status × Option Bytes × St → Type 0
      X r = Keeps c r.2

      nothing : Keeps c c
      nothing = Keeps-refl c

      by_input :
          (u : UdpSession) (d : Data)
          → c.data_ptr ≡ some d
          → d.closed ≡ false
          → (i : Input)
          → let c1 : St = record c { trace = read u.socket_fd packet_size i ∷ c.trace } in
            X (elim i as (λ i. Outcome Status × Option Bytes × St) [
              | no_input e ↦ (returned err, some [], mark_closed c1)
              | got msg ↦
                  let (o, out, c2) = dispatch os callback fuel u d n msg c1 in (o, some out, c2)
            ])
      by_input u d has still (no_input e) = record {
        amounts = refl;
        pointers = ground arith;
        closed = λ over. ground arith;
        numbered = λ still. ground arith;
      }
      by_input u d has still (got msg) =
          let c1 : St = record c { trace = read u.socket_fd packet_size (got msg) ∷ c.trace } in
          record {
            amounts = (dispatch-Alike fuel u d n msg c1 has).0;
            pointers = (dispatch-Alike fuel u d n msg c1 has).1;
            closed = λ over. absurd (ground arith);
            numbered = (dispatch-Alike fuel u d n msg c1 has).2;
          }

  -- Sending: what is reported as sent is the payload, and nothing where the result is an error.
  pub udp_send-carried :
      (b : Bytes) (c : St)
      → let (s, _, c1) = udp_send os callback b c in
        (taken c1.trace ≡ taken c.trace)
        × (told Reason.udp_data_sent c1.trace ≡ (
            if is_error s
            then told Reason.udp_data_sent c.trace
            else told Reason.udp_data_sent c.trace ++ b))
        × (standing c1 ≡ standing c)
  unfolding udp_send
  udp_send-carried b c = grind (arith, ignores)
