-- ===== src/Prototype/ServerBounds.antt =====
-- The numbers of the first server stay in range.
use quic_web_rtc_like.Base.{
  ℕ, zero, suc, ◌-◌, List, [], ◌∷◌, Bytes, ℤ, arith, inl, inr, eqb_ℤ, minus_one, not, ◌&&◌, some,
  Option,
}
use quic_web_rtc_like.Sys.{Os, Timeval, Input-cases, receive, waited, is_in}
use quic_web_rtc_like.Chownat.Msg
use quic_web_rtc_like.Chownat.Transfer.{number_of}
use quic_web_rtc_like.Prototype.{Ends, State, says, hear, reset, close_sock}
use quic_web_rtc_like.Prototype.Server.{
  disconnect_rounds, chownat_disconnect, end_session, on_tcp, confirm_rounds, on_open, on_packet,
  dispatch, on_udp, on_ready, size,
}
use quic_web_rtc_like.Prototype.Bounds.{
  InRange, Keeps, and_then-Keeps, if-Keeps, forward-InRange, resend_rounds-InRange, next_id-lt,
}

module _ (os : Os) (e : Ends) where
  disconnect_rounds-Keeps :
      (fuel : ℕ) (s : State) → InRange 256 s → Keeps 256 (disconnect_rounds os e fuel s)
  unfolding disconnect_rounds
  disconnect_rounds-Keeps zero s v = tt
  disconnect_rounds-Keeps (suc f) s v =
      let tv : Option Timeval = some (record { tv_sec = 2; tv_usec = 0 }) in
      let r = os.select s.trace (e.chownat ∷ []) tv in
      let heard = hear os e s.bye (waited (e.chownat ∷ []) tv r ∷ s.trace) in
      ground (arith, disconnect_rounds-Keeps f (record s { bye = heard.0; trace = heard.1 }) v)

  end_session-Keeps :
      (fuel : ℕ) (last : State → State) (s : State)
      → ((x : State) → InRange 256 x → InRange 256 (last x))
      → Keeps 256 (end_session os e fuel last s)
  unfolding end_session chownat_disconnect close_sock
  end_session-Keeps fuel last s h =
      and_then-Keeps 256 _ _
        (disconnect_rounds-Keeps fuel (says os e Msg.close_request (reset s))
          (omega arith, omega arith))
        λ x v. h x v

  on_tcp-Keeps : (fuel : ℕ) (s : State) → InRange 256 s → Keeps 256 (on_tcp os e fuel s)
  unfolding on_tcp
  on_tcp-Keeps fuel s v =
      let (i, t) = receive os s.sock size s.trace in
      let s1 = record s { trace = t } in
      elim (Input-cases i) [
        | inl ([], read) ↦ ground (arith, read, end_session-Keeps fuel (λ x. x) s1 (λ x w. w))
        | inl (b ∷ bs, read) ↦ ground (arith, read, forward-InRange 256 os e (b ∷ bs) s1 v)
        | inr (x, read) ↦ ground (arith, read)
      ]

  confirm_rounds-Keeps :
      (fuel : ℕ) (s : State) → InRange 256 s → Keeps 256 (confirm_rounds os e fuel s)
  unfolding confirm_rounds
  confirm_rounds-Keeps zero s v = tt
  confirm_rounds-Keeps (suc f) s v =
      let heard = hear os e s.hello (says os e Msg.confirm s).trace in
      ground (arith, confirm_rounds-Keeps f (record s { hello = heard.0; trace = heard.1 }) v)

  on_open-Keeps : (fuel : ℕ) (s : State) → InRange 256 s → Keeps 256 (on_open os e fuel s)
  unfolding on_open close_sock
  on_open-Keeps fuel s v =
      and_then-Keeps 256 _ _ (confirm_rounds-Keeps fuel s v) λ s1 v1. ground (arith, v1)

  on_packet-Keeps : (msg : Bytes) (s : State) → InRange 256 s → Keeps 256 (on_packet os e msg s)
  unfolding on_packet
  on_packet-Keeps msg s v = ground (arith, next_id-lt s.expected v.1)

  dispatch-Keeps :
      (fuel : ℕ) (msg : Bytes) (s : State) → InRange 256 s → Keeps 256 (dispatch os e fuel msg s)
  unfolding dispatch
  dispatch-Keeps fuel msg s v =
      let number = number_of msg in
      ground (
        arith,
        on_open-Keeps fuel s v,
        end_session-Keeps fuel (says os e Msg.close_request) s (λ x w. w),
        on_packet-Keeps msg s v,
        resend_rounds-InRange 256 os e (s.id - number) number s v,
      )

  on_udp-Keeps : (fuel : ℕ) (s : State) → InRange 256 s → Keeps 256 (on_udp os e fuel s)
  unfolding on_udp
  on_udp-Keeps fuel s v =
      let (i, t) = receive os e.chownat size s.trace in
      let s1 = record s { trace = t } in
      elim (Input-cases i) [
        | inl ([], read) ↦ ground (arith, read, end_session-Keeps fuel (λ x. x) s1 (λ x w. w))
        | inl (b ∷ bs, read) ↦ ground (arith, read, v, dispatch-Keeps fuel (b ∷ bs) s1 v)
        | inr (x, read) ↦ ground (arith, read)
      ]

  -- Whatever becomes readable and whatever is read, a round of the first server's loop that goes
  -- on leaves both its numbers below 256, if they were.
  pub server_ready-Keeps :
      (fuel : ℕ) (fds : List ℤ) (s : State) → InRange 256 s → Keeps 256 (on_ready os e fuel fds s)
  unfolding on_ready
  server_ready-Keeps fuel fds s v =
      and_then-Keeps 256 _ _
        (and_then-Keeps 256 _ _
          (if-Keeps 256 (not (eqb_ℤ s.sock minus_one) && is_in s.sock fds) _ _
            (on_tcp-Keeps fuel s v) v)
          λ s1 v1. if-Keeps 256 (is_in e.chownat fds) _ _ (on_udp-Keeps fuel s1 v1) v1)
        λ s2 v2. v2
