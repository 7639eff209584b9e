-- ===== src/Prototype/Bounds.antt =====
-- The numbers of the first programs stay in range.
use quic_web_rtc_like.Base.{
  ℕ, zero, suc, ◌+◌, ◌-◌, ◌%◌, ◌<◌, true, false, Bool, [], ◌∷◌, Bytes, ℤ, arith, inl, inr, some,
  Option, pos, if◌then◌else◌,
}
use quic_web_rtc_like.Sys.{
  Os, Input-cases, Selected-cases, Ret-cases, Trace, Timeval, receive, perform, waited, send_to,
  accept,
}
use quic_web_rtc_like.Chownat.Msg
use quic_web_rtc_like.Chownat.Transfer.{number_of}
use quic_web_rtc_like.Prototype.{
  Ends, State, Ran, goes, exits, out_of_fuel, and_then, hear, says, resent, forward, next_id,
  resend_rounds, close_sock, reset, watch,
}
use quic_web_rtc_like.Prototype.Client

-- The packet number fits the byte that carries it, and the expected number is below a limit.
abbrev pub InRange : ℕ → State → Type 0
InRange limit s = (s.id < 256) × (s.expected < limit)

-- A part of a program that goes on leaves them in range.
abbrev pub Keeps : ℕ → Ran → Type 0
Keeps limit (goes s) = InRange limit s
Keeps limit (exits t) = Unit
Keeps limit (out_of_fuel t) = Unit

pub next_id-lt : (n : ℕ) → n < 256 → next_id n < 256
unfolding next_id
next_id-lt n h = ground arith

module _ (limit : ℕ) where
  pub and_then-Keeps :
      (r : Ran) (k : State → Ran)
      → Keeps limit r
      → ((s : State) → InRange limit s → Keeps limit (k s))
      → Keeps limit (and_then r k)
  and_then-Keeps (goes s) k v h = h s v
  and_then-Keeps (exits t) k v h = tt
  and_then-Keeps (out_of_fuel t) k v h = tt

  pub if-Keeps :
      (b : Bool) (r r' : Ran) → Keeps limit r → Keeps limit r' → Keeps limit (if b then r else r')
  if-Keeps true r r' k k' = k
  if-Keeps false r r' k k' = k'

  pub resend_rounds-InRange :
      (os : Os) (e : Ends) (n i : ℕ) (s : State)
      → InRange limit s
      → InRange limit (resend_rounds os e n i s)
  unfolding resend_rounds
  resend_rounds-InRange os e zero i s v = v
  resend_rounds-InRange os e (suc n) i s v =
      resend_rounds-InRange os e n ((i + 1) % 256) (says os e (resent s i) s) v

  pub forward-InRange :
      (os : Os) (e : Ends) (b : Bytes) (s : State)
      → InRange limit s
      → InRange limit (forward os e b s)
  unfolding forward
  forward-InRange os e b s v = (next_id-lt s.id v.0, v.1)

module _ (os : Os) (e : Ends) where
  client_closing-Keeps :
      (fuel : ℕ) (s : State) → InRange 255 s → Keeps 255 (Client.disconnect_rounds os e fuel s)
  unfolding Client.disconnect_rounds
  client_closing-Keeps zero s v = tt
  client_closing-Keeps (suc f) s v =
      let heard = hear os e s.bye s.trace in
      let rest = client_closing-Keeps f (record s { bye = heard.0; trace = heard.1 }) v in
      ground (arith, rest)

  client_end-Keeps : (fuel : ℕ) (s : State) → Keeps 255 (Client.end_session os e fuel s)
  unfolding Client.end_session Client.chownat_disconnect close_sock
  client_end-Keeps fuel s =
      and_then-Keeps 255 _ _
        (client_closing-Keeps fuel (says os e Msg.close_request (reset s))
          (omega arith, omega arith))
        λ x v. v

  client_packet-Keeps :
      (msg : Bytes) (s : State) → InRange 255 s → Keeps 255 (Client.on_packet os e msg s)
  unfolding Client.on_packet Client.next_expected
  client_packet-Keeps msg s v = ground arith

  client_dispatch-Keeps :
      (fuel : ℕ) (msg : Bytes) (s : State)
      → InRange 255 s
      → Keeps 255 (Client.dispatch os e fuel msg s)
  unfolding Client.dispatch
  client_dispatch-Keeps fuel msg s v =
      let number = number_of msg in
      ground (
        arith,
        client_end-Keeps fuel s,
        client_packet-Keeps msg s v,
        resend_rounds-InRange 255 os e (s.id - number) number s v,
      )

  client_tcp-Keeps : (fuel : ℕ) (s : State) → InRange 255 s → Keeps 255 (Client.on_tcp os e fuel s)
  unfolding Client.on_tcp
  client_tcp-Keeps fuel s v =
      let (i, t) = receive os s.sock Client.size s.trace in
      let s1 = record s { trace = t } in
      elim (Input-cases i) [
        | inl ([], read) ↦ ground (arith, read, client_end-Keeps fuel s1)
        | inl (b ∷ bs, read) ↦ ground (arith, read, forward-InRange 255 os e (b ∷ bs) s1 v)
        | inr (x, read) ↦ ground (arith, read)
      ]

  client_udp-Keeps : (fuel : ℕ) (s : State) → InRange 255 s → Keeps 255 (Client.on_udp os e fuel s)
  unfolding Client.on_udp
  client_udp-Keeps fuel s v =
      let (i, t) = receive os e.chownat 4093 s.trace in
      elim (Input-cases i) [
        | inl (msg, read) ↦
            ground (arith, read, client_dispatch-Keeps fuel msg (record s { trace = t }) v)
        | inr (x, read) ↦ ground (arith, read)
      ]

  -- Whatever is read, a round of the first client's inner loop that goes on leaves its packet
  -- number below 256 and its expected number below 255, if they were.
  pub client_ready-Keeps :
      (fuel : ℕ) (s : State) → InRange 255 s → Keeps 255 (Client.on_ready os e fuel s)
  unfolding Client.on_ready
  client_ready-Keeps fuel s v = ground (arith, client_tcp-Keeps fuel s v, client_udp-Keeps fuel s v)

  client_rounds-Keeps :
      (fuel : ℕ) (s : State) → InRange 255 s → Keeps 255 (Client.ready_rounds os e fuel s)
  unfolding Client.ready_rounds
  client_rounds-Keeps zero s v = tt
  client_rounds-Keeps (suc f) s v =
      let tv : Option Timeval = some (record { tv_sec = 0; tv_usec = 1000 }) in
      let r = os.select s.trace s.read_fds tv in
      let t : Trace = waited s.read_fds tv r ∷ s.trace in
      elim (Selected-cases r) [
        | inl ([], chosen) ↦ ground (arith, chosen)
        | inl (fd ∷ fds, chosen) ↦
            (let s1 = record s { read_fds = fd ∷ fds; trace = t } in
              ground (
                arith,
                chosen,
                and_then-Keeps 255 (Client.on_ready os e f s1) (Client.ready_rounds os e f)
                    (client_ready-Keeps f s1 v) (client_rounds-Keeps f),
              ))
        | inr (x, chosen) ↦ ground (arith, chosen)
      ]

  client_session-Keeps :
      (fuel : ℕ) (s : State) → InRange 255 s → Keeps 255 (Client.session_rounds os e fuel s)
  unfolding Client.session_rounds
  client_session-Keeps zero s v = tt
  client_session-Keeps (suc f) s v = if-Keeps 255 s.closed _ _ v (
      and_then-Keeps 255 _ _ (client_rounds-Keeps f (watch e s) v) λ s1 v1.
        let (r, t) = perform os (send_to e.chownat Client.keep_alive e.dst) s1.trace in
        ground (arith, client_session-Keeps f (record s1 { trace = t }) v1))

  client_connect-Keeps :
      (fuel : ℕ) (s : State) → InRange 255 s → Keeps 255 (Client.client_connect os e fuel s)
  unfolding Client.client_connect
  client_connect-Keeps zero s v = tt
  client_connect-Keeps (suc f) s v =
      let heard = hear os e s.hello (says os e Msg.open_request s).trace in
      ground (arith, client_connect-Keeps f (record s { hello = heard.0; trace = heard.1 }) v)

  -- So they are in range when the program ends.
  pub accept_rounds-Keeps :
      (waitcli : ℤ) (fuel : ℕ) (s : State)
      → InRange 255 s
      → Keeps 255 (Client.accept_rounds os e waitcli fuel s)
  unfolding Client.accept_rounds
  accept_rounds-Keeps waitcli zero s v = tt
  accept_rounds-Keeps waitcli (suc f) s v =
      let (r, t) = perform os (accept waitcli) s.trace in
      elim (Ret-cases r) [
        | inl (n, made) ↦
            (let s1 = record s { sock = pos n; trace = t } in
              rw made (
                and_then-Keeps 255 _ _ (client_connect-Keeps f s1 v) λ s2 v2.
                  and_then-Keeps 255 _ _
                    (client_session-Keeps f (record s2 { closed = false; id = 0; expected = 0 })
                      (omega arith, omega arith))
                    (accept_rounds-Keeps waitcli f)))
        | inr (x, made) ↦ ground (arith, made)
      ]
