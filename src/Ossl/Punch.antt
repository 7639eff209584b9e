-- ===== src/Ossl/Punch.antt =====
-- source/libs/protocols/ossl_quic/src/ossl_quic.c: ossl_quic_hole_punching, the one that is compiled.
-- A read with MSG_DONTWAIT is a read like any other here, since the system's answers are arbitrary;
-- the pause between the messages is not recorded.
use quic_web_rtc_like.Base.{
  ℕ, zero, suc, Bool, true, false, not, ◌&&◌, Bytes, [], ◌∷◌, pos, or_return, length, starts_with,
  ◌==◌, if◌then◌else◌,
}
use quic_web_rtc_like.Sys.{
  Os, Trace, Outcome, returned, exited, out_of_fuel, ret, fail, failed, eintr, again, other, got,
  no_input, send_to, set_sock_opt, rcv_timeout, perform, receive,
}
use quic_web_rtc_like.Conn.{Status, ok, err, unknown_mode, is_error, UdpSession, Conn}

-- `msg`
abbrev pub probe : Bytes
probe = b'0' ∷ b'1' ∷ 10 ∷ []

-- `nread == 3 && memcmp(buffer, msg, 3) == 0`
abbrev pub is_probe : Bytes → Bool
is_probe b = (length b == 3) && starts_with probe b

module _ (os : Os) (u : UdpSession) where
  -- The server's keep-alive after a timeout, sent again while it is interrupted.
  unfoldable pub knock : ℕ → Trace → Outcome Bool × Trace
  knock zero t = (out_of_fuel, t)
  knock (suc f) t =
      let (r, t1) = perform os (send_to u.socket_fd (0 ∷ []) u.dst) t in
      elim r [
        | ret n ↦ (returned (n == 1), t1)
        | fail eintr ↦ knock f t1
        | fail again ↦ (returned false, t1)
        | fail (other n) ↦ (returned false, t1)
      ]

  -- The discovery: a client sends, both listen, until the other end's message comes. The result
  -- is true for `break` and false for an error.
  unfoldable pub discover : Bool → ℕ → Trace → Outcome Bool × Trace
  unfolding knock
  discover client zero t = (out_of_fuel, t)
  discover client (suc f) t = elim client [
    | true ↦
        let (r, t1) = perform os (send_to u.socket_fd probe u.dst) t in
        elim r [
          | fail eintr ↦ discover client f t1
          | fail again ↦ (returned false, t1)
          | fail (other n) ↦ (returned false, t1)
          | ret n ↦
              let (i, t2) = receive os u.socket_fd 3 t1 in
              elim i [
                | no_input (other n) ↦ (returned false, t2)
                | no_input eintr ↦ discover client f t2
                | no_input again ↦ discover client f t2
                | got b ↦ elim (is_probe b) [
                  | true ↦ (returned true, t2)
                  | false ↦ discover client f t2
                ]
              ]
        ]
    | false ↦
        let (i, t2) = receive os u.socket_fd 3 t in
        elim i [
          | no_input (other n) ↦ (returned false, t2)
          | no_input eintr ↦ discover client f t2
          | no_input again ↦
              let (o, t3) = knock f t2 in
              elim o [
                | returned true ↦ discover client f t3
                | returned false ↦ (returned false, t3)
                | exited ↦ (exited, t3)
                | out_of_fuel ↦ (out_of_fuel, t3)
              ]
          | got b ↦ elim (is_probe b) [ true ↦ (returned true, t2) | false ↦ discover client f t2 ]
        ]
  ]

  -- The ten messages that follow, on the rounds left, with `hole_punched`.
  unfoldable pub transient : ℕ → Bool → Trace → Status × Bool × Trace
  transient zero punched t = (ok, punched, t)
  transient (suc n) punched t =
      let (r, t1) = perform os (send_to u.socket_fd probe u.dst) t in
      elim r [
        | fail eintr ↦ transient n punched t1
        | fail again ↦ (err, punched, t1)
        | fail (other k) ↦ (err, punched, t1)
        | ret k ↦ elim punched [
          | true ↦ transient n true t1
          | false ↦
              let (i, t2) = receive os u.socket_fd 3 t1 in
              elim i [
                | got b ↦ transient n (is_probe b) t2
                | no_input eintr ↦ transient n false t2
                | no_input again ↦ transient n false t2
                | no_input (other k) ↦ (err, false, t2)
              ]
        ]
      ]

  -- After both phases: the timeout is put back, and the result is what the second one has seen.
  unfoldable pub conclude : Status × Bool × Trace → Outcome Status × Trace
  conclude (s, punched, t) =
      let (r, t1) = perform os (set_sock_opt u.socket_fd (rcv_timeout (pos 0))) t in
      if is_error s
      then (returned s, t)
      else if failed r
      then (returned err, t1)
      else (returned (if punched then ok else err), t1)

  -- After the checks: the timeout of a second, then both phases.
  unfoldable pub punch : Bool → ℕ → Trace → Outcome Status × Trace
  punch client fuel t =
      let (r, t1) = perform os (set_sock_opt u.socket_fd (rcv_timeout (pos 1))) t in
      if failed r
      then (returned err, t1)
      else let (o, t2) = discover client fuel t1 in
        elim o [
          | exited ↦ (exited, t2)
          | out_of_fuel ↦ (out_of_fuel, t2)
          | returned false ↦ (returned err, t2)
          | returned true ↦ conclude (transient 10 false t2)
        ]

unfoldable pub hole_punching : {D C : Type 0} → Os → ℕ → Conn D C → Outcome Status × Conn D C
unfolding punch
hole_punching os fuel c =
    or_return c.udp_session (returned err, c)
      λ u.
        or_return c.ctrl (returned err, c)
          λ k.
            if not (k.mode == b'c') && not (k.mode == b's')
            then (returned unknown_mode, c)
            else let (o, t) = punch os u (k.mode == b'c') fuel c.trace in
              (o, record c { trace = t })
