-- ===== src/Chownat/Punch.antt =====
-- source/libs/protocols/chownat/src/chownat.c: chownat_hole_punching.
use quic_web_rtc_like.Base.{
  ℕ, zero, suc, ◌+◌, Bool, true, false, not, none, some, Bytes, ℤ, pos, ltb_ℤ, to_ℕ, or_return,
  overwrite, starts_with, ◌==◌, if◌then◌else◌,
}
use quic_web_rtc_like.Sys.{
  Os, Trace, Outcome, returned, exited, out_of_fuel, send_to, got, no_input, perform, receive,
}
use quic_web_rtc_like.Conn.{Status, ok, err, not_init, UdpSession}
use quic_web_rtc_like.Chownat.State.{St}
use quic_web_rtc_like.Chownat.Msg
use quic_web_rtc_like.Chownat.Confirm.{confirm_rounds}
use quic_web_rtc_like.Chownat.Setup.{send_keep_alive}

-- The client's loop. Every round that does not end it counts as an attempt, so it recurs on the
-- attempts left. `buffer` is declared inside the loop, so each round begins with what the stack holds.
unfoldable pub client_rounds : Os → UdpSession → ℕ → Trace → Bool × Trace
client_rounds os u zero t = (false, t)
client_rounds os u (suc n) t =
    let (_, t1) = perform os (send_to u.socket_fd Msg.open_request u.dst) t in
    let (i, t2) = receive os u.socket_fd 3 t1 in
    elim i [
      | no_input e ↦ client_rounds os u n t2
      | got b ↦
          let rest = client_rounds os u n t2 in
          if starts_with Msg.confirm (overwrite b (os.garbage t1))
          then (true, (perform os (send_to u.socket_fd Msg.confirm u.dst) t2).1)
          else rest
    ]

-- The server's loop. A failed read sends a keep-alive and counts as an attempt; any other message
-- does not count, nor does an opened connection that is never confirmed (the inner loop has an
-- `attempts` of its own).
unfoldable pub server_rounds : Os → UdpSession → ℤ → ℕ → ℕ → Bytes → St → Outcome Status × St
server_rounds os u attempts_max zero attempts buf c = (out_of_fuel, c)
server_rounds os u attempts_max (suc f) attempts buf c = elim (ltb_ℤ (pos attempts) attempts_max) [
  | false ↦ (returned err, c)
  | true ↦
      let (i, t1) = receive os u.socket_fd 3 c.trace in
      elim i [
        | no_input e ↦
            let (o, c2) = send_keep_alive os (record c { trace = t1 }) in
            elim o [
              | returned _ ↦ server_rounds os u attempts_max f (attempts + 1) buf c2
              | exited ↦ (exited, c2)
              | out_of_fuel ↦ (out_of_fuel, c2)
            ]
        | got b ↦ elim (starts_with Msg.open_request (overwrite b buf)) [
          | false ↦
              server_rounds os u attempts_max f attempts (overwrite b buf) (record c { trace = t1 })
          | true ↦ elim (confirm_rounds os u attempts_max f 0 (overwrite b buf) t1) [
            | none ↦ (out_of_fuel, c)
            | some (confirmed, buf', t2) ↦
                let rest =
                  server_rounds os u attempts_max f attempts buf' (record c { trace = t2 }) in
                if confirmed then (returned ok, record c { trace = t2 }) else rest
          ]
        ]
      ]
]

unfoldable pub hole_punching : Os → ℕ → St → Outcome Status × St
unfolding client_rounds server_rounds
hole_punching os fuel c =
    or_return c.config (returned err, c)
      λ cfg.
        or_return c.udp_session (returned err, c)
          λ u.
            or_return c.ctrl (returned err, c)
              λ k.
                if not k.init
                then (returned not_init, c)
                else if k.mode == b'c'
                then (let (opened, t) = client_rounds os u (to_ℕ cfg.conn_max_attempts) c.trace in
                    (returned (if opened then ok else err), record c { trace = t }))
                else if k.mode == b's'
                then server_rounds os u cfg.conn_max_attempts fuel 0 (os.garbage c.trace) c
                else (returned err, c)
