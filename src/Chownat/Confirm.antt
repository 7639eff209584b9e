-- ===== src/Chownat/Confirm.antt =====
-- source/libs/protocols/chownat/src/chownat.c: the loop that sends "03\n" until "03\n" comes back.
-- It stands twice in the source, in the server's half of chownat_hole_punching and in
-- chownat_disconnect_recv, with the same code.
use quic_web_rtc_like.Base.{
  ℕ, zero, suc, ◌+◌, Bool, true, false, Option, none, some, Bytes, ℤ, pos, ltb_ℤ, overwrite,
  starts_with, if◌then◌else◌,
}
use quic_web_rtc_like.Sys.{Os, Trace, send_to, got, no_input, perform, receive}
use quic_web_rtc_like.Conn.{UdpSession}
use quic_web_rtc_like.Chownat.Msg

-- Whether the confirmation came, the buffer and the history. Only a failed read counts as an
-- attempt, so the loop takes fuel; `none` is a fuel that does not suffice, without the history. A short read leaves the
-- rest of the buffer as it was.
unfoldable pub confirm_rounds :
    Os → UdpSession → ℤ → ℕ → ℕ → Bytes → Trace → Option (Bool × Bytes × Trace)
confirm_rounds os u attempts_max zero attempts buf t = none
confirm_rounds os u attempts_max (suc f) attempts buf t = elim (ltb_ℤ (pos attempts) attempts_max) [
  | false ↦ some (false, buf, t)
  | true ↦
      let (_, t1) = perform os (send_to u.socket_fd Msg.confirm u.dst) t in
      let (i, t2) = receive os u.socket_fd 3 t1 in
      elim i [
        | no_input e ↦ confirm_rounds os u attempts_max f (attempts + 1) buf t2
        | got b ↦
            let rest = confirm_rounds os u attempts_max f attempts (overwrite b buf) t2 in
            if starts_with Msg.confirm (overwrite b buf)
            then some (true, overwrite b buf, t2)
            else rest
      ]
]
