-- ===== src/Chownat/Transfer.antt =====
-- source/libs/protocols/chownat/src/chownat.c: chownat_udp_send and chownat_udp_recv, the numbered
-- packets, the request for a lost one and its retransmission.
use quic_web_rtc_like.Base.{
  ℕ, zero, suc, ◌+◌, ◌-◌, ◌%◌, ◌^◌, min, Bool, not, Option, none, some, [], ◌∷◌, Bytes, or_return,
  length, take, drop, overwrite, starts_with, update, ltb, ◌==◌, if◌then◌else◌,
}
use quic_web_rtc_like.Sys.{
  Os, Trace, Outcome, returned, out_of_fuel, ret, fail, send_to, got, no_input, perform,
}
use quic_web_rtc_like.Conn.{
  Status, ok, err, not_init, ok_truncated, UdpSession, call, run, receive_on, notify,
}
use quic_web_rtc_like.Conn.{closed as status_closed}
use quic_web_rtc_like.Chownat.State.{Data, St, Callback, mtu, packet_size, mark_closed}
use quic_web_rtc_like.Chownat.Reason
use quic_web_rtc_like.Chownat.Msg
use quic_web_rtc_like.Chownat.Disconnect.{disconnect_recv}

-- `n++; if (n == 256) n = 0;`
unfoldable pub next_number : ℕ → ℕ
next_number n = if n + 1 == 256 then 0 else n + 1

-- The payload is kept in its row, with its size, and the packet number moves on.
unfoldable pub store : Bytes → Data → Data
unfolding next_number
store payload d = record d {
  buffer = update d.buffer d.id (overwrite payload (d.buffer d.id));
  sizes = update d.sizes d.id (length payload);
  id = next_number d.id;
}

-- The option is what `*sent_bytes` becomes, if it is written: `sent - 3` as a `size_t`.
unfoldable pub udp_send : Os → Callback → Bytes → St → Status × Option ℕ × St
unfolding store
udp_send os callback payload c =
    or_return c.udp_session (err, none, c)
      λ u.
        or_return c.data_ptr (err, none, c)
          λ d.
            or_return c.ctrl (err, none, c)
              λ k.
                if not k.init
                then (not_init, none, c)
                else if d.closed
                then (status_closed, none, c)
                else if ltb mtu (length payload)
                then (err, none, c)
                else let kept = record c { data_ptr = some (store payload d) } in
                  let (r, c1) =
                    call os (send_to u.socket_fd (Msg.packet d.id payload) u.dst) kept in
                  elim r [
                    | fail e ↦ (err, none, c1)
                    | ret sent ↦ (
                      ok,
                      some ((sent + 2 ^ 64 - 3) % 2 ^ 64),
                      notify callback Reason.udp_data_sent payload c1,
                    )
                  ]

-- What a retransmission sends of packet `i`: the source gives `sendto` the size of the payload, not
-- of the packet.
unfoldable pub resent : Data → ℕ → Bytes
resent d i = take (d.sizes i) (Msg.packet i (take (d.sizes i) (d.buffer i)))

-- `for (uint8_t i = got; i < data->id; i++)`, on the rounds left: at `id < 256` the 8-bit `i`
-- reaches `id` before it wraps.
unfoldable pub resend_rounds : Os → UdpSession → Data → ℕ → ℕ → Trace → Trace
unfolding resent
resend_rounds os u d zero i t = t
resend_rounds os u d (suc n) i t =
    resend_rounds os u d n ((i + 1) % 256) (perform os (send_to u.socket_fd (resent d i) u.dst) t).1

-- The third byte of a message, as `uint8_t`.
abbrev pub number_of : Bytes → ℕ
number_of (a ∷ b ∷ n ∷ rest) = n % 256
number_of _ = 0

-- "08": packets from the requested number on are sent again.
unfoldable pub on_resend : Os → Callback → UdpSession → Data → Bytes → St → St
unfolding resend_rounds
on_resend os callback u d msg c =
    let t = resend_rounds os u d (d.id - number_of msg) (number_of msg) c.trace in
    notify callback Reason.udp_lost_data msg (record c { trace = t })

-- "09": the expected packet is delivered, up to the `nbytes` of the caller's buffer; for any other
-- the expected one is requested. The list is what is written to the caller's buffer.
unfoldable pub on_packet : Os → Callback → UdpSession → Data → ℕ → Bytes → St → Status × Bytes × St
unfolding next_number
on_packet os callback u d nbytes msg c =
    if not (number_of msg == d.expected)
    then (ok, [], run os (send_to u.socket_fd (Msg.resend d.expected) u.dst) c)
    else let payload = drop 3 msg in
      let copied = take (min (length payload) nbytes) payload in
      let advanced = record d { expected = next_number d.expected } in
      let c1 =
        notify callback Reason.udp_recv_data copied (record c { data_ptr = some advanced }) in
      (if ltb (length copied) (length payload) then ok_truncated else ok, copied, c1)

-- The tests on a message that was received, in the order of the source.
unfoldable pub dispatch :
    Os → Callback → ℕ → UdpSession → Data → ℕ → Bytes → St → Outcome Status × Bytes × St
unfolding disconnect_recv on_resend on_packet
dispatch os callback fuel u d nbytes msg c =
    if ltb (length msg) 3
    then (returned ok, [], c)
    else if starts_with Msg.close_request msg
    then (let (o, c1) = disconnect_recv os fuel c in
        elim o [ returned _ ↦ (returned err, [], mark_closed c1) | _ ↦ (out_of_fuel, [], c1) ])
    else if starts_with Msg.confirm msg
    then (returned ok, [], c)
    else if starts_with Msg.resend_tag msg
    then (returned ok, [], on_resend os callback u d msg c)
    else if starts_with Msg.packet_tag msg
    then (let (s, out, c1) = on_packet os callback u d nbytes msg c in (returned s, out, c1))
    else (returned ok, [], c)

-- The option is what the caller's buffer and `*recv_bytes` get: `none` leaves both alone, `some b`
-- copies `b` and stores its length. `has_out` says that neither `buf` nor `recv_bytes` is NULL.
unfoldable pub udp_recv : Os → Callback → ℕ → Bool → ℕ → St → Outcome Status × Option Bytes × St
unfolding dispatch
udp_recv os callback fuel has_out nbytes c =
    or_return c.udp_session (returned err, none, c)
      λ u.
        or_return c.data_ptr (returned err, none, c)
          λ d.
            or_return c.ctrl (returned err, none, c)
              λ k.
                if not has_out
                then (returned err, none, c)
                else if not k.init
                then (returned not_init, some [], c)
                else if d.closed
                then (returned status_closed, some [], c)
                else let (i, c1) = receive_on os u.socket_fd packet_size c in
                  elim i [
                    | no_input e ↦ (returned err, some [], mark_closed c1)
                    | got msg ↦
                        let (o, out, c2) = dispatch os callback fuel u d nbytes msg c1 in
                        (o, some out, c2)
                  ]
