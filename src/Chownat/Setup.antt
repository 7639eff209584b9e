-- ===== src/Chownat/Setup.antt =====
-- source/libs/protocols/chownat/src/chownat.c: init, deinit, is_closed, get_timeout, connect and
-- the keep-alive. A NULL pointer is `none`; the trace records the system calls.
use quic_web_rtc_like.Base.{
  ℕ, true, false, not, Option, none, some, [], pos, ltb_ℤ, or_return, replicate, if◌then◌else◌,
}
use quic_web_rtc_like.Sys.{
  Os, Outcome, returned, exited, failed, close, set_sock_opt, rcv_timeout, reuse_addr, bind,
  send_to,
}
use quic_web_rtc_like.Conn.{Status, ok, err, already_init, not_init, call, run, notify}
use quic_web_rtc_like.Conn.{closed as status_closed}
use quic_web_rtc_like.Chownat.State.{Data, St, Callback, packet_size}
use quic_web_rtc_like.Chownat.Reason
use quic_web_rtc_like.Chownat.Msg
use quic_web_rtc_like.Chownat.Disconnect.{disconnect_send}

-- The counters and buffers that `init` clears.
abbrev pub cleared : Data → Data
cleared d = record d {
  closed = false;
  id = 0;
  expected = 0;
  buffer = λ _. replicate packet_size 0;
  sizes = λ _. 0;
}

unfoldable pub init : Os → St → Status × St
init os c =
    or_return c.data_ptr (err, c)
      λ d.
        or_return c.config (err, c)
          λ cfg.
            or_return c.udp_session (err, c)
              λ u.
                or_return c.ctrl (err, c)
                  λ k.
                    if not c.has_callback
                    then (err, c)
                    else if k.init
                    then (already_init, c)
                    else let (r1, c1) =
                        call os (set_sock_opt u.socket_fd (rcv_timeout cfg.udp_recv_timeout_sec))
                          c in
                      if failed r1
                      then (err, run os (close u.socket_fd) c1)
                      else let (r2, c2) =
                          call os (set_sock_opt u.socket_fd (reuse_addr cfg.reuse)) c1 in
                        if failed r2
                        then (err, run os (close u.socket_fd) c2)
                        else let (r3, c3) = call os (bind u.socket_fd u.src) c2 in
                          if failed r3 then (err, c3) else (
                            ok,
                            record c3 {
                              ctrl = some (record k { init = true });
                              data_ptr = some (cleared d);
                            },
                          )

-- `close` of the descriptors above 0, in the order of the source; the fields keep their numbers.
unfoldable pub close_sockets : Os → St → St
close_sockets os c = or_return c.tcp_session c λ tcp.
    let c1 = if ltb_ℤ (pos 0) tcp.accepted_sock then run os (close tcp.accepted_sock) c else c in
    if ltb_ℤ (pos 0) tcp.socket_fd then run os (close tcp.socket_fd) c1 else c1

unfoldable pub deinit : Os → St → Status × St
unfolding disconnect_send close_sockets
deinit os c =
    or_return c.udp_session (err, c)
      λ u.
        or_return c.ctrl (err, c)
          λ k.
            or_return c.data_ptr (err, c)
              λ d.
                if not k.init
                then (not_init, c)
                else let c1 = if d.closed then c else (disconnect_send os c).1 in
                  let c2 =
                    if ltb_ℤ (pos 0) u.socket_fd then run os (close u.socket_fd) c1 else c1 in
                  let c3 = close_sockets os c2 in
                  (ok, record c3 { ctrl = some (record k { init = false }) })

unfoldable pub is_closed : St → Status
is_closed c = or_return c.data_ptr err λ d. if d.closed then status_closed else ok

-- Seconds and microseconds; the caller's structure is written only where the status is `ok`.
unfoldable pub get_timeout : St → Status × Option (ℕ × ℕ)
get_timeout c =
    or_return c.ctrl (err, none) λ k. if not k.init then (not_init, none) else (ok, some (5, 0))

unfoldable pub send_keep_alive : Os → St → Outcome Status × St
send_keep_alive os c =
    or_return c.udp_session (returned err, c)
      λ u.
        or_return c.data_ptr (returned err, c)
          λ d.
            or_return c.ctrl (returned err, c)
              λ k.
                if not k.init
                then (returned not_init, c)
                else if d.closed
                then (returned status_closed, c)
                else let (r, c1) = call os (send_to u.socket_fd Msg.keep_alive u.dst) c in
                  if failed r then (exited, c1) else (returned ok, c1)

unfoldable pub connect : Callback → St → Status × St
connect callback c =
    or_return c.data_ptr (err, c)
      λ d.
        or_return c.ctrl (err, c)
          λ k. if not k.init then (not_init, c) else (ok, notify callback Reason.udp_connected [] c)
