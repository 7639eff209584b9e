-- ===== src/Ossl/Close.antt =====
-- source/libs/protocols/ossl_quic/src/ossl_quic.c: ossl_quic_record_close_status,
-- ossl_quic_monotonic_ms, ossl_quic_finish_shutdown and ossl_quic_disconnect.
use quic_web_rtc_like.Base.{
  ℕ, zero, suc, ◌+◌, ◌-◌, ◌*◌, ◌/◌, ◌%◌, min, Bool, true, false, not, ◌&&◌, ◌==◌, Option, none,
  some, [], ◌∷◌, ℤ, pos, eqb_ℤ, ltb_ℤ, leb, or_return, if◌then◌else◌,
}
use quic_web_rtc_like.Sys.{
  Os, Trace, Outcome, returned, exited, out_of_fuel, Timeval, ready, not_ready, eintr, again, other,
  waited, clocked,
}
use quic_web_rtc_like.Sys.Tls.{handle_events, ssl_shutdown}
use quic_web_rtc_like.Conn.{Status, err, not_init, is_error, notify}
use quic_web_rtc_like.Conn.Loop.{is_ok}
use quic_web_rtc_like.Ossl.State.{Data}
use quic_web_rtc_like.Ossl.Setup.{St}
use quic_web_rtc_like.Ossl.Connect.{Callback, udp_disconnected}
use quic_web_rtc_like.Ossl.Tls.{Tls, want_read, want_write, other_error, ask, nonzero}
use quic_web_rtc_like.Transport.Direct.{out_of_set}

-- What `data->close_status` becomes, and whether the connection is being closed.
unfoldable pub record_close_status : Tls → ℕ → Status → Trace → Bool × Status
record_close_status ssl h s t =
    or_return (ssl.close_info t h) (false, s)
      λ error_code. (true, if not (error_code == 0) && is_ok s then err else s)

-- `ossl_quic_monotonic_ms`: -1 is `none`.
unfoldable pub monotonic_ms : Os → Trace → Option ℕ
monotonic_ms os t = or_return (os.clock t) none λ (sec, nsec). some (sec * 1000 + nsec / 1_000_000)

-- The time to wait: until the deadline, or until OpenSSL's next event if that is sooner, rounded up
-- to a millisecond.
unfoldable pub wait_ms : ℕ → Timeval × Bool → ℕ
wait_ms left (tv, infinite) =
    if infinite then left else min left (tv.tv_sec * 1000 + (tv.tv_usec + 999) / 1000)

-- Whether `SSL_shutdown` may be called again after the result `r`.
abbrev pub may_retry : Tls → ℕ → ℤ → Trace → Bool
may_retry ssl h r t =
    if ltb_ℤ r (pos 0)
    then elim (ssl.error t (some h)) [
      | want_read ↦ true
      | want_write ↦ true
      | other_error n ↦ false
    ]
    else true

module _ (os : Os) (ssl : Tls) (fd : ℤ) (h : ℕ) (deadline : ℕ) where
  -- The end of a round: the deadline, and the wait. `none` is to go round again. The set of
  -- descriptors to write to is left out of the record, since any answer of `select` goes on.
  unfoldable pub shutdown_wait : Trace → Option Status × Trace
  shutdown_wait t =
      let t1 : Trace = clocked ∷ t in
      or_return (monotonic_ms os t) (some err, t1)
        λ now.
          if leb deadline now
          then (some err, t1)
          else or_return (ssl.event_timeout t1 h) (some err, t1)
              λ event.
                let ms = wait_ms (deadline - now) event in
                let tv : Timeval = record { tv_sec = ms / 1000; tv_usec = ms % 1000 * 1000 } in
                let r = os.select t1 (fd ∷ []) (some tv) in
                let t2 : Trace = waited (fd ∷ []) (some tv) r ∷ t1 in
                elim r [
                  | ready fds ↦ (none, t2)
                  | not_ready eintr ↦ (none, t2)
                  | not_ready again ↦ (some err, t2)
                  | not_ready (other n) ↦ (some err, t2)
                ]

  -- The loop of `ossl_quic_finish_shutdown`: its result, and `data->close_status`.
  unfoldable pub shutdown_rounds : ℕ → Status → Trace → Outcome Status × Status × Trace
  shutdown_rounds zero s t = (out_of_fuel, s, t)
  shutdown_rounds (suc f) s t =
      let (handled, t1) = ask ssl (handle_events h) t in
      let (result, t2) = ask ssl (ssl_shutdown h) t1 in
      let s1 = (record_close_status ssl h s t2).1 in
      let (verdict, t3) = shutdown_wait t2 in
      if not (nonzero handled)
      then (returned err, s, t1)
      else if eqb_ℤ result (pos 1)
      then (returned s1, s1, t2)
      else if not (may_retry ssl h result t2)
      then (returned err, s, t2)
      else elim verdict [ some x ↦ (returned x, s1, t3) | none ↦ shutdown_rounds f s1 t3 ]

unfoldable pub finish_shutdown :
    Os → Tls → ℕ → ℤ → ℕ → Status → Trace → Outcome Status × Status × Trace
unfolding shutdown_rounds
finish_shutdown os ssl fuel fd h s t =
    let t1 : Trace = clocked ∷ t in
    or_return (monotonic_ms os t) (returned err, s, t1)
      λ started.
        if out_of_set os fd
        then (returned err, s, t1)
        else shutdown_rounds os ssl fd h (started + 5000) fuel s t1

-- The shutdown, or an error where there is no connection: what `close_status` becomes.
unfoldable pub close_quic : Os → Tls → ℕ → ℤ → Data ℕ ℕ → Trace → Outcome Status × Trace
unfolding finish_shutdown
close_quic os ssl fuel fd d t =
    or_return d.conn (returned err, t)
      λ h.
        let (o, s, t1) = finish_shutdown os ssl fuel fd h d.close_status t in
        elim o [
          | returned r ↦ (returned (if is_error r then r else s), t1)
          | exited ↦ (exited, t1)
          | out_of_fuel ↦ (out_of_fuel, t1)
        ]

-- What is returned is `data->close_status` after the callback has run.
unfoldable pub disconnect : Os → Tls → Callback → ℕ → St → Outcome Status × St
unfolding close_quic
disconnect os ssl callback fuel c =
    or_return c.data_ptr (returned err, c)
      λ d.
        or_return c.ctrl (returned err, c)
          λ k.
            or_return c.udp_session (returned err, c)
              λ u.
                if not k.init
                then (returned not_init, c)
                else if d.closed
                then (returned d.close_status, c)
                else let (o, t) = close_quic os ssl fuel u.socket_fd d c.trace in
                  elim o [
                    | exited ↦ (exited, record c { trace = t })
                    | out_of_fuel ↦ (out_of_fuel, record c { trace = t })
                    | returned s ↦
                        let ended : Data ℕ ℕ = record d { closed = true; close_status = s } in
                        let c1 =
                          notify callback udp_disconnected []
                            (record c { data_ptr = some ended; trace = t }) in
                        (returned (or_return c1.data_ptr err λ d1. d1.close_status), c1)
                  ]
