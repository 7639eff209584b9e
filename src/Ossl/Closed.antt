-- ===== src/Ossl/Closed.antt =====
-- What a session of ossl_quic is once it is closed.
use quic_web_rtc_like.Base.{
  ℕ, zero, suc, ◌+◌, ◌≡◌, inl, inr, refl, true, some, ◌∷◌, Bytes, ℤ, arith, Option-cases,
}
use quic_web_rtc_like.Sys.{Os, Trace, Outcome, returned, exited, out_of_fuel, clocked, tls}
use quic_web_rtc_like.Sys.Tls.{handle_events, ssl_shutdown}
use quic_web_rtc_like.Conn.{Status, err, UdpSession, Ctrl}
use quic_web_rtc_like.Ossl.State.{Data}
use quic_web_rtc_like.Ossl.Setup.{St}
use quic_web_rtc_like.Ossl.Connect.{Callback}
use quic_web_rtc_like.Ossl.Tls.{Tls, nonzero}
use quic_web_rtc_like.Ossl.Close.{
  record_close_status, monotonic_ms, shutdown_wait, shutdown_rounds, finish_shutdown, close_quic,
  disconnect,
}
use quic_web_rtc_like.Ossl.Transfer.{process_events}

-- The application's callback leaves the connection alone.
abbrev pub Ignores : Callback → Type 0
Ignores callback = (r : ℕ) (b : Bytes) (c : St) → callback r b c ≡ c

-- A connection with the pointers that closing needs, initialised, its data being `d`.
pub record IsReady (c : St) (d : Data ℕ ℕ) : Type 0 where
  pub session : UdpSession
  pub has_session : c.udp_session ≡ some session
  pub ctrl : Ctrl
  pub has_ctrl : c.ctrl ≡ some ctrl
  pub inited : ctrl.init ≡ true
  pub has_data : c.data_ptr ≡ some d

pub disconnect-closed :
    (os : Os) (ssl : Tls) (callback : Callback) (fuel : ℕ) (c : St) (d : Data ℕ ℕ)
    → IsReady c d
    → d.closed ≡ true
    → disconnect os ssl callback fuel c ≡ (returned d.close_status, c)
unfolding disconnect
disconnect-closed os ssl callback fuel c d live shut = ground arith

pub disconnect-IsReady :
    (os : Os) (ssl : Tls) (callback : Callback)
    → Ignores callback
    → (fuel : ℕ) (c : St) (d : Data ℕ ℕ) (s : Status) → IsReady c d
    → (disconnect os ssl callback fuel c).0 ≡ returned s
    → IsReady (disconnect os ssl callback fuel c).1 (record d { closed = true; close_status = s })
unfolding disconnect
disconnect-IsReady os ssl callback ignores fuel c d s live done = record {
  session = live.session;
  has_session = grind (arith, ignores);
  ctrl = live.ctrl;
  has_ctrl = grind (arith, ignores);
  inited = live.inited;
  has_data = grind (arith, ignores);
}

-- Where closing a ready QUIC session returns a status, the session is closed with that status, and
-- closing it again gives the same status and changes nothing, if the callback leaves the
-- connection alone.
pub disconnect_final :
    (os : Os) (ssl : Tls) (callback : Callback)
    → Ignores callback
    → (fuel fuel' : ℕ) (c : St) (d : Data ℕ ℕ) (s : Status) → IsReady c d
    → (disconnect os ssl callback fuel c).0 ≡ returned s
    → let c' = (disconnect os ssl callback fuel c).1 in
      IsReady c' (record d { closed = true; close_status = s })
      × (disconnect os ssl callback fuel' c' ≡ (returned s, c'))
disconnect_final os ssl callback ignores fuel fuel' c d s live done =
    let shut = disconnect-IsReady os ssl callback ignores fuel c d s live done in
    (shut, disconnect-closed os ssl callback fuel' _ _ shut refl)

record_close_status-closing :
    (ssl : Tls) (h code : ℕ) (s : Status) (t : Trace)
    → ssl.close_info t h ≡ some code
    → (record_close_status ssl h s t).0 ≡ true
unfolding record_close_status
record_close_status-closing ssl h code s t closing = rw closing

pub record_close_status-err :
    (ssl : Tls) (h : ℕ) (s : Status) (t : Trace) → s ≡ err → (record_close_status ssl h s t).1 ≡ err
unfolding record_close_status
record_close_status-err ssl h s t failed = ground arith

shutdown_wait-err :
    (os : Os) (ssl : Tls) (fd : ℤ) (h deadline : ℕ) (t : Trace) (r : Status)
    → (shutdown_wait os ssl fd h deadline t).0 ≡ some r
    → r ≡ err
unfolding shutdown_wait
shutdown_wait-err os ssl fd h deadline t r done = ground arith

-- An error, if it is a result at all.
abbrev pub OnlyErr : Outcome Status → Type 0
OnlyErr (returned r) = r ≡ err
OnlyErr exited = Unit
OnlyErr out_of_fuel = Unit

-- A close that failed once stays failed.
shutdown_rounds-OnlyErr :
    (os : Os) (ssl : Tls) (fd : ℤ) (h deadline fuel : ℕ) (s : Status) (t : Trace)
    → s ≡ err
    → let (o, s', _) = shutdown_rounds os ssl fd h deadline fuel s t in OnlyErr o × (s' ≡ err)
unfolding shutdown_rounds
shutdown_rounds-OnlyErr os ssl fd h deadline zero s t failed = (tt, failed)
shutdown_rounds-OnlyErr os ssl fd h deadline (suc f) s t failed =
    let t2 : Trace = tls (ssl_shutdown h) ∷ tls (handle_events h) ∷ t in
    let s1 = (record_close_status ssl h s t2).1 in
    let (verdict, t3) = shutdown_wait os ssl fd h deadline t2 in
    let still = record_close_status-err ssl h s t2 failed in
    let verdict_err : (r : Status) → verdict ≡ some r → r ≡ err =
      shutdown_wait-err os ssl fd h deadline t2 in
    elim (Option-cases verdict) [
      | inl round ↦ ground (arith, shutdown_rounds-OnlyErr os ssl fd h deadline f s1 t3 still)
      | inr (r, e) ↦ ground (arith, verdict_err r e)
    ]

finish_shutdown-OnlyErr :
    (os : Os) (ssl : Tls) (fuel : ℕ) (fd : ℤ) (h : ℕ) (s : Status) (t : Trace)
    → s ≡ err
    → let (o, s', _) = finish_shutdown os ssl fuel fd h s t in OnlyErr o × (s' ≡ err)
unfolding finish_shutdown
finish_shutdown-OnlyErr os ssl fuel fd h s t failed = elim (Option-cases (monotonic_ms os t)) [
  | inl stopped ↦ ground arith
  | inr (started, e) ↦
      ground
        (arith, shutdown_rounds-OnlyErr os ssl fd h (started + 5000) fuel s (clocked ∷ t) failed)
]

pub close_quic-OnlyErr :
    (os : Os) (ssl : Tls) (fuel : ℕ) (fd : ℤ) (d : Data ℕ ℕ) (t : Trace)
    → d.close_status ≡ err
    → OnlyErr (close_quic os ssl fuel fd d t).0
unfolding close_quic
close_quic-OnlyErr os ssl fuel fd d t failed = elim (Option-cases d.conn) [
  | inl null ↦ ground arith
  | inr (h, e) ↦ ground (arith, finish_shutdown-OnlyErr os ssl fuel fd h d.close_status t failed)
]

-- Where OpenSSL has handled its events and reports that the connection is being closed, a call of
-- process_events that returns leaves the session closed with the status that it returns, if the
-- callback leaves the connection alone.
pub process_events-closes :
    (os : Os) (ssl : Tls) (callback : Callback)
    → Ignores callback
    → (fuel h code : ℕ) (c : St) (d : Data ℕ ℕ) (s : Status) → IsReady c d
    → d.conn ≡ some h
    → nonzero (ssl.result c.trace (handle_events h)) ≡ true
    → ssl.close_info (tls (handle_events h) ∷ c.trace) h ≡ some code
    → (process_events ssl callback os fuel c).0 ≡ returned s
    → IsReady
        (process_events ssl callback os fuel c).1
        (record d { closed = true; close_status = s })
unfolding process_events
process_events-closes os ssl callback ignores fuel h code c d s live connected handled closing
      done =
    let t1 : Trace = tls (handle_events h) ∷ c.trace in
    let s1 = (record_close_status ssl h d.close_status t1).1 in
    let d1 = record d { close_status = s1 } in
    let c1 : St = record c { data_ptr = some d1; trace = t1 } in
    let told : (record_close_status ssl h d.close_status t1).0 ≡ true =
      record_close_status-closing ssl h code d.close_status t1 closing in
    let same : process_events ssl callback os fuel c ≡ disconnect os ssl callback fuel c1 =
      ground (arith, live.has_data) in
    rw same (
      disconnect-IsReady os ssl callback ignores fuel c1 d1 s
        (record {
          session = live.session;
          has_session = live.has_session;
          ctrl = live.ctrl;
          has_ctrl = live.has_ctrl;
          inited = live.inited;
          has_data = refl;
        })
        (rw same at done))
