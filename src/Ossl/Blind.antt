-- ===== src/Ossl/Blind.antt =====
-- What punching a hole and closing leave alone: any view of the history that reads none of the
-- events that they write.
use quic_web_rtc_like.Base.{
  ◌≡◌, refl, ◌∙◌, suc, zero, ℕ, Bool, true, false, arith, List, Option, ◌∷◌, [], Bytes, ℤ,
}
use quic_web_rtc_like.Sys.{
  Os, Addr, Ret, Timeval, Selected, Trace, Input, did, perform, read, waited, clocked, send_to,
  set_sock_opt, rcv_timeout, tls,
}
use quic_web_rtc_like.Sys.Tls.{handle_events, ssl_shutdown}
use quic_web_rtc_like.Conn.{Status, UdpSession}
use quic_web_rtc_like.Ossl.State.{Data}
use quic_web_rtc_like.Ossl.Tls.{Tls}
use quic_web_rtc_like.Ossl.Punch.{probe, knock, discover, transient, conclude, punch}
use quic_web_rtc_like.Ossl.Close.{
  record_close_status, shutdown_wait, shutdown_rounds, finish_shutdown, close_quic,
}

-- A view that reads no datagram, no probe, no wait and none of OpenSSL's calls while it closes.
pub record Blind {A : Type 0} (view : Trace → A) : Type 0 where
  pub sends :
      (fd : ℤ) (b : Bytes) (a : Addr) (r : Ret) (t : Trace)
      → view (did (send_to fd b a) r ∷ t) ≡ view t
  pub sets :
      (fd n : ℤ) (r : Ret) (t : Trace) → view (did (set_sock_opt fd (rcv_timeout n)) r ∷ t) ≡ view t
  pub probes : (fd : ℤ) (i : Input) (t : Trace) → view (read fd 3 i ∷ t) ≡ view t
  pub waits :
      (fds : List ℤ) (tv : Option Timeval) (r : Selected) (t : Trace)
      → view (waited fds tv r ∷ t) ≡ view t
  pub clocks : (t : Trace) → view (clocked ∷ t) ≡ view t
  pub handles : (h : ℕ) (t : Trace) → view (tls (handle_events h) ∷ t) ≡ view t
  pub shuts : (h : ℕ) (t : Trace) → view (tls (ssl_shutdown h) ∷ t) ≡ view t

module _ {A : Type 0} (view : Trace → A) (blind : Blind view) where
  module _ (os : Os) (u : UdpSession) where
    sent : (b : Bytes) (t : Trace) → view (perform os (send_to u.socket_fd b u.dst) t).1 ≡ view t
    sent b t = blind.sends u.socket_fd b u.dst _ t

    knock-same : (fuel : ℕ) (t : Trace) → view (knock os u fuel t).1 ≡ view t
    unfolding knock
    knock-same zero t = refl
    knock-same (suc f) t =
        ground (
          arith,
          sent (0 ∷ []) t,
          knock-same f (perform os (send_to u.socket_fd (0 ∷ []) u.dst) t).1,
        )

    discover-same :
        (client : Bool) (fuel : ℕ) (t : Trace) → view (discover os u client fuel t).1 ≡ view t
    unfolding discover
    discover-same client zero t = refl
    discover-same true (suc f) t =
        let t1 : Trace = (perform os (send_to u.socket_fd probe u.dst) t).1 in
        let i = os.input t1 u.socket_fd 3 in
        let t2 : Trace = read u.socket_fd 3 i ∷ t1 in
        let quiet = blind.probes u.socket_fd i t1 ∙ sent probe t in
        ground (arith, sent probe t, quiet, discover-same true f t1, discover-same true f t2)
    discover-same false (suc f) t =
        let i = os.input t u.socket_fd 3 in
        let t2 : Trace = read u.socket_fd 3 i ∷ t in
        let quiet = blind.probes u.socket_fd i t in
        let t3 = (knock os u f t2).1 in
        ground (arith, quiet, knock-same f t2, discover-same false f t2, discover-same false f t3)

    transient-same :
        (n : ℕ) (punched : Bool) (t : Trace) → view (transient os u n punched t).2 ≡ view t
    unfolding transient
    transient-same zero punched t = refl
    transient-same (suc n) punched t =
        let t1 : Trace = (perform os (send_to u.socket_fd probe u.dst) t).1 in
        let i = os.input t1 u.socket_fd 3 in
        let t2 : Trace = read u.socket_fd 3 i ∷ t1 in
        let quiet = blind.probes u.socket_fd i t1 ∙ sent probe t in
        grind (arith, sent probe t, quiet, transient-same n)

    pub punch-same :
        (client : Bool) (fuel : ℕ) (t : Trace) → view (punch os u client fuel t).1 ≡ view t
    unfolding punch conclude
    punch-same client fuel t = grind (arith, discover-same, transient-same, blind.sets)

  module _ (os : Os) (ssl : Tls) where
    shutdown_wait-same :
        (fd : ℤ) (h deadline : ℕ) (t : Trace)
        → view (shutdown_wait os ssl fd h deadline t).1 ≡ view t
    unfolding shutdown_wait
    shutdown_wait-same fd h deadline t = grind (arith, blind.clocks, blind.waits)

    shutdown_rounds-same :
        (fd : ℤ) (h deadline fuel : ℕ) (s : Status) (t : Trace)
        → view (shutdown_rounds os ssl fd h deadline fuel s t).2 ≡ view t
    unfolding shutdown_rounds
    shutdown_rounds-same fd h deadline zero s t = refl
    shutdown_rounds-same fd h deadline (suc f) s t =
        let t1 : Trace = tls (handle_events h) ∷ t in
        let t2 : Trace = tls (ssl_shutdown h) ∷ t1 in
        let s1 = (record_close_status ssl h s t2).1 in
        let (verdict, t3) = shutdown_wait os ssl fd h deadline t2 in
        ground (
          arith,
          blind.handles h t,
          blind.shuts h t1,
          shutdown_wait-same fd h deadline t2,
          shutdown_rounds-same fd h deadline f s1 t3,
        )

    pub close_quic-same :
        (fuel : ℕ) (fd : ℤ) (d : Data ℕ ℕ) (t : Trace)
        → view (close_quic os ssl fuel fd d t).1 ≡ view t
    unfolding close_quic finish_shutdown
    close_quic-same fuel fd d t = grind (arith, blind.clocks, shutdown_rounds-same)
