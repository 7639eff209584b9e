-- ===== src/Ossl/Lifetime.antt =====
-- A program over ossl_quic, from udp_conn_init to udp_conn_deinit: every object of OpenSSL that it
-- makes is freed.
use mathlib.Core.Path.{subst}
use quic_web_rtc_like.Base.{ℕ, ◌≡◌, refl, ◌∙◌, ◌+◌, none, [], arith, Bool-cases, inl, inr}
use quic_web_rtc_like.Sys.{Os, Trace, returned}
use quic_web_rtc_like.Conn.{Status, ok, UdpSession, Ctrl}
use quic_web_rtc_like.Conn.Api.{udp_conn_init, udp_conn_deinit}
use quic_web_rtc_like.Conn.Session.{udp_connection}
use quic_web_rtc_like.Ossl.State.{Data, Config}
use quic_web_rtc_like.Ossl.Setup.{St, init, setup_client, setup_server, new_ctx}
use quic_web_rtc_like.Ossl.Tls.{Tls}
use quic_web_rtc_like.Ossl.Connect.{Callback}
use quic_web_rtc_like.Ossl.Close.{disconnect}
use quic_web_rtc_like.Ossl.Release.{deinit, release}
use quic_web_rtc_like.Ossl.Backend.{ossl_api}
use quic_web_rtc_like.Ossl.Closed.{Ignores, IsReady}
use quic_web_rtc_like.Ossl.Released.{freed, release-Released}
use quic_web_rtc_like.Ossl.Objects.{times, times-append, made, holding, Balanced, init-Balanced}
use quic_web_rtc_like.Ossl.Sent.{AllSet, disconnect-standing}
use quic_web_rtc_like.Ossl.Tidy.{
  lines, Tidy, Unlinked, Tidy-after, AllSet-IsReady, disconnect-account, udp_connection-Tidy,
}

module _ (ssl : Tls) where
  setup_client-lines :
      (cfg : Config) (d : Data ℕ ℕ) (t : Trace)
      → let d1 = (setup_client ssl cfg d t).1 in (d1.conn ≡ d.conn) × (d1.listener ≡ d.listener)
  unfolding setup_client new_ctx
  setup_client-lines cfg d t = ground arith

  setup_server-lines :
      (cfg : Config) (d : Data ℕ ℕ) (t : Trace)
      → let d1 = (setup_server ssl cfg d t).1 in (d1.conn ≡ d.conn) × (d1.listener ≡ d.listener)
  unfolding setup_server new_ctx
  setup_server-lines cfg d t = ground arith

  init-lines : (os : Os) (c : St) → lines (init ssl os c).1 ≡ lines c
  unfolding init
  init-lines os c = grind (arith, setup_client-lines, setup_server-lines)

  init-AllSet : (os : Os) (c : St) → (init ssl os c).0 ≡ ok → AllSet (init ssl os c).1
  unfolding init
  init-AllSet os c good = ground arith

  holding-lines : (c : St) → holding c.data_ptr ≡ [] → lines c ≡ (none, none)
  holding-lines c empty = ground arith

  init-Unlinked :
      (os : Os) (c : St)
      → c.trace ≡ []
      → holding c.data_ptr ≡ []
      → (init ssl os c).0 ≡ ok
      → Unlinked ssl (init ssl os c).1
  init-Unlinked os c start empty good = (
    (init-AllSet os c good, init-Balanced ssl os c (λ h. rw (start, empty))),
    init-lines os c ∙ holding-lines c empty,
  )

  -- What was made has been freed as often.
  abbrev AllFreed : Trace → Type 0
  AllFreed t = (h : ℕ) → times h (made ssl t) ≡ times h (freed t)

  -- And nothing is held.
  abbrev Clear : St → Type 0
  Clear c = AllFreed c.trace × (holding c.data_ptr ≡ [])

  release-made :
      (os : Os) (d : Data ℕ ℕ) (u : UdpSession) (k : Ctrl) (c : St)
      → made ssl (release os d u k c).trace ≡ made ssl c.trace
  unfolding release
  release-made os d u k c = ground arith

  release-AllFreed :
      (os : Os) (c : St) (d : Data ℕ ℕ) (live : IsReady c d)
      → Balanced ssl c
      → AllFreed (release os d live.session live.ctrl c).trace
  release-AllFreed os c d live b h =
      let frees = (release-Released os d live.session live.ctrl c).frees in
      let tally =
        subst (λ o. times h (made ssl c.trace) ≡ times h (freed c.trace) + times h (holding o))
          live.has_data (b h) in
      rw (release-made, frees) (grind (arith, tally, times-append))

  release-holding :
      (os : Os) (d : Data ℕ ℕ) (u : UdpSession) (k : Ctrl) (c : St)
      → holding (release os d u k c).data_ptr ≡ []
  unfolding release
  release-holding os d u k c = refl

  release-Clear :
      (os : Os) (c : St) (d : Data ℕ ℕ) (live : IsReady c d)
      → Balanced ssl c
      → Clear (release os d live.session live.ctrl c)
  release-Clear os c d live b =
      (release-AllFreed os c d live b, release-holding os d live.session live.ctrl c)

  module _ (os : Os) (callback : Callback) (ignores : Ignores callback) (fuel : ℕ) where
    deinit-Clear :
        (c : St) (s : Status)
        → Tidy ssl c
        → (deinit os ssl callback fuel c).0 ≡ returned s
        → Clear (deinit os ssl callback fuel c).1
    unfolding deinit
    deinit-Clear c s tidy done =
        let (d, live) = AllSet-IsReady c tidy.0 in
        let c1 = (disconnect os ssl callback fuel c).1 in
        let tidy1 : Tidy ssl c1 =
          Tidy-after ssl c c1 (disconnect-account os ssl callback ignores fuel c)
            (disconnect-standing os ssl callback ignores fuel c) tidy in
        let (d1, live1) = AllSet-IsReady c1 tidy1.0 in
        elim (Bool-cases d.closed) [
          | inl shut ↦
              let same : (deinit os ssl callback fuel c).1 ≡ release os d live.session live.ctrl c =
                ground (arith, live.has_session, live.has_ctrl, live.has_data, live.inited) in
              rw same (release-Clear os c d live tidy.1)
          | inr still ↦
              let same : (deinit os ssl callback fuel c).1
                  ≡ release os d1 live1.session live1.ctrl c1 =
                ground (
                  arith, live.has_session, live.has_ctrl, live.has_data, live.inited,
                  live1.has_session, live1.has_ctrl, live1.has_data,
                ) in
              rw same (release-Clear os c1 d1 live1 tidy1.1)
        ]

    -- A program over ossl_quic starts with an empty history and holds no object of OpenSSL, opens
    -- the session by udp_conn_init with success, runs udp_connection, however that ends, and calls
    -- udp_conn_deinit, which returns. Then every object that OpenSSL has given it, context,
    -- listener or connection, has been freed exactly as often as it was given, and none is held,
    -- whatever OpenSSL, the network and the system do; the callback leaves the connection alone.
    pub no_object_lost :
        (c : St) (s : Status)
        → c.trace ≡ []
        → holding c.data_ptr ≡ []
        → (udp_conn_init (ossl_api os ssl callback fuel) c).0 ≡ ok
        → let api = ossl_api os ssl callback fuel in
          let c2 = (udp_connection os api fuel (udp_conn_init api c).1).1 in
          (udp_conn_deinit api c2).0 ≡ returned s
          → let api = ossl_api os ssl callback fuel in
            let c2 = (udp_connection os api fuel (udp_conn_init api c).1).1 in
            let c3 = (udp_conn_deinit api c2).1 in
            ((h : ℕ) → times h (made ssl c3.trace) ≡ times h (freed c3.trace))
            × (holding c3.data_ptr ≡ [])
    no_object_lost c s start empty good done =
        deinit-Clear _ s
          (udp_connection-Tidy os ssl callback ignores fuel _ (init-Unlinked os c start empty good))
          done
