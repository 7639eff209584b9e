-- ===== src/Ossl/Released.antt =====
-- What `ossl_quic_init` makes and `ossl_quic_deinit` releases.
use quic_web_rtc_like.Base.{
  ℕ, ◌≡◌, ◌≢◌, refl, is_some, true, false, Option, none, some, List, [], ◌∷◌, ◌++◌, ℤ, pos, leb_ℤ,
  arith, if◌then◌else◌,
}
use quic_web_rtc_like.Sys.{Os, Trace, returned, did, close, tls}
use quic_web_rtc_like.Sys.Tls.{ctx_free, ssl_free}
use quic_web_rtc_like.Conn.{Status, ok, UdpSession, TcpSession, Ctrl}
use quic_web_rtc_like.Ossl.State.{Data, Config}
use quic_web_rtc_like.Ossl.Setup.{St, init, setup_client, setup_server}
use quic_web_rtc_like.Ossl.Connect.{Callback}
use quic_web_rtc_like.Ossl.Tls.{Tls}
use quic_web_rtc_like.Ossl.Release.{release, deinit}
use quic_web_rtc_like.Ossl.Closed.{IsReady, disconnect-IsReady, disconnect-closed, Ignores}
use quic_web_rtc_like.Ossl.Close.{disconnect}

-- The objects of OpenSSL that were freed, newest first.
abbrev pub freed : Trace → List ℕ
freed [] = []
freed (tls (ctx_free h) ∷ t) = h ∷ freed t
freed (tls (ssl_free h) ∷ t) = h ∷ freed t
freed (_ ∷ t) = freed t

-- The descriptors that were closed, newest first.
abbrev pub closes : Trace → List ℤ
closes [] = []
closes (did (close fd) r ∷ t) = fd ∷ closes t
closes (_ ∷ t) = closes t

abbrev pub held : Option ℕ → List ℕ
held none = []
held (some h) = h ∷ []

-- A descriptor that is one.
abbrev pub open_fd : ℤ → List ℤ
open_fd fd = if leb_ℤ (pos 0) fd then fd ∷ [] else []

abbrev pub open_tcp : Option TcpSession → List ℤ
open_tcp none = []
open_tcp (some tcp) = open_fd tcp.socket_fd ++ open_fd tcp.accepted_sock

-- Every object is freed once, one close is made for each field that holds a descriptor, and none
-- is left. A descriptor that stands in two fields is closed twice.
pub record Released (d : Data ℕ ℕ) (u : UdpSession) (c c' : St) : Type 0 where
  pub frees : freed c'.trace ≡ held d.ctx ++ held d.listener ++ held d.conn ++ freed c.trace
  pub closings : closes c'.trace ≡ open_tcp c.tcp_session ++ open_fd u.socket_fd ++ closes c.trace
  pub left :
      (d' : Data ℕ ℕ)
      → c'.data_ptr ≡ some d'
      → (d'.conn ≡ none) × (d'.listener ≡ none) × (d'.ctx ≡ none)
  pub no_udp : (u' : UdpSession) → c'.udp_session ≡ some u' → open_fd u'.socket_fd ≡ []
  pub no_tcp : open_tcp c'.tcp_session ≡ []
  pub uninit : (k : Ctrl) → c'.ctrl ≡ some k → k.init ≡ false

pub release-Released :
    (os : Os) (d : Data ℕ ℕ) (u : UdpSession) (k : Ctrl) (c : St)
    → Released d u c (release os d u k c)
unfolding release
release-Released os d u k c = record {
  frees = ground arith;
  closings = ground arith;
  left = λ d' e. ground arith;
  no_udp = λ u' e. ground arith;
  no_tcp = ground arith;
  uninit = λ k' e. ground arith;
}

disconnect-udp_session :
    (os : Os) (ssl : Tls) (callback : Callback)
    → Ignores callback
    → (fuel : ℕ) (c : St) → (disconnect os ssl callback fuel c).1.udp_session ≡ c.udp_session
unfolding disconnect
disconnect-udp_session os ssl callback ignores fuel c = grind (arith, ignores)

-- Where closing a ready QUIC session returns a status, deinit returns the same status, frees the
-- connection, the listener and the context that it holds once each, and makes one close for each
-- field of the UDP and the TCP session that holds a descriptor; a descriptor that both fields of
-- the TCP session hold is closed twice. No object and no descriptor is left in a field, and the
-- control is marked uninitialised. The callback leaves the connection alone.
pub deinit_releases :
    (os : Os) (ssl : Tls) (callback : Callback)
    → Ignores callback
    → (fuel : ℕ) (c : St) (d : Data ℕ ℕ) (s : Status) (live : IsReady c d)
    → (disconnect os ssl callback fuel c).0 ≡ returned s
    → let c1 = (disconnect os ssl callback fuel c).1 in
      ((deinit os ssl callback fuel c).0 ≡ returned s)
      × Released
          (record d { closed = true; close_status = s })
          live.session
          c1
          (deinit os ssl callback fuel c).1
unfolding deinit
deinit_releases os ssl callback ignores fuel c d s live done =
    let c1 = (disconnect os ssl callback fuel c).1 in
    let d1 = record d { closed = true; close_status = s } in
    let after = disconnect-IsReady os ssl callback ignores fuel c d s live done in
    let same : deinit os ssl callback fuel c
        ≡ (returned s, release os d1 live.session after.ctrl c1) =
      ground (
        arith,
        disconnect-udp_session os ssl callback ignores fuel c,
        disconnect-closed os ssl callback fuel c d live,
        after.has_data,
        after.has_ctrl,
        live.has_session,
      ) in
    rw same (refl, release-Released os d1 live.session after.ctrl c1)

-- Data of a session that is set up, not yet connected: there is a context.
abbrev pub Fresh : Option (Data ℕ ℕ) → Type 0
Fresh none = ⊥
Fresh (some d) = (is_some d.ctx ≡ true) × (d.closed ≡ false) × (d.close_status ≡ ok)

abbrev pub Inited : Option Ctrl → Type 0
Inited none = ⊥
Inited (some k) = k.init ≡ true

setup_client-ctx :
    (ssl : Tls) (cfg : Config) (d : Data ℕ ℕ) (t : Trace)
    → (setup_client ssl cfg d t).0 ≡ true
    → is_some (setup_client ssl cfg d t).1.ctx ≡ true
unfolding setup_client
setup_client-ctx ssl cfg d t good = ground arith

setup_server-ctx :
    (ssl : Tls) (cfg : Config) (d : Data ℕ ℕ) (t : Trace)
    → (setup_server ssl cfg d t).0 ≡ true
    → is_some (setup_server ssl cfg d t).1.ctx ≡ true
unfolding setup_server
setup_server-ctx ssl cfg d t good = ground arith

-- Where ossl_quic_init succeeds, there is a context, the session is open with a clean status and
-- the control is marked initialised; where it fails, in either mode and at any step, the control
-- is as it was.
pub init_lem :
    (os : Os) (ssl : Tls) (c : St)
    → let (s, c') = init ssl os c in
      (s ≡ ok → Fresh c'.data_ptr × Inited c'.ctrl) × (s ≢ ok → c'.ctrl ≡ c.ctrl)
unfolding init
init_lem os ssl c = grind (arith, setup_client-ctx, setup_server-ctx)
