-- ===== src/Ossl/Setup.antt =====
-- source/libs/protocols/ossl_quic/src/ossl_quic.c: ossl_quic_init.
use quic_web_rtc_like.Base.{
  ℕ, Bool, true, false, not, ◌==◌, Option, none, some, [], ◌∷◌, Bytes, eqb_ℤ, pos, or_return,
  if◌then◌else◌,
}
use quic_web_rtc_like.Sys.{Os, Trace, tls, failed, set_sock_opt, reuse_addr, bind, close}
use quic_web_rtc_like.Sys.Tls.{
  ctx_new, ctx_free, ctx_set, verify_none, alpn_protos, check_private_key, min_proto_tls13,
  alpn_select, ciphersuites, certificate, private_key,
}
use quic_web_rtc_like.Conn.{Status, ok, err, already_init, Conn, call, run}
use quic_web_rtc_like.Ossl.State.{Data, Config}
use quic_web_rtc_like.Ossl.Suites.{apply_suites}
use quic_web_rtc_like.Ossl.Tls.{Tls, nonzero, positive, anything, all_pass}

abbrev pub St : Type 0
St = Conn (Data ℕ ℕ) Config

module _ (ssl : Tls) where
  -- An old context is freed, and a new one is made.
  unfoldable pub new_ctx : Bool → Data ℕ ℕ → Trace → Data ℕ ℕ × Trace
  new_ctx server d t =
      let t1 : Trace = elim d.ctx [ none ↦ t | some x ↦ tls (ctx_free x) ∷ t ] in
      (record d { ctx = ssl.object t1 (ctx_new server) }, tls (ctx_new server) ∷ t1)

  -- The step that chooses the cipher suites; it leaves one event, also where OpenSSL's default
  -- stays.
  unfoldable pub choose_suites : ℕ → Config → Trace → Bool × Trace
  choose_suites x cfg t = (
    not (apply_suites (ssl.set_ciphersuites t) (some x) (some cfg) == 0),
    tls (ctx_set x ciphersuites) ∷ t,
  )

  -- The branches of the two modes: whether `init` goes on.
  unfoldable pub setup_client : Config → Data ℕ ℕ → Trace → Bool × Data ℕ ℕ × Trace
  setup_client cfg d t =
      let (d1, t1) = new_ctx false d t in
      or_return d1.ctx (false, d1, t1)
        λ x.
          let (good, t2) =
            all_pass ssl
              ((ctx_set x verify_none, anything)
                ∷ (ctx_set x alpn_protos, λ r. eqb_ℤ r (pos 0))
                ∷ [])
              t1 in
          if not good
          then (false, d1, t2)
          else let (chosen, t3) = choose_suites x cfg t2 in (chosen, d1, t3)

  -- A path that is NULL or empty is no path.
  abbrev pub path : Option Bytes → Option Bytes
  path none = none
  path (some []) = none
  path (some (x ∷ xs)) = some (x ∷ xs)

  unfoldable pub setup_server : Config → Data ℕ ℕ → Trace → Bool × Data ℕ ℕ × Trace
  setup_server cfg d t =
      or_return (path cfg.cert_file) (false, d, t)
        λ cert.
          or_return (path cfg.key_file) (false, d, t)
            λ key.
              let (d1, t1) = new_ctx true d t in
              or_return d1.ctx (false, d1, t1)
                λ x.
                  let (good, t2) =
                    all_pass ssl
                      ((ctx_set x (certificate cert), positive)
                        ∷ (ctx_set x (private_key key), positive)
                        ∷ (ctx_set x check_private_key, nonzero)
                        ∷ (ctx_set x min_proto_tls13, anything)
                        ∷ [])
                      t1 in
                  if not good
                  then (false, d1, t2)
                  else let (chosen, t3) = choose_suites x cfg t2 in
                    (chosen, d1, if chosen then tls (ctx_set x alpn_select) ∷ t3 else t3)

  unfoldable pub init : Os → St → Status × St
  unfolding setup_client setup_server new_ctx choose_suites
  init os c =
      or_return c.data_ptr (err, c)
        λ d.
          or_return c.config (err, c)
            λ cfg.
              or_return c.ctrl (err, c)
                λ k.
                  or_return c.udp_session (err, c)
                    λ u.
                      if not c.has_callback
                      then (err, c)
                      else if k.init
                      then (already_init, c)
                      else let (good, d1, t1) =
                          if k.mode == b'c'
                          then setup_client cfg d c.trace
                          else (if k.mode == b's'
                              then setup_server cfg d c.trace
                              else (false, d, c.trace)) in
                        let c1 : St = record c { data_ptr = some d1; trace = t1 } in
                        if not good
                        then (err, c1)
                        else let (r2, c2) =
                            call os (set_sock_opt u.socket_fd (reuse_addr cfg.reuse)) c1 in
                          if failed r2
                          then (err, run os (close u.socket_fd) c2)
                          else let (r3, c3) = call os (bind u.socket_fd u.src) c2 in
                            if failed r3 then (err, c3) else (
                              ok,
                              record c3 {
                                ctrl = some (record k { init = true });
                                data_ptr = some (record d1 { closed = false; close_status = ok });
                              },
                            )
