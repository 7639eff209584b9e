-- ===== src/Sys/Tls.antt =====
-- The calls of OpenSSL that change something, as the history records them. A number stands for an
-- object of OpenSSL, `none` for NULL.
use quic_web_rtc_like.Base.{ℕ, Bool, Option, Bytes, ℤ}

-- What a context is told. The bytes are a path.
pub data Setting : Type 0 where
  verify_none alpn_protos check_private_key min_proto_tls13 alpn_select : Setting
  -- the step that chooses the cipher suites
  ciphersuites : Setting
  certificate private_key : Bytes → Setting

pub data TlsCall : Type 0 where
  -- `SSL_CTX_new`, with whether it is a server's
  ctx_new : Bool → TlsCall
  ctx_free : ℕ → TlsCall
  ctx_set : ℕ → Setting → TlsCall
  ssl_new new_listener : Option ℕ → TlsCall
  ssl_free : ℕ → TlsCall
  set_fd : Option ℕ → ℤ → TlsCall
  set_connect_state ssl_connect ssl_listen accept_connection : Option ℕ → TlsCall
  set_blocking_mode : Option ℕ → Bool → TlsCall
  handle_events ssl_shutdown : ℕ → TlsCall
  ssl_write : Option ℕ → Bytes → TlsCall
  ssl_read : Option ℕ → ℕ → TlsCall
