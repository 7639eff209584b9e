-- ===== src/Ossl/Tls.antt =====
-- OpenSSL as the program sees it: a parameter, like the operating system. Each answer is a function
-- of the whole history, in which the calls that change something are recorded.
use quic_web_rtc_like.Base.{
  ℕ, Bool, true, false, not, Option, List, [], ◌∷◌, Bytes, ℤ, pos, eqb_ℤ, ltb_ℤ,
}
use quic_web_rtc_like.Sys.{Trace, Timeval, tls}
use quic_web_rtc_like.Sys.Tls.{TlsCall}

-- `SSL_get_error`, as far as the program tells its values apart.
pub data SslError : Type 0 where
  want_read want_write : SslError
  other_error : ℕ → SslError

pub record Tls : Type 0 where
  -- the functions that give an object, `none` for NULL
  pub object : Trace → TlsCall → Option ℕ
  -- those that give an `int`
  pub result : Trace → TlsCall → ℤ
  -- what was read, or how many bytes were taken: `none` where the call fails
  pub read : Trace → Option ℕ → ℕ → Option Bytes
  pub write : Trace → Option ℕ → Bytes → Option ℕ
  -- `SSL_get_error` after a call that failed
  pub error : Trace → Option ℕ → SslError
  -- `SSL_get_event_timeout`, with whether the timeout is infinite
  pub event_timeout : Trace → ℕ → Option (Timeval × Bool)
  -- `SSL_get_conn_close_info`: the error code, once the connection is being closed
  pub close_info : Trace → ℕ → Option ℕ
  -- `SSL_pending`
  pub pending : Trace → Option ℕ → ℕ
  -- `SSL_CTX_set_ciphersuites`
  pub set_ciphersuites : Trace → ℕ → Bytes → ℕ

-- A call, and the history with it.
abbrev pub ask : Tls → TlsCall → Trace → ℤ × Trace
ask ssl k t = (ssl.result t k, tls k ∷ t)

-- `if(!call(...))` and `if(call(...) <= 0)`
abbrev pub nonzero : ℤ → Bool
nonzero r = not (eqb_ℤ r (pos 0))

abbrev pub positive : ℤ → Bool
positive r = ltb_ℤ (pos 0) r

abbrev pub anything : ℤ → Bool
anything r = true

-- Calls in a row, each with the test that its result has to pass: the first failure ends them.
abbrev pub all_pass : Tls → List (TlsCall × (ℤ → Bool)) → Trace → Bool × Trace
all_pass ssl [] t = (true, t)
all_pass ssl ((k, test) ∷ rest) t = elim (test (ssl.result t k)) [
  | false ↦ (false, tls k ∷ t)
  | true ↦ all_pass ssl rest (tls k ∷ t)
]
