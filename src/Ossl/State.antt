-- ===== src/Ossl/State.antt =====
-- source/libs/protocols/ossl_quic: the types of ossl_quic.h, and the operations that only read the
-- state. `Ctx` and `Ssl` stand for OpenSSL's `SSL_CTX` and `SSL`.
use quic_web_rtc_like.Base.{
  ℕ, Bool, Option, none, some, List, Bytes, ℤ, leb, ◌||◌, not, or_return, if◌then◌else◌,
}
use quic_web_rtc_like.Sys.{Timeval}
use quic_web_rtc_like.Conn.{Status, ok, err, not_init, Conn}
use quic_web_rtc_like.Conn.{closed as status_closed}

-- `ossl_tls13_suite_id_t`: an enumeration of C also holds other numbers.
pub data Suite : Type 0 where
  aes_128_gcm_sha256 aes_256_gcm_sha384 chacha20_poly1305_sha256 : Suite
  aes_128_ccm_sha256 aes_128_ccm_8_sha256 : Suite
  other_suite : ℕ → Suite

-- `OSSL_TLS13_MAX_SUITES`
abbrev pub max_suites : ℕ
max_suites = 5

-- `ossl_tls13_preset_t`
pub data Preset : Type 0 where
  default balanced perf_aes128 custom : Preset

-- `ossl_quic_data_t`
pub record Data (Ctx Ssl : Type 0) : Type 0 where
  pub closed : Bool
  pub close_status : Status
  pub ctx : Option Ctx
  pub listener : Option Ssl
  pub conn : Option Ssl

-- `ossl_quic_config_t`: the list stands for `tls13_suites` with `tls13_suites_len`.
pub record Config : Type 0 where
  pub tls13_preset : Preset
  pub tls13_suites : List Suite
  pub reuse : ℤ
  pub cert_file : Option Bytes
  pub key_file : Option Bytes

module _ {Ctx Ssl : Type 0} where
  unfoldable pub is_closed : Conn (Data Ctx Ssl) Config → Status
  is_closed c = or_return c.data_ptr err λ d. if d.closed then status_closed else ok

  -- `event_timeout` is `SSL_get_event_timeout`: nothing where it fails, else the timeout and whether
  -- it is infinite. A wait is at most five seconds.
  unfoldable pub get_timeout :
      (Ssl → Option (Timeval × Bool)) → Conn (Data Ctx Ssl) Config → Status × Option Timeval
  get_timeout event_timeout c =
      or_return c.ctrl (err, none)
        λ k.
          or_return c.data_ptr (err, none)
            λ d.
              or_return d.conn (err, none)
                λ ssl.
                  if not k.init
                  then (not_init, none)
                  else or_return (event_timeout ssl)
                      (err, some (record { tv_sec = 0; tv_usec = 0 }))
                      λ (tv, is_infinite). (
                        ok,
                        some (
                            if is_infinite || leb 5 tv.tv_sec
                            then record { tv_sec = 5; tv_usec = 0 }
                            else tv),
                      )
