-- ===== src/Ossl/Tests.antt =====
-- The theorems on ossl_quic at concrete inputs.
use quic_web_rtc_like.Base.{
  ℕ, ◌≡◌, ◌==◌, refl, true, false, none, some, [], ◌∷◌, Bytes, pos, length, arith,
}
use quic_web_rtc_like.Sys.{Os, ret, Addr, got, ready}
use quic_web_rtc_like.Conn.{ok, UdpSession, Ctrl, Conn}
use quic_web_rtc_like.Ossl.State.{
  Config, Data, custom, aes_128_ccm_sha256, chacha20_poly1305_sha256,
}
use quic_web_rtc_like.Ossl.Suites.{apply_suites}
use quic_web_rtc_like.Ossl.Joined.{suite_text, apply_suites-text}
use quic_web_rtc_like.Ossl.Punch.{probe, hole_punching, punch, discover, transient, conclude}
use quic_web_rtc_like.Ossl.Found.{HeardInBoth, hole_punching-heard}

abbrev pub peer : Addr
peer = record { sin_family = 2; sin_port = 5000; sin_addr = 1 }

abbrev pub echo : Os
echo = record {
  answer = λ t c. ret 3;
  input = λ t fd n. got probe;
  message = λ t fd n. (got probe, false);
  sock_type = λ t fd. none;
  sock_name = λ t fd. none;
  select = λ t fds tv. ready [];
  clock = λ t. none;
  fd_setsize = 1024;
  af_inet = 2;
  sock_dgram = 2;
  garbage = λ t. [];
}

abbrev pub settings : Config
settings = record {
  tls13_preset = custom;
  tls13_suites = chacha20_poly1305_sha256 ∷ aes_128_ccm_sha256 ∷ [];
  reuse = pos 1;
  cert_file = none;
  key_file = none;
}

abbrev pub connection : Conn (Data ℕ ℕ) Config
connection = record {
  udp_session =
      some (record { socket_fd = pos 3; ka_miss_threshold = pos 10; dst = peer; src = peer });
  tcp_session = none;
  ctrl = some (record { mode = b's'; init = true });
  config = some settings;
  data_ptr =
      some
        (record { closed = false; close_status = ok; ctx = none; listener = none; conn = some 0 });
  has_callback = true;
  trace = [];
}

abbrev accept_text : ℕ → Bytes → ℕ
accept_text x text = length text

apply_suites-text_example :
    apply_suites accept_text (some 0) (some settings)
    ≡ length (suite_text (chacha20_poly1305_sha256 ∷ aes_128_ccm_sha256 ∷ []))
apply_suites-text_example =
    apply_suites-text accept_text 0 settings refl (refl, (refl, tt)) (omega arith) (omega arith)

hole_punching-heard_example :
    (u : UdpSession) × (connection.udp_session ≡ some u)
    × (k : Ctrl) × (connection.ctrl ≡ some k)
    × HeardInBoth echo u (k.mode == b'c') 5 [] (hole_punching echo 5 connection).1.trace
unfolding hole_punching punch discover transient conclude
hole_punching-heard_example = hole_punching-heard echo 5 connection refl
