-- ===== src/Ossl/Suites.antt =====
-- source/libs/protocols/ossl_quic/src/ossl_quic.c: suite_to_name and
-- ossl_quic_apply_tls13_ciphersuites, the text that OpenSSL is given.
use quic_web_rtc_like.Base.{
  ℕ, ◌+◌, ◌||◌, Option, none, some, List, [], ◌∷◌, ◌++◌, Bytes, length, leb, ltb, ◌==◌, or_return,
  if◌then◌else◌,
}
use quic_web_rtc_like.Ossl.State.{
  Suite, aes_128_gcm_sha256, aes_256_gcm_sha384, chacha20_poly1305_sha256, aes_128_ccm_sha256,
  aes_128_ccm_8_sha256, other_suite, max_suites, default, balanced, perf_aes128, custom, Config,
}

abbrev pub name_aes_128_gcm_sha256 : Bytes
name_aes_128_gcm_sha256 =
    b'T' ∷ b'L' ∷ b'S' ∷ b'_' ∷ b'A' ∷ b'E' ∷ b'S' ∷ b'_' ∷ b'1' ∷ b'2' ∷ b'8' ∷ b'_' ∷ b'G' ∷ b'C'
    ∷ b'M' ∷ b'_' ∷ b'S' ∷ b'H' ∷ b'A' ∷ b'2' ∷ b'5' ∷ b'6' ∷ []

abbrev pub name_aes_256_gcm_sha384 : Bytes
name_aes_256_gcm_sha384 =
    b'T' ∷ b'L' ∷ b'S' ∷ b'_' ∷ b'A' ∷ b'E' ∷ b'S' ∷ b'_' ∷ b'2' ∷ b'5' ∷ b'6' ∷ b'_' ∷ b'G' ∷ b'C'
    ∷ b'M' ∷ b'_' ∷ b'S' ∷ b'H' ∷ b'A' ∷ b'3' ∷ b'8' ∷ b'4' ∷ []

abbrev pub name_chacha20_poly1305_sha256 : Bytes
name_chacha20_poly1305_sha256 =
    b'T' ∷ b'L' ∷ b'S' ∷ b'_' ∷ b'C' ∷ b'H' ∷ b'A' ∷ b'C' ∷ b'H' ∷ b'A' ∷ b'2' ∷ b'0' ∷ b'_' ∷ b'P'
    ∷ b'O' ∷ b'L' ∷ b'Y' ∷ b'1' ∷ b'3' ∷ b'0' ∷ b'5' ∷ b'_' ∷ b'S' ∷ b'H' ∷ b'A' ∷ b'2' ∷ b'5'
    ∷ b'6' ∷ []

abbrev pub name_aes_128_ccm_sha256 : Bytes
name_aes_128_ccm_sha256 =
    b'T' ∷ b'L' ∷ b'S' ∷ b'_' ∷ b'A' ∷ b'E' ∷ b'S' ∷ b'_' ∷ b'1' ∷ b'2' ∷ b'8' ∷ b'_' ∷ b'C' ∷ b'C'
    ∷ b'M' ∷ b'_' ∷ b'S' ∷ b'H' ∷ b'A' ∷ b'2' ∷ b'5' ∷ b'6' ∷ []

abbrev pub name_aes_128_ccm_8_sha256 : Bytes
name_aes_128_ccm_8_sha256 =
    b'T' ∷ b'L' ∷ b'S' ∷ b'_' ∷ b'A' ∷ b'E' ∷ b'S' ∷ b'_' ∷ b'1' ∷ b'2' ∷ b'8' ∷ b'_' ∷ b'C' ∷ b'C'
    ∷ b'M' ∷ b'_' ∷ b'8' ∷ b'_' ∷ b'S' ∷ b'H' ∷ b'A' ∷ b'2' ∷ b'5' ∷ b'6' ∷ []

-- `suite_to_name`
abbrev pub suite_to_name : Suite → Option Bytes
suite_to_name aes_128_gcm_sha256 = some name_aes_128_gcm_sha256
suite_to_name aes_256_gcm_sha384 = some name_aes_256_gcm_sha384
suite_to_name chacha20_poly1305_sha256 = some name_chacha20_poly1305_sha256
suite_to_name aes_128_ccm_sha256 = some name_aes_128_ccm_sha256
suite_to_name aes_128_ccm_8_sha256 = some name_aes_128_ccm_8_sha256
suite_to_name (other_suite n) = none

-- The loop that fills `char buf[256]`, from index `i` on: `buf` is what is written up to `off`.
unfoldable pub join_suites : ℕ → List Suite → Bytes → Option Bytes
join_suites i [] buf = some buf
join_suites i (s ∷ ss) buf = elim (suite_to_name s) [
  | none ↦ none
  | some name ↦
      let rest = join_suites (i + 1) ss (if ltb 0 i then buf ++ b':' ∷ name else buf ++ name) in
      if leb 256 (length buf + length name + 1) then none else rest
]

-- `set` is `SSL_CTX_set_ciphersuites`.
unfoldable pub apply_suites : {Ctx : Type 0} → (Ctx → Bytes → ℕ) → Option Ctx → Option Config → ℕ
unfolding join_suites
apply_suites set ctx config = or_return ctx 0 λ x. or_return config 0 λ cfg. elim cfg.tls13_preset [
  | default ↦ 1
  | balanced ↦ set x (
      name_aes_256_gcm_sha384
      ++ b':' ∷ name_chacha20_poly1305_sha256
      ++ b':' ∷ name_aes_128_gcm_sha256)
  | perf_aes128 ↦ set x (
      name_aes_128_gcm_sha256
      ++ b':' ∷ name_chacha20_poly1305_sha256
      ++ b':' ∷ name_aes_256_gcm_sha384)
  | custom ↦
      if (length cfg.tls13_suites == 0) || ltb max_suites (length cfg.tls13_suites)
      then 0
      else or_return (join_suites 0 cfg.tls13_suites []) 0 λ text. set x text
]
