-- ===== src/Ossl/Alpn.antt =====
-- source/libs/protocols/ossl_quic/src/ossl_quic.c: ossl_quic_select_alpn, the callback by which a
-- server chooses the application protocol.
use quic_web_rtc_like.Base.{
  ℕ, ◌≡◌, ◌≢◌, ◌≤◌, List, [], ◌∷◌, ◌++◌, Bytes, ◌==◌, arith, length, if◌then◌else◌,
}
use mathlib.Core.List.{Mem, mem-cons_self}

-- The one protocol of this program.
abbrev pub osslquic : Bytes
osslquic = 0x6f ∷ 0x73 ∷ 0x73 ∷ 0x6c ∷ 0x71 ∷ 0x75 ∷ 0x69 ∷ 0x63 ∷ []

-- `alpn_osslquic_own`: a list of one name behind its length.
abbrev pub alpn_osslquic_own : Bytes
alpn_osslquic_own = 0x08 ∷ 0x6f ∷ 0x73 ∷ 0x73 ∷ 0x6c ∷ 0x71 ∷ 0x75 ∷ 0x69 ∷ 0x63 ∷ []

-- `OPENSSL_NPN_NEGOTIATED`, `SSL_TLSEXT_ERR_OK` and `SSL_TLSEXT_ERR_ALERT_FATAL`
abbrev pub npn_negotiated : ℕ
npn_negotiated = 1

abbrev pub tlsext_err_ok : ℕ
tlsext_err_ok = 0

abbrev pub tlsext_err_alert_fatal : ℕ
tlsext_err_alert_fatal = 2

-- `select_next_proto` is `SSL_select_next_proto`, of OpenSSL: from the server's list and the client's
-- it gives a code and what `*out` becomes, whatever the code is.
unfoldable pub select_alpn : (Bytes → Bytes → ℕ × Bytes) → Bytes → ℕ × Bytes
select_alpn select_next_proto client =
    let (r, out) = select_next_proto alpn_osslquic_own client in
    (if r == npn_negotiated then tlsext_err_ok else tlsext_err_alert_fatal, out)

-- A list of names as it is sent: each behind its length.
abbrev pub wire_names : List Bytes → Bytes
wire_names [] = []
wire_names (p ∷ ps) = length p ∷ p ++ wire_names ps

-- The names that such a list can hold.
abbrev AreNames : List Bytes → Type 0
AreNames [] = Unit
AreNames (p ∷ ps) = (1 ≤ length p) × (length p ≤ 255) × AreNames ps

-- OpenSSL's documentation for a server with one name: it is negotiated where the client has it, and
-- otherwise nothing is.
pub record Selects (select : Bytes → Bytes → ℕ × Bytes) : Type 0 where
  pub overlaps :
      (p : Bytes) (ps : List Bytes)
      → AreNames (p ∷ ps)
      → Mem p ps
      → select (wire_names (p ∷ [])) (wire_names ps) ≡ (npn_negotiated, p)
  pub differs :
      (p : Bytes) (ps : List Bytes)
      → AreNames (p ∷ ps)
      → ¬ Mem p ps
      → (select (wire_names (p ∷ [])) (wire_names ps)).0 ≢ npn_negotiated

module _ (select : Bytes → Bytes → ℕ × Bytes) (laws : Selects select) where
  -- A server accepts exactly the clients that offer osslquic, and then chooses it.
  select_alpn_lem :
      (ps : List Bytes)
      → AreNames (osslquic ∷ ps)
      → (Mem osslquic ps → select_alpn select (wire_names ps) ≡ (tlsext_err_ok, osslquic))
        × (¬ Mem osslquic ps → (select_alpn select (wire_names ps)).0 ≡ tlsext_err_alert_fatal)
  unfolding select_alpn
  select_alpn_lem ps names = (
    λ offered. let chosen = laws.overlaps osslquic ps names offered in ground arith,
    λ missing. let refused = laws.differs osslquic ps names missing in ground arith,
  )

  -- A client of this program, which offers the same list, is accepted.
  select_alpn-own : select_alpn select alpn_osslquic_own ≡ (tlsext_err_ok, osslquic)
  select_alpn-own = (select_alpn_lem (osslquic ∷ []) own_names).0 mem-cons_self
    where
      own_names : AreNames (osslquic ∷ osslquic ∷ [])
      own_names = (omega arith, omega arith, (omega arith, omega arith, tt))
