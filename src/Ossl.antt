-- ===== src/Ossl.antt =====
-- source/libs/protocols/ossl_quic: QUIC over OpenSSL.
pub mod State
pub mod Suites
pub mod Alpn
pub mod Joined
pub mod Punch
pub mod Found
pub mod Tls
pub mod Setup
pub mod Connect
pub mod Close
pub mod Transfer
pub mod Release
pub mod Ended
pub mod Closed
pub mod Backend
pub mod Blind
pub mod Seen
pub mod Relaying
pub mod Released
pub mod Objects
pub mod Tidy
pub mod Lifetime
mod Tests
mod RunTests
mod LifeTests
mod Sent
mod PeerClosed
