-- ===== src/Transport.antt =====
-- source/libs/protocols/udp_conn/{inc/udp_transport.h,src/udp_transport.c}: a UDP transport behind a
-- table of operations, over storage that the caller provides.
pub mod State
pub mod Direct
pub mod Api
pub mod Lifecycle
pub mod Accounts
pub mod Io
mod Tests
