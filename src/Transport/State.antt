-- ===== src/Transport/State.antt =====
-- source/libs/protocols/udp_conn/inc/udp_transport.h: the types.
use quic_web_rtc_like.Base.{ℕ, Bool, Option, ℤ}
use quic_web_rtc_like.Sys.{Addr}

-- `udp_transport_status_t`
pub data Status : Type 0 where
  ok error : Status

-- The flags of `wait`.
abbrev pub udp_readable : ℕ
udp_readable = 1

abbrev pub tcp_readable : ℕ
tcp_readable = 2

-- `udp_transport_data_t`
pub record Data : Type 0 where
  pub fd : ℤ
  pub owns_fd : Bool
  pub peer : Addr

-- `udp_transport_ops_t`: the source has one table, `direct_ops`.
pub data Ops : Type 0 where
  direct_ops : Ops

-- `struct udp_transport`: `none` is NULL; no operations means inactive.
pub record Transport : Type 0 where
  pub ops : Option Ops
  pub storage : Option Data
  pub tcp_fd : ℤ

-- `udp_transport_udp_config_t`
pub record Config : Type 0 where
  pub fd : ℤ
  pub already_bound : Bool
  pub take_ownership : Bool
  pub reuse_address : Bool
  pub tcp_fd : ℤ
  pub local : Addr
  pub peer : Addr
