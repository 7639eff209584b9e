-- ===== src/Chownat/State.antt =====
-- source/libs/protocols/chownat/inc/chownat.h: the protocol's data and configuration.
use quic_web_rtc_like.Base.{ℕ, ◌+◌, Bool, true, Option, none, some, Bytes, ℤ}
use quic_web_rtc_like.Conn.{Conn}

-- `TCP_MTU_SIZE`: the largest payload.
abbrev pub mtu : ℕ
mtu = 1024

-- `size`: a payload behind a header of three bytes.
abbrev pub packet_size : ℕ
packet_size = mtu + 3

-- `chownat_data_t`. `buffer` has 256 rows of `packet_size` bytes, `sizes` 256 cells.
pub record Data : Type 0 where
  pub closed : Bool
  pub id : ℕ
  pub expected : ℕ
  pub buffer : ℕ → Bytes
  pub sizes : ℕ → ℕ

-- `chownat_config_t`
pub record Config : Type 0 where
  pub udp_recv_timeout_sec : ℤ
  pub reuse : ℤ
  pub conn_max_attempts : ℤ
  pub dconn_max_attempts : ℤ

abbrev pub St : Type 0
St = Conn Data Config

-- `udp_conn_callback`: code of the application.
abbrev pub Callback : Type 0
Callback = ℕ → Bytes → St → St

-- `data->closed = 1`
abbrev pub mark_closed : St → St
mark_closed c = record c { data_ptr = closed_data c.data_ptr }
  where
    closed_data : Option Data → Option Data
    closed_data none = none
    closed_data (some d) = some (record d { closed = true })
