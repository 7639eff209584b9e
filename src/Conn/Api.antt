-- ===== src/Conn/Api.antt =====
-- source/libs/protocols/udp_conn/inc/udp_conn.h: `udp_conn_generic_api_t`, the operations that a
-- protocol provides, as the loop of udp_conn.c calls them.
use quic_web_rtc_like.Base.{ℕ, Bool, Option, Bytes}
use quic_web_rtc_like.Sys.{Outcome, Timeval}
use quic_web_rtc_like.Conn.{Status, Conn, is_set}

-- An optional operation is NULL where it is `none`. A result beside the connection is what an
-- output parameter gets, `none` where it is left alone. `udp_recv` is called with both of its
-- pointers set, `udp_send` without `sent_bytes`.
pub record Api (D C : Type 0) : Type 0 where
  pub init : Conn D C → Status × Conn D C
  pub deinit : Conn D C → Outcome Status × Conn D C
  pub is_closed : Conn D C → Status
  pub get_timeout : Conn D C → Status × Option Timeval × Conn D C
  pub process_events : Option (Conn D C → Outcome Status × Conn D C)
  pub pending_data : Option (Conn D C → ℕ)
  pub hole_punching : Conn D C → Outcome Status × Conn D C
  pub connect : Conn D C → Status × Conn D C
  pub udp_send : Bytes → Conn D C → Status × Conn D C
  pub udp_recv : ℕ → Conn D C → Outcome Status × Option Bytes × Conn D C
  pub send_keep_alive : Conn D C → Outcome Status × Conn D C
  pub disconnect : Conn D C → Outcome Status × Conn D C

-- `udp_conn_init`, `udp_conn_deinit` and `udp_conn_disconnect`, which an application calls.
abbrev pub udp_conn_init : {D C : Type 0} → Api D C → Conn D C → Status × Conn D C
udp_conn_init api c = api.init c

abbrev pub udp_conn_deinit : {D C : Type 0} → Api D C → Conn D C → Outcome Status × Conn D C
udp_conn_deinit api c = api.deinit c

abbrev pub udp_conn_disconnect : {D C : Type 0} → Api D C → Conn D C → Outcome Status × Conn D C
udp_conn_disconnect api c = api.disconnect c

-- `if (conn->api->is_closed(conn))`
abbrev pub closes : {D C : Type 0} → Api D C → Conn D C → Bool
closes api c = is_set (api.is_closed c)
