-- ===== src/Chownat/Reason.antt =====
-- source/libs/protocols/chownat/inc/chownat.h: `enum chownat_reasons`, what a callback is told.
use quic_web_rtc_like.Base.{ℕ}

abbrev pub udp_connected : ℕ
udp_connected = 0

abbrev pub udp_recv_data : ℕ
udp_recv_data = 1

abbrev pub udp_lost_data : ℕ
udp_lost_data = 2

abbrev pub udp_data_sent : ℕ
udp_data_sent = 4
