-- ===== src/Conn/Wait.antt =====
-- How long a round of `udp_connection` waits in `select`.
use quic_web_rtc_like.Base.{ℕ, ◌+◌, ◌*◌, ◌<◌, ◌≡◌, min, arith}
use quic_web_rtc_like.Sys.{Timeval}
use quic_web_rtc_like.Conn.{ok, not_applicable}
use quic_web_rtc_like.Conn.Loop.{choose_timeout}

-- The length of a timeout, in microseconds.
abbrev pub microseconds : Timeval → ℕ
microseconds tv = tv.tv_sec * 1_000_000 + tv.tv_usec

-- The wait of a round is the time left until the keep-alive where the protocol has no timeout, and
-- the shorter of that and the protocol's where it has one; its microseconds stay below a second if
-- the protocol's do.
pub choose_timeout_lem :
    (tv : Timeval) (remaining_us : ℕ)
    → tv.tv_usec < 1_000_000
    → (microseconds (choose_timeout not_applicable tv remaining_us) ≡ remaining_us)
      × (microseconds (choose_timeout ok tv remaining_us) ≡ min remaining_us (microseconds tv))
      × ((choose_timeout not_applicable tv remaining_us).tv_usec < 1_000_000)
      × ((choose_timeout ok tv remaining_us).tv_usec < 1_000_000)
unfolding choose_timeout
choose_timeout_lem tv remaining_us h = ground arith
