-- ===== src/Chownat/Msg.antt =====
-- source/libs/protocols/chownat/src/chownat.c: the messages on the wire. A control message is
-- "01\n", "02\n" or "03\n", a keep-alive one zero byte; "08" and "09" stand before a packet number.
use quic_web_rtc_like.Base.{ℕ, ◌%◌, ◌∷◌, [], Bytes}

abbrev pub open_request : Bytes
open_request = b'0' ∷ b'1' ∷ 10 ∷ []

abbrev pub close_request : Bytes
close_request = b'0' ∷ b'2' ∷ 10 ∷ []

abbrev pub confirm : Bytes
confirm = b'0' ∷ b'3' ∷ 10 ∷ []

abbrev pub keep_alive : Bytes
keep_alive = 0 ∷ []

abbrev pub resend_tag : Bytes
resend_tag = b'0' ∷ b'8' ∷ []

abbrev pub packet_tag : Bytes
packet_tag = b'0' ∷ b'9' ∷ []

-- A packet: the tag, its number in a `char`, the payload.
abbrev pub packet : ℕ → Bytes → Bytes
packet id payload = b'0' ∷ b'9' ∷ id % 256 ∷ payload

-- The request for a packet again: `char msg[] = "080"` is sent with its NUL, four bytes in all.
abbrev pub resend : ℕ → Bytes
resend expected = b'0' ∷ b'8' ∷ expected % 256 ∷ 0 ∷ []
