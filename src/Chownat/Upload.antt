-- ===== src/Chownat/Upload.antt =====
-- What the operations of chownat leave alone of the way from the local end to the peer.
use quic_web_rtc_like.Base.{
  ◌≡◌, refl, ap, ◌∙◌, Bool, ℕ, Option, true, false, arith, Bytes, ℤ, is_some, or_return, List,
  false,
}
use quic_web_rtc_like.Sys.{Os}
use quic_web_rtc_like.Conn.{Ctrl, UdpSession}
use quic_web_rtc_like.Conn.Relay.{told, taken}
use quic_web_rtc_like.Chownat.State.{St}
use quic_web_rtc_like.Chownat.Setup.{send_keep_alive}
use quic_web_rtc_like.Chownat.Punch.{server_rounds, hole_punching}
use quic_web_rtc_like.Chownat.Knocking.{server_rounds-same}
use quic_web_rtc_like.Chownat.Disconnect.{disconnect_recv, disconnect_send, finish}
use quic_web_rtc_like.Chownat.Reason
use quic_web_rtc_like.Chownat.Wire.{posted}
use quic_web_rtc_like.Chownat.Seen.{
  Seen, send_keep_alive-seen, hole_punching-seen, disconnect_send-seen, disconnect_recv-seen,
}

-- The pointers that closing needs, and the init flag.
abbrev ready : Option Ctrl → Bool
ready o = or_return o false λ k. k.init

abbrev pub standing : St → Bool × Bool × Bool × Bool
standing c = (is_some c.config, is_some c.udp_session, ready c.ctrl, is_some c.data_ptr)

abbrev pub AllSet : St → Type 0
AllSet c = standing c ≡ (true, true, true, true)

abbrev pub shut : St → Bool
shut c = or_return c.data_ptr true λ d. d.closed

-- The number of the next packet.
abbrev pub number : St → ℕ
number c = or_return c.data_ptr 0 λ d. d.id

-- What was sent, what the local end had sent, and what was put on the wire for it.
abbrev pub carried : St → Bytes × Bytes × List (Bytes × Bytes)
carried c = (told Reason.udp_data_sent c.trace, taken c.trace, posted c.trace)

-- An operation that carries nothing, frees nothing and opens nothing.
pub record Keeps (c c1 : St) : Type 0 where
  pub amounts : carried c1 ≡ carried c
  pub pointers : standing c1 ≡ standing c
  pub closed : shut c ≡ true → shut c1 ≡ true
  pub numbered : shut c1 ≡ false → number c1 ≡ number c

pub Keeps-refl : (c : St) → Keeps c c
Keeps-refl c = record { amounts = refl; pointers = refl; closed = λ e. e; numbered = λ still. refl }

-- From what is followed of the history.
abbrev pub data_part : Seen → Bytes × Bytes × List (Bytes × Bytes)
data_part v = (v.0.1, v.0.2, v.0.3)

pub carries : {v w : Seen} → v ≡ w → data_part v ≡ data_part w
carries e = ap data_part e

-- What punching and the keep-alive leave alone.
abbrev pub rest_of : St → (Bool × Bool × Bool × Bool) × Bool × ℕ
rest_of c = (standing c, shut c, number c)

send_keep_alive-rest : (os : Os) (c : St) → rest_of (send_keep_alive os c).1 ≡ rest_of c
unfolding send_keep_alive
send_keep_alive-rest os c = ground arith

server_rounds-rest :
    (os : Os) (u : UdpSession) (m : ℤ) (fuel attempts : ℕ) (buf : Bytes) (c : St)
    → rest_of (server_rounds os u m fuel attempts buf c).1 ≡ rest_of c
server_rounds-rest os u m =
    server_rounds-same rest_of os u m (λ i c. refl) (send_keep_alive-rest os) λ c f buf r done. refl

hole_punching-rest : (os : Os) (fuel : ℕ) (c : St) → rest_of (hole_punching os fuel c).1 ≡ rest_of c
unfolding hole_punching
hole_punching-rest os fuel c = grind (arith, server_rounds-rest)

Keeps-rest : (c c1 : St) → carried c1 ≡ carried c → rest_of c1 ≡ rest_of c → Keeps c c1
Keeps-rest c c1 same e = record {
  amounts = same;
  pointers = ap (λ v. v.0) e;
  closed = λ over. ap (λ v. v.1) e ∙ over;
  numbered = λ still. ap (λ v. v.2) e;
}

pub send_keep_alive-Keeps : (os : Os) (c : St) → Keeps c (send_keep_alive os c).1
send_keep_alive-Keeps os c =
    Keeps-rest c (send_keep_alive os c).1 (carries (send_keep_alive-seen os c))
      (send_keep_alive-rest os c)

pub hole_punching-Keeps : (os : Os) (fuel : ℕ) (c : St) → Keeps c (hole_punching os fuel c).1
hole_punching-Keeps os fuel c =
    Keeps-rest c (hole_punching os fuel c).1 (carries (hole_punching-seen os fuel c))
      (hole_punching-rest os fuel c)

pub disconnect_send-Keeps : (os : Os) (c : St) → Keeps c (disconnect_send os c).1
unfolding disconnect_send finish
disconnect_send-Keeps os c = record {
  amounts = carries (disconnect_send-seen os c);
  pointers = grind arith;
  closed = λ over. grind arith;
  numbered = λ still. grind arith;
}

-- On a connection with every pointer set, it leaves the session closed.
pub disconnect_send-shut :
    (os : Os) (c : St)
    → standing c ≡ (true, true, true, true)
    → shut (disconnect_send os c).1 ≡ true
unfolding disconnect_send finish
disconnect_send-shut os c set = grind arith

pub disconnect_recv-carried :
    (os : Os) (fuel : ℕ) (c : St) → carried (disconnect_recv os fuel c).1 ≡ carried c
disconnect_recv-carried os fuel c = carries (disconnect_recv-seen os fuel c)

pub disconnect_recv-standing :
    (os : Os) (fuel : ℕ) (c : St) → standing (disconnect_recv os fuel c).1 ≡ standing c
unfolding disconnect_recv finish
disconnect_recv-standing os fuel c = grind arith

pub disconnect_recv-numbered :
    (os : Os) (fuel : ℕ) (c : St)
    → shut (disconnect_recv os fuel c).1 ≡ false
    → number (disconnect_recv os fuel c).1 ≡ number c
unfolding disconnect_recv finish
disconnect_recv-numbered os fuel c still = grind arith
