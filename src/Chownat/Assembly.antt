-- ===== src/Chownat/Assembly.antt =====
-- What the datagrams of a history amount to, whatever chownat did with them: the stream of the
-- numbered packets that came in order.
use quic_web_rtc_like.Base.{
  ℕ, zero, suc, ℤ, ◌≡◌, refl, false, true, arith, ◌+◌, ◌%◌, ◌&&◌, ◌==◌, [], ◌∷◌, ◌++◌, Bytes, take,
  min, length, ltb, starts_with, if◌then◌else◌,
}
use quic_web_rtc_like.Sys.{
  Trace, Event, Input, did, asked, waited, clocked, notified, tls, read, got, no_input,
}
use quic_web_rtc_like.Conn.Kept.{is_silent}
use quic_web_rtc_like.Chownat.Msg
use quic_web_rtc_like.Chownat.State.{mtu, packet_size}

-- The number of the packet that is awaited, and the stream so far.
abbrev pub accept : Bytes → ℕ × Bytes → ℕ × Bytes
accept (a ∷ b ∷ n ∷ payload) (next, stream) =
    if (a == b'0') && (b == b'9') && (n % 256 == next)
    then ((next + 1) % 256, stream ++ take mtu payload)
    else (next, stream)
accept _ s = s

-- Reads of the size of a packet are those of the tunnel: hole punching and closing read three bytes.
abbrev pub assembled : Trace → ℕ × Bytes
assembled [] = (0, [])
assembled (read fd n (got msg) ∷ t) =
    if n == packet_size then accept msg (assembled t) else assembled t
assembled (_ ∷ t) = assembled t

-- A read of another size is none of the tunnel's.
pub assembled-read :
    (fd : ℤ) (n : ℕ) (i : Input) (t : Trace)
    → (n == packet_size) ≡ false
    → assembled (read fd n i ∷ t) ≡ assembled t
assembled-read fd n (no_input e) t short = refl
assembled-read fd n (got msg) t short = rw short refl

-- Nor is what the loop itself causes.
pub assembled-silent :
    (e : Event) (t : Trace) → is_silent e ≡ true → assembled (e ∷ t) ≡ assembled t
assembled-silent (did c r) t quiet = refl
assembled-silent (asked fd) t quiet = refl
assembled-silent (waited fds tv r) t quiet = refl
assembled-silent clocked t quiet = refl
assembled-silent (read fd n i) t quiet = cc
assembled-silent (notified r b) t quiet = refl
assembled-silent (tls k) t quiet = refl

-- What is no packet leaves the stream alone.
pub accept-short : (msg : Bytes) (s : ℕ × Bytes) → ltb (length msg) 3 ≡ true → accept msg s ≡ s
accept-short [] s short = refl
accept-short (a ∷ []) s short = refl
accept-short (a ∷ b ∷ []) s short = refl
accept-short (a ∷ b ∷ n ∷ p) s short = absurd (ground arith)

pub accept-untagged :
    (msg : Bytes) (s : ℕ × Bytes) → starts_with Msg.packet_tag msg ≡ false → accept msg s ≡ s
accept-untagged [] s other_one = refl
accept-untagged (a ∷ []) s other_one = refl
accept-untagged (a ∷ b ∷ []) s other_one = refl
accept-untagged (a ∷ b ∷ n ∷ p) (next, stream) other_one = ground arith

-- The tags of the other messages.
pub close_request-differs :
    (msg : Bytes)
    → starts_with Msg.close_request msg ≡ true
    → starts_with Msg.packet_tag msg ≡ false
close_request-differs msg closing = ground arith

pub confirm-differs :
    (msg : Bytes) → starts_with Msg.confirm msg ≡ true → starts_with Msg.packet_tag msg ≡ false
confirm-differs msg confirming = ground arith

pub resend-differs :
    (msg : Bytes) → starts_with Msg.resend_tag msg ≡ true → starts_with Msg.packet_tag msg ≡ false
resend-differs msg requesting = ground arith

pub take-min : (p : Bytes) (n : ℕ) → take (min (length p) n) p ≡ take n p
take-min [] zero = ground arith
take-min [] (suc n) = ground arith
take-min (x ∷ p) zero = ground arith
take-min (x ∷ p) (suc n) = ground (arith, take-min p n)
