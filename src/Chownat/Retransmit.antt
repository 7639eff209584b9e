-- ===== src/Chownat/Retransmit.antt =====
-- The answer to a request for a lost packet, as the code gives it.
use quic_web_rtc_like.Base.{
  ℕ, zero, suc, ◌+◌, ◌-◌, ◌%◌, ◌≤◌, ◌<◌, ◌≡◌, ◌≢◌, refl, take-all, true, false, List, some, [], ◌∷◌,
  ◌++◌, Bytes, arith, length, take, drop, take-append, length-take, min, sym, ap,
}
use mathlib.Core.List.{append_assoc}
use quic_web_rtc_like.Sys.{Os, Trace, did, send_to, got, returned}
use quic_web_rtc_like.Conn.{UdpSession, ok}
use quic_web_rtc_like.Chownat.State.{Data, St, Callback, mtu, packet_size}
use quic_web_rtc_like.Chownat.Closing.{IsLive}
use quic_web_rtc_like.Chownat.Delivery.{Ignores, udp_recv-expected}
use quic_web_rtc_like.Chownat.Msg
use quic_web_rtc_like.Chownat.Transfer.{store, resent, resend_rounds, udp_recv, next_number}

-- What udp_send stored under a packet number is what a retransmission of that number reads back.
pub take-store :
    (p : Bytes) (d : Data) → take ((store p d).sizes d.id) ((store p d).buffer d.id) ≡ p
unfolding store
take-store p d = ground (arith, take-append p (drop (length p) (d.buffer d.id)))

-- The retransmitted datagram is the packet cut to the length of its payload, so its last three
-- bytes are missing.
pub resent-store :
    (p : Bytes) (d : Data) → resent (store p d) d.id ≡ take (length p) (Msg.packet d.id p)
unfolding resent store
resent-store p d = ground (arith, take-append p (drop (length p) (d.buffer d.id)))

take-packet :
    (n : ℕ) (p : Bytes)
    → 3 ≤ length p
    → take (length p) (Msg.packet n p) ≡ Msg.packet n (take (length p - 3) p)
take-packet n [] h = absurd (omega arith)
take-packet n (a ∷ []) h = absurd (omega arith)
take-packet n (a ∷ b ∷ []) h = absurd (omega arith)
take-packet n (a ∷ b ∷ c ∷ p) h =
    let e : suc (suc (suc (length p))) - 3 ≡ length p = omega arith in rw e

take_short : (n : ℕ) (p : Bytes) → n < length p → take n p ≢ p
take_short n p h e = absurd (omega (arith, ap (length {A = ℕ}) e, length-take n p))

-- A receiver that expects the requested packet, of three bytes or more, takes its retransmission
-- for it: the call succeeds, the packet counts as received, and the caller gets the payload
-- without its last three bytes.
pub resent_corrupts :
    (os : Os) (callback : Callback)
    → Ignores callback
    → (fuel : ℕ) (p : Bytes) (sender : Data) (c : St) (d : Data) (live : IsLive c d)
    → d.closed ≡ false
    → sender.id < 256
    → sender.id ≡ d.expected
    → 3 ≤ length p
    → length p ≤ mtu
    → os.input c.trace live.session.socket_fd packet_size ≡ got (resent (store p sender) sender.id)
    → let (o, out, c') = udp_recv os callback fuel true mtu c in
      (o ≡ returned ok)
      × (out ≡ some (take (length p - 3) p))
      × (take (length p - 3) p ≢ p)
      × (c'.data_ptr ≡ some (record d { expected = next_number d.expected }))
resent_corrupts os callback ignores fuel p sender c d live is_open low number long fits reads =
    let q = take (length p - 3) p in
    let size : length q ≡ length p - 3 = omega (arith, length-take (length p - 3) p) in
    let same : os.input c.trace live.session.socket_fd packet_size ≡ got (Msg.packet sender.id q) =
      rw reads (rw (resent-store, take-packet sender.id p long)) in
    let done =
      udp_recv-expected os callback ignores fuel mtu sender.id q c d live is_open same
        (omega arith) in
    (
      ground (arith, done.0, size),
      ground (arith, done.1, take-all (min (length q) mtu) q (omega arith)),
      take_short (length p - 3) p (omega arith),
      done.2.has_data,
    )

-- The datagrams of a history, newest first.
abbrev pub datagrams : Trace → List Bytes
datagrams [] = []
datagrams (did (send_to fd b dst) r ∷ t) = b ∷ datagrams t
datagrams (_ ∷ t) = datagrams t

-- What is retransmitted of the `n` packets from `i` on, newest first.
abbrev pub resents : Data → ℕ → ℕ → List Bytes
resents d i zero = []
resents d i (suc n) = resents d (i + 1) n ++ resent d i ∷ []

-- A request for packet i, with i plus the number of rounds below 256, makes the loop send exactly
-- the packets from i on, each once and in order, and nothing else.
pub resend_rounds_lem :
    (os : Os) (u : UdpSession) (d : Data) (n i : ℕ) (t : Trace)
    → i + n < 256
    → datagrams (resend_rounds os u d n i t) ≡ resents d i n ++ datagrams t
unfolding resend_rounds
resend_rounds_lem os u d zero i t h = refl
resend_rounds_lem os u d (suc n) i t h =
    let e : (i + 1) % 256 ≡ i + 1 = omega arith in
    rw (e, resend_rounds_lem os u d n (i + 1) _ (omega arith))
      (sym (append_assoc (resents d (i + 1) n) _ _))

-- A request for a packet whose number is not below the current one retransmits nothing.
pub resend_rounds_wrapped :
    (os : Os) (u : UdpSession) (d : Data) (n : ℕ) (t : Trace)
    → d.id ≤ n
    → resend_rounds os u d (d.id - n) n t ≡ t
unfolding resend_rounds
resend_rounds_wrapped os u d n t h = let e : d.id - n ≡ 0 = omega arith in rw e
