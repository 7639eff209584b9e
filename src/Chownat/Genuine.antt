-- ===== src/Chownat/Genuine.antt =====
-- What the datagrams amount to where the packets among them come from a sender's payloads.
use quic_web_rtc_like.Base.{
  ℕ, suc, ◌+◌, ◌%◌, ◌≤◌, ◌<◌, ◌≡◌, refl, sym, ap, ◌∙◌, Bool, true, false, some, List, [], ◌∷◌, ◌++◌,
  Bytes, arith, ◌&&◌, ◌==◌, length, take, get_elem?, flatten, get_elem?-lt, take-suc, take-all,
  flatten-snoc, starts_with, inl, inr, Bool-cases, is_some, if◌then◌else◌,
}
use quic_web_rtc_like.Sys.{
  Os, returned, Trace, did, asked, waited, clocked, notified, tls, read, got, no_input,
}
use quic_web_rtc_like.Conn.Relay.{told, passed_on}
use quic_web_rtc_like.Conn.Session.{udp_connection}
use quic_web_rtc_like.Conn.{ok}
use quic_web_rtc_like.Chownat.Reason
use quic_web_rtc_like.Chownat.Backend.{chownat_api}
use quic_web_rtc_like.Chownat.Delivery.{Ignores}
use quic_web_rtc_like.Chownat.Assembled.{Assembles}
use quic_web_rtc_like.Chownat.Received.{received_stream}
use quic_web_rtc_like.Chownat.State.{St, Callback, mtu, packet_size}
use quic_web_rtc_like.Chownat.Msg
use quic_web_rtc_like.Chownat.Assembly.{accept, assembled}

-- Whether a message is the packet that is awaited.
abbrev pub advances : Bytes → ℕ → Bool
advances (a ∷ b ∷ n ∷ p) next = (a == b'0') && (b == b'9') && (n % 256 == next)
advances _ next = false

-- How many packets have counted.
abbrev pub accepted : Trace → ℕ
accepted [] = 0
accepted (read fd n (got msg) ∷ t) =
    if n == packet_size
    then (if advances msg (assembled t).0 then suc (accepted t) else accepted t)
    else accepted t
accepted (_ ∷ t) = accepted t

-- A message is no packet, or carries one of the payloads, whole and no more than 255 packets before
-- or after its turn.
abbrev pub FromSender : List Bytes → ℕ → Bytes → Type 0
FromSender ps count msg =
    starts_with Msg.packet_tag msg ≡ true
    → (j : ℕ) × (p : Bytes) × (get_elem? ps j ≡ some p)
      × (msg ≡ Msg.packet j p)
      × (j < count + 256)
      × (count < j + 256)

abbrev pub Genuine : List Bytes → Trace → Type 0
Genuine ps [] = Unit
Genuine ps (read fd n (got msg) ∷ t) =
    Genuine ps t × ((n == packet_size) ≡ true → FromSender ps (accepted t) msg)
Genuine ps (_ ∷ t) = Genuine ps t

advances-tagged :
    (msg : Bytes) (next : ℕ) → advances msg next ≡ true → starts_with Msg.packet_tag msg ≡ true
advances-tagged [] next turn = absurd (ground arith)
advances-tagged (a ∷ []) next turn = absurd (ground arith)
advances-tagged (a ∷ b ∷ []) next turn = absurd (ground arith)
advances-tagged (a ∷ b ∷ n ∷ p) next turn = ground arith

accept-stays : (msg : Bytes) (s : ℕ × Bytes) → advances msg s.0 ≡ false → accept msg s ≡ s
accept-stays [] s other_one = refl
accept-stays (a ∷ []) s other_one = refl
accept-stays (a ∷ b ∷ []) s other_one = refl
accept-stays (a ∷ b ∷ n ∷ p) (next, stream) other_one = ground arith

advances-packet :
    (j : ℕ) (p : Bytes) (next : ℕ) → advances (Msg.packet j p) next ≡ true → j % 256 ≡ next
advances-packet j p next turn = ground arith

accept-packet :
    (j : ℕ) (p : Bytes) (s : ℕ × Bytes)
    → j % 256 ≡ s.0
    → accept (Msg.packet j p) s ≡ ((s.0 + 1) % 256, s.1 ++ take mtu p)
accept-packet j p (next, stream) turn = ground arith

module _ (ps : List Bytes)
    (fits : (j : ℕ) (p : Bytes) → get_elem? ps j ≡ some p → length p ≤ mtu) where
  -- The stream is that of the first payloads.
  abbrev InOrder : ℕ × Bytes → ℕ → Type 0
  InOrder s count = (s ≡ (count % 256, flatten (take count ps))) × (count ≤ length ps)

  accept-InOrder :
      (msg : Bytes) (s : ℕ × Bytes) (count : ℕ)
      → FromSender ps count msg
      → InOrder s count
      → InOrder (accept msg s) (if advances msg s.0 then suc count else count)
  accept-InOrder msg s count from (same, below) = elim (Bool-cases (advances msg s.0)) [
    | inr other_one ↦ rw (other_one, accept-stays msg s other_one) (same, below)
    | inl turn ↦
        let (j, p, carried, carries, ahead, behind) = from (advances-tagged msg s.0 turn) in
        let here : j % 256 ≡ s.0 = advances-packet j p s.0 (rw carries at turn) in
        let now : j ≡ count = omega (arith, here, ap (λ x. x.0) same) in
        let this : get_elem? ps count ≡ some p = rw now at carried in
        let whole : take mtu p ≡ p = take-all mtu p (fits j p carried) in
        rw (turn, carries)
          (
            accept-packet j p s here
                ∙ rw (same, whole, take-suc ps count this)
                    (rw flatten-snoc (ap (λ n. (n, flatten (take count ps) ++ p)) (omega arith))),
            get_elem?-lt ps count this,
          )
  ]

  assembled-InOrder : (t : Trace) → Genuine ps t → InOrder (assembled t) (accepted t)
  assembled-InOrder [] g = (refl, omega arith)
  assembled-InOrder (did c r ∷ t) g = assembled-InOrder t g
  assembled-InOrder (asked fd ∷ t) g = assembled-InOrder t g
  assembled-InOrder (waited fds tv r ∷ t) g = assembled-InOrder t g
  assembled-InOrder (clocked ∷ t) g = assembled-InOrder t g
  assembled-InOrder (notified r b ∷ t) g = assembled-InOrder t g
  assembled-InOrder (tls k ∷ t) g = assembled-InOrder t g
  assembled-InOrder (read fd n (no_input e) ∷ t) g = assembled-InOrder t g
  assembled-InOrder (read fd n (got msg) ∷ t) (g, from) =
      let rest = assembled-InOrder t g in
      elim (Bool-cases (n == packet_size)) [
        | inl packet_sized ↦
            rw packet_sized (accept-InOrder msg (assembled t) (accepted t) (from packet_sized) rest)
        | inr short ↦ rw short rest
      ]

  -- Where every packet among the datagrams that a run of udp_connection over chownat has read
  -- carries one of a sender's payloads, each at most an MTU, whole and at most 255 packets from
  -- its turn, however they are lost, repeated and reordered, the local end has got a prefix of the
  -- first so many payloads in the order of sending, each once, and at a success these whole; the
  -- callback leaves the connection alone, there is a TCP session, and at the start the same held
  -- of the datagrams read before, with nothing left over.
  pub delivers_sent :
      (os : Os) (callback : Callback)
      → Ignores callback
      → (fuel : ℕ) (c : St) → is_some c.tcp_session ≡ true
      → told Reason.udp_recv_data c.trace ≡ passed_on c.trace
      → Assembles c
      → Genuine ps (udp_connection os (chownat_api os callback fuel) fuel c).1.trace
      → let (o, c') = udp_connection os (chownat_api os callback fuel) fuel c in
        (rest : Bytes) × (flatten (take (accepted c'.trace) ps) ≡ passed_on c'.trace ++ rest)
        × (accepted c'.trace ≤ length ps)
        × (o ≡ returned ok → rest ≡ [])
  delivers_sent os callback ignores fuel c tcp even matches genuine =
      let c' = (udp_connection os (chownat_api os callback fuel) fuel c).1 in
      let (rest, left, whole) = received_stream os callback ignores fuel c tcp even matches in
      let (same, below) = assembled-InOrder c'.trace genuine in
      (rest, sym (ap (λ x. x.1) same) ∙ left, below, whole)
