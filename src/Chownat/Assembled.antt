-- ===== src/Chownat/Assembled.antt =====
-- What chownat hands over under `udp_connection` is the stream that the datagrams amount to.
use quic_web_rtc_like.Base.{
  ◌≡◌, ◌≢◌, refl, ap, sym, inl, inr, ◌∙◌, Bool-cases, Option-cases, starts_with, leb, ltb, ◌==◌,
  ◌%◌, ℕ, Option, some, true, false, arith, [], ◌∷◌, Bytes, length,
}
use quic_web_rtc_like.Sys.{Os, Trace, Outcome, returned, exited, out_of_fuel, Outcome-cases}
use quic_web_rtc_like.Conn.{Status, err, UdpSession}
use quic_web_rtc_like.Conn.Relay.{told}
use quic_web_rtc_like.Chownat.State.{Data, St, Callback, mtu, mark_closed}
use quic_web_rtc_like.Chownat.Transfer.{dispatch, on_packet, on_resend, next_number}
use quic_web_rtc_like.Chownat.Disconnect.{disconnect_recv}
use quic_web_rtc_like.Chownat.Delivery.{Ignores}
use quic_web_rtc_like.Chownat.Reason
use quic_web_rtc_like.Chownat.Msg
use quic_web_rtc_like.Chownat.Assembly.{
  accept, assembled, accept-short, accept-untagged, close_request-differs, confirm-differs,
  resend-differs, take-min,
}
use quic_web_rtc_like.Chownat.Seen.{seen, disconnect_recv-seen, on_resend-seen}

-- An open session awaits the packet after the stream, and has handed over all of the stream; a
-- closed one still has handed over all of it.
abbrev pub Matches : Option Data → ℕ × Bytes → Bytes → Type 0
Matches o (next, stream) handed =
    (handed ≡ stream) × ((d : Data) → o ≡ some d → d.closed ≡ false → d.expected ≡ next)

abbrev pub Assembles : St → Type 0
Assembles c = Matches c.data_ptr (assembled c.trace) (told Reason.udp_recv_data c.trace)

-- Data of an open session came from data of an open one that awaited the same packet.
abbrev pub StillAwaits : Option Data → Option Data → Type 0
StillAwaits o o1 =
    (d1 : Data)
    → o1 ≡ some d1
    → d1.closed ≡ false
    → (d : Data) × (o ≡ some d) × (d.closed ≡ false) × (d1.expected ≡ d.expected)

pub StillAwaits-same : (o o1 : Option Data) → o1 ≡ o → StillAwaits o o1
StillAwaits-same o o1 e d1 has still = (d1, sym e ∙ has, still, refl)

-- A history of the same content.
pub Assembles-moved :
    (o : Option Data) (t t' : Trace)
    → told Reason.udp_recv_data t ≡ told Reason.udp_recv_data t'
    → assembled t ≡ assembled t'
    → Matches o (assembled t') (told Reason.udp_recv_data t')
    → Matches o (assembled t) (told Reason.udp_recv_data t)
Assembles-moved o t t' e1 e2 p = rw (e1, e2) p

-- An operation that reads no packet.
pub Assembles-from :
    (c c1 : St)
    → told Reason.udp_recv_data c1.trace ≡ told Reason.udp_recv_data c.trace
    → assembled c1.trace ≡ assembled c.trace
    → StillAwaits c.data_ptr c1.data_ptr
    → Assembles c
    → Assembles c1
Assembles-from c c1 same_told same_stream still (even, awaits) = (
  same_told ∙ even ∙ ap (λ v. v.1) (sym same_stream),
  λ d1 has open_now.
      let (d, had, was_open, same) = still d1 has open_now in
      same ∙ awaits d had was_open ∙ ap (λ v. v.0) (sym same_stream),
)

pub Assembles-after :
    (c c1 : St) → seen c1 ≡ seen c → StillAwaits c.data_ptr c1.data_ptr → Assembles c → Assembles c1
Assembles-after c c1 e = Assembles-from c c1 (ap (λ v. v.0.0.1) e) (ap (λ v. v.0.0.0) e)

module _ (os : Os) (callback : Callback) (ignores : Ignores callback) where
  on_resend-data :
      (u : UdpSession) (d : Data) (msg : Bytes) (c : St)
      → (on_resend os callback u d msg c).data_ptr ≡ c.data_ptr
  unfolding on_resend
  on_resend-data u d msg c = grind (arith, ignores)

  -- A disconnection that does not return has changed nothing.
  disconnect_recv-data :
      (fuel : ℕ) (c : St)
      → let (o, c1) = disconnect_recv os fuel c in
        (o ≢ exited) × (o ≡ out_of_fuel → c1.data_ptr ≡ c.data_ptr)
  unfolding disconnect_recv
  disconnect_recv-data fuel c = ground arith

  on_resend-Assembles :
      (u : UdpSession) (d : Data) (msg : Bytes) (c : St)
      → Assembles c
      → Assembles (on_resend os callback u d msg c)
  on_resend-Assembles u d msg c =
      Assembles-after c (on_resend os callback u d msg c)
        (on_resend-seen os callback ignores u d msg c)
        (StillAwaits-same c.data_ptr (on_resend os callback u d msg c).data_ptr
          (on_resend-data u d msg c))

  -- The peer's request to close.
  abbrev on_close : ℕ → St → Outcome Status × Bytes × St
  on_close fuel c =
      let (o, c1) = disconnect_recv os fuel c in
      elim o [ returned _ ↦ (returned err, [], mark_closed c1) | _ ↦ (out_of_fuel, [], c1) ]

  pub mark_closed-StillAwaits : (o : Option Data) (c : St) → StillAwaits o (mark_closed c).data_ptr
  mark_closed-StillAwaits o c d1 has still =
      absurd
        (elim (Option-cases c.data_ptr) [ inl null ↦ ground arith | inr (d, e) ↦ ground arith ])

  on_close-Assembles : (fuel : ℕ) (c : St) → Assembles c → Assembles (on_close fuel c).2
  on_close-Assembles fuel c p =
      let (o, c1) = disconnect_recv os fuel c in
      let same = disconnect_recv-seen os fuel c in
      let (goes_on, stuck) = disconnect_recv-data fuel c in
      elim (Outcome-cases o) [
        | inl (s, e) ↦
            rw (e, on_close)
              (Assembles-after c (mark_closed c1) same (mark_closed-StillAwaits c.data_ptr c1) p)
        | inr (inl e) ↦ absurd (goes_on e)
        | inr (inr e) ↦
            rw (e, on_close)
              (Assembles-after c c1 same (StillAwaits-same c.data_ptr c1.data_ptr (stuck e)) p)
      ]

  on_packet-Assembles :
      (u : UdpSession) (d : Data) (msg : Bytes) (s : ℕ × Bytes) (c : St)
      → c.data_ptr ≡ some d
      → Matches (some d) s (told Reason.udp_recv_data c.trace)
      → d.closed ≡ false
      → assembled c.trace ≡ accept msg s
      → starts_with Msg.packet_tag msg ≡ true
      → leb 3 (length msg) ≡ true
      → Assembles (on_packet os callback u d mtu msg c).2
  unfolding on_packet next_number
  on_packet-Assembles u d [] s c has (even, awaits) still hears tagged long = absurd (ground arith)
  on_packet-Assembles u d (a ∷ []) s c has (even, awaits) still hears tagged long =
      absurd (ground arith)
  on_packet-Assembles u d (a ∷ b ∷ []) s c has (even, awaits) still hears tagged long =
      absurd (ground arith)
  on_packet-Assembles u d (a ∷ b ∷ n ∷ p) (next, stream) c has (even, awaits) still hears tagged
        long =
      let k : d.expected ≡ next = awaits d refl still in
      elim (Bool-cases (n % 256 == d.expected)) [
        | inl matching ↦ grind (arith, ignores, take-min p mtu)
        | inr other_one ↦ grind (arith, ignores)
      ]

  pub dispatch-Assembles :
      (fuel : ℕ) (u : UdpSession) (d : Data) (msg : Bytes) (s : ℕ × Bytes) (c : St)
      → c.data_ptr ≡ some d
      → Matches (some d) s (told Reason.udp_recv_data c.trace)
      → d.closed ≡ false
      → assembled c.trace ≡ accept msg s
      → Assembles (dispatch os callback fuel u d mtu msg c).2
  unfolding dispatch
  dispatch-Assembles fuel u d msg s c has match still hears =
      let plain : accept msg s ≡ s → Assembles c = λ same.
        let q = hears ∙ same in
        (
          match.0 ∙ ap (λ x. x.1) (sym q),
          λ d' e o. match.1 d' (sym has ∙ e) o ∙ ap (λ x. x.0) (sym q),
        ) in
      let skips = accept-untagged msg s in
      elim (Bool-cases (ltb (length msg) 3)) [
        | inl short ↦ rw (short, dispatch) (plain (accept-short msg s short))
        | inr long ↦ elim (Bool-cases (starts_with Msg.close_request msg)) [
          | inl closing ↦
              rw (long, closing, dispatch)
                (on_close-Assembles fuel c (plain (skips (close_request-differs msg closing))))
          | inr open_still ↦ elim (Bool-cases (starts_with Msg.confirm msg)) [
            | inl confirming ↦
                rw (long, open_still, confirming, dispatch)
                  (plain (skips (confirm-differs msg confirming)))
            | inr not_confirm ↦ elim (Bool-cases (starts_with Msg.resend_tag msg)) [
              | inl asked ↦
                  rw (long, open_still, not_confirm, asked, dispatch)
                    (on_resend-Assembles u d msg c (plain (skips (resend-differs msg asked))))
              | inr not_asked ↦ elim (Bool-cases (starts_with Msg.packet_tag msg)) [
                | inl tagged ↦
                    rw (long, open_still, not_confirm, not_asked, tagged, dispatch)
                      (on_packet-Assembles u d msg s c has match still hears tagged (ground arith))
                | inr untagged ↦
                    rw (long, open_still, not_confirm, not_asked, untagged, dispatch)
                      (plain (skips untagged))
              ]
            ]
          ]
        ]
      ]
