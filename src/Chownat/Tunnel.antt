-- ===== src/Chownat/Tunnel.antt =====
-- The tunnel in one direction, over a network that loses, repeats and reorders packets, and what is
-- true of it all along.
use quic_web_rtc_like.Base.{
  ℕ, suc, ◌+◌, ◌%◌, ◌≤◌, ◌<◌, ◌≡◌, true, false, Option, none, some, List, [], ◌∷◌, ◌++◌, Bytes, ℤ,
  arith, length, take, ◌==◌, if◌then◌else◌, get_elem?, flatten, get_elem?-lt, get_elem?-append_left,
  get_elem?-append_last, length-append,
}
use native.Mathlib.Decide.{dec_lt}
use quic_web_rtc_like.Sys.{Os, got}
use quic_web_rtc_like.Chownat.State.{Data, St, Callback, mtu, packet_size}
use quic_web_rtc_like.Chownat.Msg
use quic_web_rtc_like.Chownat.Closing.{IsLive}
use quic_web_rtc_like.Chownat.Delivery.{emitted}
use quic_web_rtc_like.Chownat.Transfer.{udp_send, udp_recv}

-- Both ends, the packets on the wire and the payloads that they carry, both in the order of
-- sending; what the receiver has handed over, and how many packets it has accepted.
pub record Tunnel : Type 0 where
  pub sender : St
  pub receiver : St
  pub wire : List Bytes
  pub sent : List Bytes
  pub delivered : Bytes
  pub count : ℕ

abbrev pub expected_of : Option Data → ℕ
expected_of none = 0
expected_of (some d) = d.expected

abbrev pub handed_over : Option Bytes → Bytes
handed_over none = []
handed_over (some b) = b

-- One more, where the number that the receiver expects has changed.
abbrev pub count_accepted : St → St → ℕ → ℕ
count_accepted before after n =
    if expected_of before.data_ptr == expected_of after.data_ptr then n else suc n

module _ (callback : Callback) where
  abbrev pub after_send : Tunnel → Os → Bytes → Bytes → Tunnel
  after_send w os p m = record w {
    sender = (udp_send os callback p w.sender).2;
    wire = w.wire ++ m ∷ [];
    sent = w.sent ++ p ∷ [];
  }

  abbrev pub after_delivery : Tunnel → Os → ℕ → Tunnel
  after_delivery w os fuel =
      let (_, out, c) = udp_recv os callback fuel true mtu w.receiver in
      record w {
        receiver = c;
        delivered = w.delivered ++ handed_over out;
        count = count_accepted w.receiver c w.count;
      }

  -- The network delivers any packet that was sent, as often as it likes, or never; but no packet
  -- arrives more than 255 packets before or after its turn, since numbers come again after 256.
  pub data Step : Tunnel → Tunnel → Type 0 where
    send :
        (w : Tunnel) (os : Os) (p m : Bytes)
        → length p ≤ mtu
        → emitted (udp_send os callback p w.sender).2.trace ≡ some m
        → Step w (after_send w os p m)
    deliver :
        (w : Tunnel) (os : Os) (fuel i : ℕ) (m : Bytes)
        → get_elem? w.wire i ≡ some m
        → i < w.count + 256
        → w.count < i + 256
        → ((fd : ℤ) → os.input w.receiver.trace fd packet_size ≡ got m)
        → Step w (after_delivery w os fuel)

  pub data Reach (w : Tunnel) : Tunnel → Type 0 where
    here : Reach w w
    next : {v x : Tunnel} → Reach w v → Step v x → Reach w x

pub record Inv (w : Tunnel) : Type 0 where
  pub out : Data
  pub sender_live : IsLive w.sender out
  pub sender_open : out.closed ≡ false
  pub numbered : out.id ≡ length w.sent % 256
  pub into : Data
  pub receiver_live : IsLive w.receiver into
  pub receiver_open : into.closed ≡ false
  pub awaited : into.expected ≡ w.count % 256
  pub accepted : w.count ≤ length w.sent
  pub on_wire : length w.wire ≡ length w.sent
  pub packets :
      (i : ℕ) (p : Bytes)
      → get_elem? w.sent i ≡ some p
      → (get_elem? w.wire i ≡ some (Msg.packet i p)) × (length p ≤ mtu)
  pub stream : w.delivered ≡ flatten (take w.count w.sent)

-- Where packet `m` carries payload `p` and both are added at the end, the wire still matches.
pub packets-snoc :
    (wire sent : List Bytes) (m p : Bytes)
    → length wire ≡ length sent
    → m ≡ Msg.packet (length sent) p
    → length p ≤ mtu
    → ((i : ℕ) (q : Bytes)
        → get_elem? sent i ≡ some q
        → (get_elem? wire i ≡ some (Msg.packet i q)) × (length q ≤ mtu))
    → (i : ℕ) (q : Bytes) → get_elem? (sent ++ p ∷ []) i ≡ some q
    → (get_elem? (wire ++ m ∷ []) i ≡ some (Msg.packet i q)) × (length q ≤ mtu)
packets-snoc wire sent m p same carries fits old i q at =
    let below = get_elem?-lt (sent ++ p ∷ []) i at in
    elim (dec_lt i (length sent)) [
      | yes b ↦ ground (
        arith,
        get_elem?-append_left sent (p ∷ []) i b,
        get_elem?-append_left wire (m ∷ []) i (omega arith),
        old i q,
      )
      | no b ↦
          let last : i ≡ length sent = omega (arith, length-append sent (p ∷ [])) in
          let last' : i ≡ length wire = omega arith in
          ground (arith, get_elem?-append_last sent p, get_elem?-append_last wire m, last, last')
    ]
