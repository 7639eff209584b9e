-- ===== src/Chownat/EndToEnd.antt =====
-- Both ends of the tunnel: what the receiver's local end gets is what the sender's had sent.
use mathlib.Core.List.{append-nil, append_assoc}
use quic_web_rtc_like.Base.{
  ℕ, ◌+◌, ◌≤◌, ◌<◌, ◌≡◌, sym, ap, ◌∙◌, true, false, some, List, [], ◌∷◌, ◌++◌, Bytes, arith, ◌==◌,
  ◌%◌, length, take, take-all, drop, get_elem?, flatten, flatten-append, take-append-drop,
  starts_with, is_some,
}
use quic_web_rtc_like.Sys.{
  Os, Trace, did, asked, waited, clocked, notified, tls, read, got, no_input, returned,
}
use quic_web_rtc_like.Conn.{ok}
use quic_web_rtc_like.Conn.Relay.{told, taken, passed_on}
use quic_web_rtc_like.Conn.Session.{udp_connection}
use quic_web_rtc_like.Chownat.State.{St, Callback, mtu, packet_size}
use quic_web_rtc_like.Chownat.Msg
use quic_web_rtc_like.Chownat.Reason
use quic_web_rtc_like.Chownat.Backend.{chownat_api}
use quic_web_rtc_like.Chownat.Delivery.{Ignores}
use quic_web_rtc_like.Chownat.Assembled.{Assembles}
use quic_web_rtc_like.Chownat.Genuine.{accepted, FromSender, Genuine, delivers_sent}
use quic_web_rtc_like.Chownat.Sent.{sent_stream}
use quic_web_rtc_like.Chownat.Upload.{AllSet, shut, number}
use quic_web_rtc_like.Chownat.Numbering.{Counts, chownat-Counts}
use quic_web_rtc_like.Chownat.Wire.{
  posted, payloads, Numbered, length-payloads, get_elem?-payloads, payloads-get_elem?, told-posted,
}

-- A message is no packet, or is one of the datagrams that were sent with a payload, no more than 255
-- packets before or after its turn.
abbrev pub FromWire : List (Bytes × Bytes) → ℕ → Bytes → Type 0
FromWire sent count msg =
    starts_with Msg.packet_tag msg ≡ true
    → (j : ℕ) × (p : Bytes) × (get_elem? sent j ≡ some (msg, p))
      × (j < count + 256)
      × (count < j + 256)

-- The network between both ends: it loses, repeats and reorders datagrams, and makes up no packet.
abbrev pub Delivers : List (Bytes × Bytes) → Trace → Type 0
Delivers sent [] = Unit
Delivers sent (read fd n (got msg) ∷ t) =
    Delivers sent t × ((n == packet_size) ≡ true → FromWire sent (accepted t) msg)
Delivers sent (_ ∷ t) = Delivers sent t

module _ (sent : List (Bytes × Bytes)) (numbered : Numbered sent) where
  wire-sender :
      (count : ℕ) (msg : Bytes) → FromWire sent count msg → FromSender (payloads sent) count msg
  wire-sender count msg from tagged =
      let (j, p, has, ahead, behind) = from tagged in
      (j, p, get_elem?-payloads sent j msg p has, (numbered j msg p has).0, ahead, behind)

  Delivers-Genuine : (t : Trace) → Delivers sent t → Genuine (payloads sent) t
  Delivers-Genuine [] d = tt
  Delivers-Genuine (did c r ∷ t) d = Delivers-Genuine t d
  Delivers-Genuine (asked fd ∷ t) d = Delivers-Genuine t d
  Delivers-Genuine (waited fds tv r ∷ t) d = Delivers-Genuine t d
  Delivers-Genuine (clocked ∷ t) d = Delivers-Genuine t d
  Delivers-Genuine (notified r b ∷ t) d = Delivers-Genuine t d
  Delivers-Genuine (tls k ∷ t) d = Delivers-Genuine t d
  Delivers-Genuine (read fd n (no_input e) ∷ t) d = Delivers-Genuine t d
  Delivers-Genuine (read fd n (got msg) ∷ t) (d, from) =
      (Delivers-Genuine t d, λ sized. wire-sender (accepted t) msg (from sized))

  payloads-fit : (j : ℕ) (p : Bytes) → get_elem? (payloads sent) j ≡ some p → length p ≤ mtu
  payloads-fit j p has =
      let (m, there) = payloads-get_elem? sent j p has in (numbered j m p there).1

-- A prefix of the first so many payloads is one of all of them and what follows.
prefix_of_all :
    (n : ℕ) (ps : List Bytes) (xs rest more : Bytes)
    → flatten (take n ps) ≡ xs ++ rest
    → flatten ps ++ more ≡ xs ++ ((rest ++ flatten (drop n ps)) ++ more)
prefix_of_all n ps xs rest more e =
    ap (λ l. l ++ more)
      (ap flatten (sym (take-append-drop n ps))
        ∙ flatten-append (take n ps) (drop n ps)
        ∙ ap (λ l. l ++ flatten (drop n ps)) e
        ∙ append_assoc xs rest (flatten (drop n ps)))
    ∙ append_assoc xs (rest ++ flatten (drop n ps)) more

all_taken :
    (sent : List (Bytes × Bytes)) (n : ℕ) → n ≡ length sent → take n (payloads sent) ≡ payloads sent
all_taken sent n every = take-all n (payloads sent) (omega (arith, length-payloads sent))

-- A connection with every pointer set and its control initialised, that has sent nothing, has read
-- nothing from the local end, and whose first packet has the number 0.
pub record Fresh (c : St) : Type 0 where
  pub set : AllSet c
  pub nothing_sent : posted c.trace ≡ []
  pub nothing_taken : taken c.trace ≡ []
  pub first : shut c ≡ false → number c ≡ 0

Fresh-Counts : (c : St) → Fresh c → Counts c
Fresh-Counts c fresh = (
  (fresh.set, λ j m p has. absurd (ground (arith, fresh.nothing_sent))),
  λ still. fresh.first still ∙ ap (λ l. length l % 256) (sym fresh.nothing_sent),
)

-- Two programs run udp_connection over chownat, each with its system, callback and fuel: the first
-- starts with nothing sent or taken, every pointer set and the number 0, the second with a TCP
-- session, a session that, while open, awaits the packet after what it has handed over, and all of
-- that passed on. Where every packet that the second reads as a datagram was sent by the first
-- with a payload, which a retransmission is not, and comes at most 255 packets from its turn,
-- however the datagrams are lost, repeated and reordered and however both runs end, what the
-- second's local end has got is a prefix of what the first's local end had sent, each byte once
-- and in order; and where the second's run succeeds and as many packets have counted as were sent,
-- it is all that the first's callback was told as sent. Both callbacks leave the connection alone.
pub end_to_end :
    (os1 os2 : Os) (callback1 callback2 : Callback)
    → Ignores callback1
    → Ignores callback2
    → (fuel1 fuel2 : ℕ) (c1 c2 : St) → Fresh c1
    → is_some c2.tcp_session ≡ true
    → told Reason.udp_recv_data c2.trace ≡ passed_on c2.trace
    → Assembles c2
    → let sender = (udp_connection os1 (chownat_api os1 callback1 fuel1) fuel1 c1).1 in
      let receiver = (udp_connection os2 (chownat_api os2 callback2 fuel2) fuel2 c2).1 in
      Delivers (posted sender.trace) receiver.trace
      → let sender = (udp_connection os1 (chownat_api os1 callback1 fuel1) fuel1 c1).1 in
        let (o, receiver) = udp_connection os2 (chownat_api os2 callback2 fuel2) fuel2 c2 in
        (rest : Bytes) × (taken sender.trace ≡ passed_on receiver.trace ++ rest)
        × (o ≡ returned ok
            → accepted receiver.trace ≡ length (posted sender.trace)
            → told Reason.udp_data_sent sender.trace ≡ passed_on receiver.trace)
end_to_end os1 os2 callback1 callback2 ignores1 ignores2 fuel1 fuel2 c1 c2 fresh tcp even matches
      delivers =
    let sender = (udp_connection os1 (chownat_api os1 callback1 fuel1) fuel1 c1).1 in
    let receiver = (udp_connection os2 (chownat_api os2 callback2 fuel2) fuel2 c2).1 in
    let sent = posted sender.trace in
    let numbered : Numbered sent =
      (chownat-Counts os1 callback1 ignores1 fuel1 c1 (Fresh-Counts c1 fresh)).0.1 in
    let nothing : told Reason.udp_data_sent c1.trace ≡ [] =
      told-posted c1.trace ∙ ap (λ l. flatten (payloads l)) fresh.nothing_sent in
    let (unsent, had, _) =
      sent_stream os1 callback1 ignores1 fuel1 c1 fresh.set (fresh.nothing_taken ∙ sym nothing) in
    let (left, got_first, _, whole) =
      delivers_sent (payloads sent) (payloads-fit sent numbered) os2 callback2 ignores2 fuel2 c2 tcp
        even matches (Delivers-Genuine sent numbered receiver.trace delivers) in
    let n = accepted receiver.trace in
    (
      (left ++ flatten (drop n (payloads sent))) ++ unsent,
      had
          ∙ ap (λ l. l ++ unsent) (told-posted sender.trace)
          ∙ prefix_of_all n (payloads sent) (passed_on receiver.trace) left unsent got_first,
      λ good every.
          told-posted sender.trace
          ∙ sym (ap flatten (all_taken sent n every))
          ∙ got_first
          ∙ ap (λ l. passed_on receiver.trace ++ l) (whole good)
          ∙ append-nil (passed_on receiver.trace),
    )
