-- ===== src/Chownat/Stream.antt =====
-- What the tunnel has delivered is a prefix of what was sent.
use quic_web_rtc_like.Base.{
  ℕ, suc, ◌+◌, ◌%◌, ◌≤◌, ◌<◌, ◌≡◌, ◌≢◌, refl, true, false, some, [], ◌∷◌, Bytes, ℤ, sym, arith,
  length, take, min, get_elem?, flatten, get_elem?-lt, get_elem?-some, length-append,
  take-append_left, take-suc, take-all, flatten-snoc,
}
use native.Mathlib.Decide.{ℕ_discrete}
use mathlib.Core.List.{append-nil}
use quic_web_rtc_like.Sys.{Os, got}
use quic_web_rtc_like.Chownat.State.{Data, St, Callback, mtu, packet_size}
use quic_web_rtc_like.Chownat.Msg
use quic_web_rtc_like.Chownat.Closing.{IsLive}
use quic_web_rtc_like.Chownat.Invariant.{next_number-mod, next_number-ne}
use quic_web_rtc_like.Chownat.Delivery.{
  Ignores, emitted, udp_send-open, udp_recv-expected, udp_recv-unexpected,
}
use quic_web_rtc_like.Chownat.Transfer.{udp_send, udp_recv, store, next_number}
use quic_web_rtc_like.Chownat.Tunnel.{
  Tunnel, send, deliver, here, next, count_accepted, after_send, after_delivery, Reach, Inv,
  packets-snoc,
}

module _ (callback : Callback) (ignores : Ignores callback) where
  -- Sending extends both lists, and leaves what was delivered a prefix.
  pub send-Inv :
      (w : Tunnel) (os : Os) (p m : Bytes)
      → length p ≤ mtu
      → emitted (udp_send os callback p w.sender).2.trace ≡ some m
      → Inv w
      → Inv (after_send callback w os p m)
  unfolding store
  send-Inv w os p m fits onto v =
      let done =
        udp_send-open os callback ignores p w.sender v.out v.sender_live v.sender_open fits in
      record {
        out = store p v.out;
        sender_live = done.1;
        sender_open = v.sender_open;
        numbered = rw (v.numbered, next_number-mod) (omega (arith, length-append w.sent (p ∷ [])));
        into = v.into;
        receiver_live = v.receiver_live;
        receiver_open = v.receiver_open;
        awaited = v.awaited;
        accepted = omega (arith, v.accepted, length-append w.sent (p ∷ []));
        on_wire =
            omega (arith, v.on_wire, length-append w.sent (p ∷ []), length-append w.wire (m ∷ []));
        packets =
            packets-snoc w.wire w.sent m p v.on_wire (ground (arith, v.numbered)) fits v.packets;
        stream = rw (take-append_left w.sent (p ∷ []) w.count v.accepted) v.stream;
      }

  -- The packet whose turn it is: its payload is handed over.
  deliver_next-Inv :
      (w : Tunnel) (os : Os) (fuel : ℕ) (p : Bytes) (v : Inv w)
      → get_elem? w.sent w.count ≡ some p
      → os.input w.receiver.trace v.receiver_live.session.socket_fd packet_size
        ≡ got (Msg.packet w.count p)
      → Inv (after_delivery callback w os fuel)
  deliver_next-Inv w os fuel p v carried reads =
      let done =
        udp_recv-expected os callback ignores fuel mtu w.count p w.receiver v.into v.receiver_live
          v.receiver_open reads (sym v.awaited) in
      let c = (udp_recv os callback fuel true mtu w.receiver).2 in
      let counted : count_accepted w.receiver c w.count ≡ suc w.count =
        ground (arith, v.receiver_live.has_data, done.2.has_data, next_number-ne v.into.expected) in
      let whole : take (min (length p) mtu) p ≡ p =
        take-all (min (length p) mtu) p (omega (arith, (v.packets w.count p carried).1)) in
      record {
        out = v.out;
        sender_live = v.sender_live;
        sender_open = v.sender_open;
        numbered = v.numbered;
        into = record v.into { expected = next_number v.into.expected };
        receiver_live = done.2;
        receiver_open = v.receiver_open;
        awaited = rw counted (rw (v.awaited, next_number-mod) (omega arith));
        accepted = rw counted (get_elem?-lt w.sent w.count carried);
        on_wire = v.on_wire;
        packets = v.packets;
        stream =
            rw (counted, done.1, whole, v.stream, take-suc w.sent w.count carried)
              (sym (flatten-snoc (take w.count w.sent) p));
      }

  -- Any other packet: nothing is handed over.
  deliver_other-Inv :
      (w : Tunnel) (os : Os) (fuel i : ℕ) (p : Bytes) (v : Inv w)
      → i % 256 ≢ w.count % 256
      → os.input w.receiver.trace v.receiver_live.session.socket_fd packet_size
        ≡ got (Msg.packet i p)
      → Inv (after_delivery callback w os fuel)
  deliver_other-Inv w os fuel i p v early reads =
      let c = (udp_recv os callback fuel true mtu w.receiver).2 in
      let done =
        udp_recv-unexpected os callback ignores fuel mtu i p w.receiver v.into v.receiver_live
          v.receiver_open reads (rw v.awaited early) in
      let counted : count_accepted w.receiver c w.count ≡ w.count =
        ground (arith, v.receiver_live.has_data, done.3.has_data) in
      record {
        out = v.out;
        sender_live = v.sender_live;
        sender_open = v.sender_open;
        numbered = v.numbered;
        into = v.into;
        receiver_live = done.3;
        receiver_open = v.receiver_open;
        awaited = rw counted v.awaited;
        accepted = rw counted v.accepted;
        on_wire = v.on_wire;
        packets = v.packets;
        stream = rw (counted, done.1, append-nil) v.stream;
      }

  pub deliver-Inv :
      (w : Tunnel) (os : Os) (fuel i : ℕ) (m : Bytes)
      → get_elem? w.wire i ≡ some m
      → i < w.count + 256
      → w.count < i + 256
      → ((fd : ℤ) → os.input w.receiver.trace fd packet_size ≡ got m)
      → Inv w
      → Inv (after_delivery callback w os fuel)
  deliver-Inv w os fuel i m at ahead behind reads v =
      let (p, carried) =
        get_elem?-some w.sent i (omega (arith, get_elem?-lt w.wire i at, v.on_wire)) in
      let onto = (v.packets i p carried).0 in
      let fd = v.receiver_live.session.socket_fd in
      let comes : os.input w.receiver.trace fd packet_size ≡ got (Msg.packet i p) = cc (reads fd) in
      elim (ℕ_discrete (i % 256) (w.count % 256)) [
        | yes turn ↦
            let now : i ≡ w.count = omega arith in
            deliver_next-Inv w os fuel p v (rw now at carried) (rw now at comes)
        | no early ↦ deliver_other-Inv w os fuel i p v early comes
      ]

  pub Reach-Inv : {w x : Tunnel} → Inv w → Reach callback w x → Inv x
  Reach-Inv v here = v
  Reach-Inv v (next r (send w os p m fits onto)) = send-Inv w os p m fits onto (Reach-Inv v r)
  Reach-Inv v (next r (deliver w os fuel i m at ahead behind reads)) =
      deliver-Inv w os fuel i m at ahead behind reads (Reach-Inv v r)

-- Two ends that were just opened, and nothing on the wire.
abbrev pub fresh : St → St → Tunnel
fresh s r = record { sender = s; receiver = r; wire = []; sent = []; delivered = []; count = 0 }

pub fresh-Inv :
    (s r : St) {out into : Data}
    → IsLive s out
    → IsLive r into
    → (out.closed ≡ false) × (out.id ≡ 0)
    → (into.closed ≡ false) × (into.expected ≡ 0)
    → Inv (fresh s r)
fresh-Inv s r {out} {into} sl rl a b = record {
  out = out;
  sender_live = sl;
  sender_open = a.0;
  numbered = a.1;
  into = into;
  receiver_live = rl;
  receiver_open = b.0;
  awaited = b.1;
  accepted = omega arith;
  on_wire = refl;
  packets = λ i p h. cc;
  stream = refl;
}

-- Two open ends with their counters at 0 send and receive over a network that loses, repeats and
-- reorders packets, none of which arrives more than 255 packets from its turn, and the callback
-- leaves the connection alone. Then the bytes that the receiver has handed over are exactly the
-- payloads of the first packets that were sent, in order, each once and whole.
pub delivered_prefix :
    (callback : Callback)
    → Ignores callback
    → (s r : St) {out into : Data} → IsLive s out
    → IsLive r into
    → (out.closed ≡ false) × (out.id ≡ 0)
    → (into.closed ≡ false) × (into.expected ≡ 0)
    → {x : Tunnel} → Reach callback (fresh s r) x
    → (x.count ≤ length x.sent) × (x.delivered ≡ flatten (take x.count x.sent))
delivered_prefix callback ignores s r sl rl a b reach =
    let u = Reach-Inv callback ignores (fresh-Inv s r sl rl a b) reach in (u.accepted, u.stream)
