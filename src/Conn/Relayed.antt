-- ===== src/Conn/Relayed.antt =====
-- `udp_connection` over a protocol that relays passes on what it hands over.
use mathlib.Core.Path.{subst}
use mathlib.Core.List.{append-nil, append_assoc}
use quic_web_rtc_like.Base.{
  ℕ, ◌≡◌, refl, sym, ap, ◌∙◌, Bool, true, false, Option, some, [], ◌++◌, length, Bytes, inl, inr,
  Bool-cases, none, is_some, ◌∷◌, if◌then◌else◌,
}
use quic_web_rtc_like.Sys.{Os, Event, Outcome, returned, exited, out_of_fuel}
use quic_web_rtc_like.Conn.{Status, ok, is_error, Conn}
use quic_web_rtc_like.Conn.Api.{Api, closes}
use quic_web_rtc_like.Conn.Kept.{
  is_silent, Promise, Opened, Carried, Forwards, InPair, Holds, Holds-if,
}
use quic_web_rtc_like.Conn.Rounds.{from_local-Holds}
use quic_web_rtc_like.Conn.Keeps.{udp_connection-Left}
use quic_web_rtc_like.Conn.Loop.{drop_session, deliver}
use quic_web_rtc_like.Conn.Phase.{Phase, stop, go, ◌>>=◌, settle}
use quic_web_rtc_like.Conn.Session.{udp_connection}
use quic_web_rtc_like.Conn.Tcp.{tcp_mtu_size, tcp_send}
use quic_web_rtc_like.Conn.Written.{tcp_send-Wrote_anywhere, tcp_send-result}
use quic_web_rtc_like.Conn.Relay.{
  told, passed_on, view, bytes_of, Relays, Behind, Relayed, relaying, told-silent, tcp_send-unsent,
  passed_on-silent,
}

-- An operation that does not change the view.
moved : {v w : Bytes × Bytes × Bool} (rest : Bytes) → w ≡ v → Behind rest v → Behind rest w
moved rest e p = subst (Behind rest) (sym e) p

module _ {D C : Type 0} (os : Os) (api : Api D C) (reason : ℕ) (laws : Relays reason api) where
  abbrev promise : Promise D C
  promise = relaying reason

  relaying-event :
      (c : Conn D C) (e : Event)
      → is_silent e ≡ true
      → promise.running c
      → promise.running (record c { trace = e ∷ c.trace })
  relaying-event c e quiet (tcp, even) = (
    tcp,
    told-silent reason e c.trace quiet
        ∙ even
        ∙ ap (λ l. l ++ []) (sym (passed_on-silent e c.trace quiet)),
  )

  relaying-Opened : Opened promise.running promise.running api
  relaying-Opened = record {
    event = relaying-event;
    accepted = λ c tcp tcp' e p. (refl, p.1);
    hole_punching = λ c p. moved [] (laws.hole_punching c) p;
    connect = λ c p. moved [] (laws.connect c) p;
  }

  relaying-Carried : Carried promise.running api
  relaying-Carried = record {
    event = relaying-event;
    get_timeout = λ c p. moved [] (laws.get_timeout c) p;
    process_events = λ c f e p. moved [] (laws.process_events c f e) p;
    send_keep_alive = λ c p. moved [] (laws.send_keep_alive c) p;
    disconnect = λ c p. moved [] (laws.disconnect c) p;
  }

  relaying-Forwards : Forwards promise.running api
  relaying-Forwards = record {
    local_read = λ c fd i p. p;
    udp_send = λ b c p. moved [] (laws.udp_send b c) p;
  }

  -- After a failure the session is dropped; the bytes that are left stay so.
  drops :
      {A : Type 0} (Q : A → Type 0) (rest : Bytes) (s : Status) (c : Conn D C)
      → Behind rest (view reason c)
      → is_error s ≡ true
      → Holds promise Q (drop_session os api c >>= λ c1. stop (returned s) c1)
  unfolding drop_session
  drops Q rest s c p failed = dropped (api.disconnect c) (moved rest (laws.disconnect c) p)
    where
      dropped :
          (r : Outcome Status × Conn D C)
          → Behind rest (view reason r.1)
          → Holds promise Q (settle r (λ _ c1. go c1) >>= λ c1. stop (returned s) c1)
      dropped (returned x, c1) (tcp, left) = (rest, left, λ e. cc)
      dropped (exited, c1) (tcp, left) = (rest, left, λ e. cc)
      dropped (out_of_fuel, c1) (tcp, left) = (rest, left, λ e. cc)

  -- What `tcp_send` leaves.
  passed :
      (fuel : ℕ) (bytes : Bytes) (c : Conn D C)
      → Behind bytes (view reason c)
      → let (o, c') = tcp_send os fuel bytes c in
        (rest : Bytes) × Behind rest (view reason c') × (o ≡ returned ok → rest ≡ [])
  passed fuel bytes c (tcp, left) =
      let ((q, rest, parts, wrote, whole), still) = tcp_send-Wrote_anywhere os fuel bytes c tcp in
      (
        rest,
        (
          still,
          tcp_send-unsent (told reason) os (λ fd b r t. refl) fuel bytes c
              ∙ left
              ∙ ap (λ l. passed_on c.trace ++ l) (sym parts)
              ∙ sym (append_assoc (passed_on c.trace) q rest)
              ∙ ap (λ l. l ++ rest) (sym wrote),
        ),
        whole,
      )

  -- Writing to the local end what was handed over: the rest of `deliver`.
  abbrev write : ℕ → Option Bytes → Conn D C → Phase D C (Option ℕ × Conn D C)
  write fuel out c = settle (tcp_send os fuel (bytes_of out) c) λ s c1.
      if is_error s
      then (drop_session os api c1 >>= λ c2. stop (returned s) c2)
      else go (some (length (bytes_of out)), c1)

  write-Holds :
      (fuel : ℕ) (out : Option Bytes) (c : Conn D C)
      → Behind (bytes_of out) (view reason c)
      → Holds promise (InPair promise) (write fuel out c)
  write-Holds fuel out c p =
      let (o, c1) = tcp_send os fuel (bytes_of out) c in
      let (rest, left, whole) = passed fuel (bytes_of out) c p in
      wrote o c1 rest left whole (tcp_send-result os fuel (bytes_of out) c)
    where
      wrote :
          (o : Outcome Status) (c1 : Conn D C) (rest : Bytes)
          → Behind rest (view reason c1)
          → (o ≡ returned ok → rest ≡ [])
          → ((s : Status) → o ≡ returned s → is_error s ≡ false → s ≡ ok)
          → Holds promise (InPair promise) (
              settle
                (o, c1)
                λ s c2.
                  if is_error s
                  then (drop_session os api c2 >>= λ c3. stop (returned s) c3)
                  else go (some (length (bytes_of out)), c2))
      wrote exited c1 rest (tcp, left) whole fine = (rest, left, λ e. cc)
      wrote out_of_fuel c1 rest (tcp, left) whole fine = (rest, left, λ e. cc)
      wrote (returned s) c1 rest left whole fine = elim (Bool-cases (is_error s)) [
        | inl failed ↦ rw (failed, Holds) (drops (InPair promise) rest s c1 left failed)
        | inr good ↦
            let all : rest ≡ [] = whole (ap returned (fine s refl good)) in
            rw (good, Holds) (subst (λ b. Behind b (view reason c1)) all left)
      ]

  deliver-Holds :
      (fuel : ℕ) (c : Conn D C)
      → promise.running c
      → Holds promise (InPair promise) (deliver os api fuel c)
  unfolding deliver
  deliver-Holds fuel c (tcp, even) =
      let (o, out, c1) = api.udp_recv tcp_mtu_size c in
      let handed = laws.udp_recv tcp_mtu_size c in
      received o out c1
        (moved (bytes_of out) handed
          (tcp, ap (λ l. l ++ bytes_of out) (even ∙ append-nil (passed_on c.trace))))
        (laws.udp_recv-closed tcp_mtu_size c)
    where
      received :
          (o : Outcome Status) (out : Option Bytes) (c1 : Conn D C)
          → Behind (bytes_of out) (view reason c1)
          → (closes api c1 ≡ true → bytes_of out ≡ [])
          → Holds promise (InPair promise) (
              settle
                (o, c1)
                λ s c2.
                  if is_error s
                  then (if closes api c2
                      then go (none, c2)
                      else (drop_session os api c2 >>= λ c3. stop (returned s) c3))
                  else if closes api c2
                  then go (none, c2)
                  else write fuel out c2)
      received exited out c1 (tcp, left) shut = (bytes_of out, left, λ e. cc)
      received out_of_fuel out c1 (tcp, left) shut = (bytes_of out, left, λ e. cc)
      received (returned s) out c1 left shut = elim (Bool-cases (closes api c1)) [
        | inl over ↦
            let none_left = subst (λ b. Behind b (view reason c1)) (shut over) left in
            Holds-if promise (InPair promise) (is_error s) _ _ (rw (over, Holds) none_left)
              (rw (over, Holds) none_left)
        | inr on ↦ elim (Bool-cases (is_error s)) [
          | inl failed ↦
              rw (failed, on, Holds) (drops (InPair promise) (bytes_of out) s c1 left failed)
          | inr good ↦ rw (good, on, Holds) (write-Holds fuel out c1 left)
        ]
      ]

  -- Over any protocol that hands bytes over only by reading from the peer, returns what it hands
  -- over and does not close the session then, udp_connection passes on to the local end a prefix
  -- of what was handed over, in order and each byte once, however it ends, and all of it at a
  -- success; there is a TCP session, and at the start nothing is left to pass on.
  pub udp_connection-relays :
      (fuel : ℕ) (c : Conn D C)
      → is_some c.tcp_session ≡ true
      → told reason c.trace ≡ passed_on c.trace
      → let (o, c') = udp_connection os api fuel c in Relayed reason o c'.trace
  udp_connection-relays fuel c tcp even =
      udp_connection-Left os api promise promise.running
        (λ o c p. promise.at_any_end {o = o} {c = c} p) relaying-Opened relaying-Carried
        deliver-Holds (from_local-Holds os api promise relaying-Carried relaying-Forwards) fuel c
        (tcp, even ∙ sym (append-nil (passed_on c.trace)))
