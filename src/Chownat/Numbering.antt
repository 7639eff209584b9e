-- ===== src/Chownat/Numbering.antt =====
-- The packets that a run of `udp_connection` over chownat sends are numbered in order.
use mathlib.Core.Path.{subst}
use quic_web_rtc_like.Base.{
  ◌≡◌, refl, ap, sym, ◌∙◌, inl, inr, Bool-cases, ℕ, ◌+◌, ◌%◌, ◌≤◌, true, false, List, [], ◌∷◌, ◌++◌,
  Bytes, ℤ, arith, length, length-append,
}
use quic_web_rtc_like.Sys.{Os, Trace, Event, read, got}
use quic_web_rtc_like.Conn.{Status, err, is_error}
use quic_web_rtc_like.Conn.Kept.{is_silent, Opened, Carried, always, Holds}
use quic_web_rtc_like.Conn.Local.{tcp_recv-ends}
use quic_web_rtc_like.Conn.Rounds.{from_local-through}
use quic_web_rtc_like.Conn.Keeps.{udp_connection-Left, deliver-Holds, tcp_send-LocalOnly}
use quic_web_rtc_like.Conn.Relay.{tcp_send-unsent}
use quic_web_rtc_like.Conn.Loop.{from_local, drop_session}
use quic_web_rtc_like.Conn.Session.{udp_connection}
use quic_web_rtc_like.Conn.Tcp.{tcp_mtu_size, tcp_send}
use quic_web_rtc_like.Chownat.State.{St, Callback, mtu}
use quic_web_rtc_like.Chownat.Setup.{connect, send_keep_alive}
use quic_web_rtc_like.Chownat.Punch.{hole_punching}
use quic_web_rtc_like.Chownat.Disconnect.{disconnect_send}
use quic_web_rtc_like.Chownat.Transfer.{udp_send, udp_recv, store, next_number}
use quic_web_rtc_like.Chownat.Backend.{chownat_api}
use quic_web_rtc_like.Chownat.Delivery.{Ignores}
use quic_web_rtc_like.Chownat.Msg
use quic_web_rtc_like.Chownat.Wire.{posted, posted-silent, Numbered, Numbered-snoc}
use quic_web_rtc_like.Chownat.Upload.{
  Keeps, AllSet, shut, number, send_keep_alive-Keeps, hole_punching-Keeps, disconnect_send-Keeps,
  disconnect_send-shut,
}
use quic_web_rtc_like.Chownat.Carrying.{connect-Keeps, udp_recv-Keeps, udp_send-carried}

-- The packets that were sent are numbered in order, and with every pointer set,
abbrev Sound : St → Type 0
Sound c = AllSet c × Numbered (posted c.trace)

-- the next one gets the next number, unless the session is closed.
abbrev pub Counts : St → Type 0
Counts c = Sound c × (shut c ≡ false → number c ≡ length (posted c.trace) % 256)

Sound-after : (c c1 : St) → Keeps c c1 → Sound c → Sound c1
Sound-after c c1 keeps (set, so_far) =
    (keeps.pointers ∙ set, subst Numbered (sym (ap (λ v. v.2) keeps.amounts)) so_far)

was_open : (c c1 : St) → Keeps c c1 → shut c1 ≡ false → shut c ≡ false
was_open c c1 keeps still = elim (Bool-cases (shut c)) [
  | inl over ↦ absurd (ground (arith, keeps.closed over))
  | inr on ↦ on
]

Counts-after : (c c1 : St) → Keeps c c1 → Counts c → Counts c1
Counts-after c c1 keeps (sound, next) = (
  Sound-after c c1 keeps sound,
  λ still.
      keeps.numbered still
      ∙ next (was_open c c1 keeps still)
      ∙ ap (λ v. length v.2 % 256) (sym keeps.amounts),
)

Counts-moved :
    (c : St) (t : Trace) → posted t ≡ posted c.trace → Counts c → Counts (record c { trace = t })
Counts-moved c t e ((set, so_far), next) =
    ((set, subst Numbered (sym e) so_far), λ still. next still ∙ ap (λ l. length l % 256) (sym e))

module _ (os : Os) (callback : Callback) (ignores : Ignores callback) where
  -- A payload that is sent goes out as a packet, with the session's number.
  udp_send-posted :
      (b : Bytes) (c : St)
      → let (s, _, c1) = udp_send os callback b c in
        (is_error s ≡ true → posted c1.trace ≡ posted c.trace)
        × (is_error s ≡ false
            → (posted c1.trace ≡ posted c.trace ++ (Msg.packet (number c) b, b) ∷ [])
              × (length b ≤ mtu)
              × (number c1 ≡ next_number (number c))
              × (shut c ≡ false))
  unfolding udp_send store
  udp_send-posted b c = grind (arith, ignores)

  -- What `tcp_recv` leaves.
  abbrev Left : Status × St → Type 0
  Left (s, c) = (is_error s ≡ true → Sound c) × (is_error s ≡ false → Counts c)

  failing : (s : Status) (c : St) → is_error s ≡ true → Sound c → Left (s, c)
  failing s c failed sound = (λ bad. sound, λ good. absurd (ground arith))

  wrapped : (n : ℕ) (p : Bytes) → Msg.packet (n % 256) p ≡ Msg.packet n p
  wrapped n p = ap (λ x. b'0' ∷ b'9' ∷ x ∷ p) (omega arith)

  number_wraps : (n : ℕ) → next_number (n % 256) ≡ (n + 1) % 256
  unfolding next_number
  number_wraps n = ground arith

  length-snoc : (l : List (Bytes × Bytes)) (x : Bytes × Bytes) → length (l ++ x ∷ []) ≡ length l + 1
  length-snoc l x = omega (arith, length-append l (x ∷ []))

  udp_send-Left :
      (b : Bytes) (c : St) → Counts c → let (s, _, c1) = udp_send os callback b c in Left (s, c1)
  udp_send-Left b c ((set, so_far), next) =
      let (s, _, c1) = udp_send os callback b c in
      let (_, _, kept) = udp_send-carried os callback ignores b c in
      let (refused, sent) = udp_send-posted b c in
      let l = posted c.trace in
      elim (Bool-cases (is_error s)) [
        | inl bad ↦ failing s c1 bad (kept ∙ set, subst Numbered (sym (refused bad)) so_far)
        | inr good ↦
            let (grown, fits, moved, on) = sent good in
            let n : number c ≡ length l % 256 = next on in
            let message = Msg.packet (number c) b in
            let this : message ≡ Msg.packet (length l) b =
              ap (λ k. Msg.packet k b) n ∙ wrapped (length l) b in
            (
              λ bad. absurd (ground arith),
              λ _. (
                (
                  kept ∙ set,
                  subst Numbered (sym grown) (Numbered-snoc l message b so_far this fits),
                ),
                λ still.
                    moved
                    ∙ ap next_number n
                    ∙ number_wraps (length l)
                    ∙ ap (λ k. k % 256) (sym (length-snoc l (message, b)))
                    ∙ ap (λ x. length x % 256) (sym grown),
              ),
            )
      ]

  module _ (fuel : ℕ) where
    drop_session-Counts :
        (c : St)
        → Sound c
        → Holds (always Counts) Counts (drop_session os (chownat_api os callback fuel) c)
    unfolding drop_session
    drop_session-Counts c sound = (
      Sound-after c (disconnect_send os c).1 (disconnect_send-Keeps os c) sound,
      λ still. absurd (ground (arith, disconnect_send-shut os c sound.0)),
    )

    Counts-event :
        (c : St) (e : Event)
        → is_silent e ≡ true
        → Counts c
        → Counts (record c { trace = e ∷ c.trace })
    Counts-event c e quiet = Counts-moved c (e ∷ c.trace) (posted-silent e c.trace quiet)

    Counts-Opened : Opened Counts Counts (chownat_api os callback fuel)
    Counts-Opened = record {
      event = Counts-event;
      accepted = λ c tcp tcp' e p. p;
      hole_punching =
          λ c. Counts-after c (hole_punching os fuel c).1 (hole_punching-Keeps os fuel c);
      connect = λ c. Counts-after c (connect callback c).1 (connect-Keeps os callback ignores c);
    }

    Counts-Carried : Carried Counts (chownat_api os callback fuel)
    Counts-Carried = record {
      event = Counts-event;
      get_timeout = λ c p. p;
      process_events = λ c f e p. cc;
      send_keep_alive = λ c. Counts-after c (send_keep_alive os c).1 (send_keep_alive-Keeps os c);
      disconnect = λ c. Counts-after c (disconnect_send os c).1 (disconnect_send-Keeps os c);
    }

    from_local-Counts :
        (tfd : ℤ) (fds : List ℤ) (c : St)
        → Counts c
        → Holds (always Counts) Counts (from_local os (chownat_api os callback fuel) tfd fds c)
    from_local-Counts tfd fds c p =
        let api = chownat_api os callback fuel in
        from_local-through os api (always Counts) Counts-Carried Sound drop_session-Counts tfd fds c
          p
          (tcp_recv-ends os api Left c (λ s failed. failing s c failed p.0)
            (λ fd i none_read.
              failing err (record c { trace = read fd tcp_mtu_size i ∷ c.trace }) refl p.0)
            λ still fd b.
              udp_send-Left b (record c { trace = read fd tcp_mtu_size (got b) ∷ c.trace })
                (Counts-moved c (read fd tcp_mtu_size (got b) ∷ c.trace) refl p))

    tcp_send-Counts : (f : ℕ) (b : Bytes) (c : St) → Counts c → Counts (tcp_send os f b c).1
    tcp_send-Counts f b c p = subst Counts (sym (tcp_send-LocalOnly os f b c)) (
        Counts-moved c (tcp_send os f b c).1.trace
          (tcp_send-unsent posted os (λ fd x r t. refl) f b c) p)

    -- A run of udp_connection over chownat keeps the packets numbered.
    pub chownat-Counts :
        (c : St) → Counts c → Counts (udp_connection os (chownat_api os callback fuel) fuel c).1
    chownat-Counts =
        udp_connection-Left os (chownat_api os callback fuel) (always Counts) Counts (λ o c p. p)
          Counts-Opened Counts-Carried
          (deliver-Holds os (chownat_api os callback fuel) (always Counts) Counts-Carried
            (λ c.
              Counts-after c (udp_recv os callback fuel true tcp_mtu_size c).2
                (udp_recv-Keeps os callback ignores fuel tcp_mtu_size c))
            tcp_send-Counts)
          from_local-Counts fuel
