-- ===== src/Conn/Uploaded.antt =====
-- `udp_connection` over a protocol that uploads sends what the local end had sent.
use mathlib.Core.List.{append-nil}
use mathlib.Core.Path.{subst}
use quic_web_rtc_like.Base.{
  ◌≡◌, ◌⊎◌, refl, ap, sym, ◌∙◌, Bool-cases, ℕ, some, true, false, arith, [], ◌∷◌, ◌++◌, List, Bytes,
  ℤ, inl, inr,
}
use quic_web_rtc_like.Sys.{
  Os, Trace, Event, read, Input, got, no_input, Outcome, returned, exited, out_of_fuel,
}
use quic_web_rtc_like.Conn.{Status, err, is_error, Conn}
use quic_web_rtc_like.Conn.Api.{Api, closes}
use quic_web_rtc_like.Conn.Kept.{is_silent, Opened, Carried, Promise, Holds}
use quic_web_rtc_like.Conn.Keeps.{udp_connection-Left, deliver-Holds, tcp_send-LocalOnly}
use quic_web_rtc_like.Conn.Relay.{told, taken, told-silent, taken-silent, tcp_send-unsent}
use quic_web_rtc_like.Conn.Local.{bytes_read, tcp_recv-ends}
use quic_web_rtc_like.Conn.Rounds.{from_local-through}
use quic_web_rtc_like.Conn.Upload.{Steady, Keeps, Uploads}
use quic_web_rtc_like.Conn.Loop.{from_local, drop_session}
use quic_web_rtc_like.Conn.Phase.{go, settle}
use quic_web_rtc_like.Conn.Session.{udp_connection}
use quic_web_rtc_like.Conn.Tcp.{tcp_mtu_size, tcp_recv, tcp_send}

taken-nothing :
    (fd : ℤ) (i : Input) (t : Trace)
    → bytes_read i ≡ []
    → taken (read fd tcp_mtu_size i ∷ t) ≡ taken t
taken-nothing fd (no_input e) t none_read = refl
taken-nothing fd (got b) t none_read = ap (λ l. taken t ++ l) none_read ∙ append-nil _

module _ {D C : Type 0} (os : Os) (api : Api D C) (Ready : Conn D C → Type 0)
    (Done : Outcome Status → Type 0) (reason : ℕ) (laws : Uploads Ready Done reason api) where
  -- On a ready connection what was sent is what the local end had sent, but for the last bytes.
  abbrev Late : Bytes → Conn D C → Type 0
  Late rest c = Ready c × (taken c.trace ≡ told reason c.trace ++ rest)

  -- While the session is opened, nothing is left to send.
  abbrev Even : Conn D C → Type 0
  Even = Late []

  -- Afterwards, unless it is closed.
  abbrev Open : Conn D C → Type 0
  Open c = (rest : Bytes) × Late rest c × (closes api c ≡ false → rest ≡ [])

  -- In the end, unless it is closed or its closing has not come to an end.
  abbrev Sent : Outcome Status → Conn D C → Type 0
  Sent o c = (rest : Bytes) × Late rest c × (Done o → closes api c ≡ false → rest ≡ [])

  abbrev uploading : Promise D C
  uploading = record {
    running = Open;
    ended = Sent;
    at_any_end = λ (rest, late, whole). (rest, late, λ ends. whole);
  }

  Late-after :
      (rest : Bytes) (c c1 : Conn D C) → Steady Ready reason api c c1 → Late rest c → Late rest c1
  Late-after rest c c1 (same, still) (ready, left) =
      (still ready, ap (λ v. v.1) same ∙ left ∙ ap (λ v. v.0 ++ rest) (sym same))

  Open-after : (c c1 : Conn D C) → Keeps Ready reason api c c1 → Open c → Open c1
  Open-after c c1 (steady, shut) (rest, late, whole) = (
    rest,
    Late-after rest c c1 steady late,
    λ still. whole (was_open (Bool-cases (closes api c)) still),
  )
    where
      was_open :
          (closes api c ≡ true) ⊎ (closes api c ≡ false)
          → closes api c1 ≡ false
          → closes api c ≡ false
      was_open (inl over) still = absurd (ground (arith, shut over))
      was_open (inr now) still = now

  -- What carries nothing but writes the history.
  Steady-moved :
      (c : Conn D C) (t : Trace)
      → told reason t ≡ told reason c.trace
      → taken t ≡ taken c.trace
      → Keeps Ready reason api c (record c { trace = t })
  Steady-moved c t e1 e2 = (
    (λ i. (e1 i, e2 i), laws.moved-Ready c t c.tcp_session),
    λ over. laws.moved-closes c t ∙ over,
  )

  silent-Keeps :
      (c : Conn D C) (e : Event)
      → is_silent e ≡ true
      → Keeps Ready reason api c (record c { trace = e ∷ c.trace })
  silent-Keeps c e quiet =
      Steady-moved c (e ∷ c.trace) (told-silent reason e c.trace quiet)
        (taken-silent e c.trace quiet)

  Even-Open : (c : Conn D C) → Even c → Open c
  Even-Open c even = ([], even, λ still. refl)

  Even-Opened : Opened Even Open api
  Even-Opened = record {
    event =
        λ c e quiet. Late-after [] c (record c { trace = e ∷ c.trace }) (silent-Keeps c e quiet).0;
    accepted = λ c tcp tcp' e (ready, even). (laws.moved-Ready c c.trace (some tcp') ready, even);
    hole_punching = λ c. Late-after [] c (api.hole_punching c).1 (laws.hole_punching c);
    connect =
        λ c p. Even-Open (api.connect c).1 (Late-after [] c (api.connect c).1 (laws.connect c) p);
  }

  Open-Carried : Carried Open api
  Open-Carried = record {
    event = λ c e quiet. Open-after c (record c { trace = e ∷ c.trace }) (silent-Keeps c e quiet);
    get_timeout = λ c. Open-after c (api.get_timeout c).2 (laws.get_timeout c);
    process_events = λ c f e. Open-after c (f c).1 (laws.process_events c f e);
    send_keep_alive = λ c. Open-after c (api.send_keep_alive c).1 (laws.send_keep_alive c);
    disconnect = λ c. Open-after c (api.disconnect c).1 (laws.disconnect c);
  }

  tcp_send-Open : (fuel : ℕ) (b : Bytes) (c : Conn D C) → Open c → Open (tcp_send os fuel b c).1
  tcp_send-Open fuel b c p =
      let t = (tcp_send os fuel b c).1.trace in
      subst Open (sym (tcp_send-LocalOnly os fuel b c)) (
        Open-after c (record c { trace = t })
          (Steady-moved c t (tcp_send-unsent (told reason) os (λ fd x r t. refl) fuel b c)
            (tcp_send-unsent taken os (λ fd x r t. refl) fuel b c))
          p)

  -- Dropping the session, whatever is left to send.
  drop_session-Open :
      (rest : Bytes) (c : Conn D C) → Late rest c → Holds uploading Open (drop_session os api c)
  unfolding drop_session
  drop_session-Open rest c late =
      dropped (api.disconnect c) (Late-after rest c (api.disconnect c).1 (laws.disconnect c).0 late)
        (laws.disconnect-closes c late.0)
    where
      dropped :
          (r : Outcome Status × Conn D C)
          → Late rest r.1
          → (Done r.0 → closes api r.1 ≡ true)
          → Holds uploading Open (settle r λ _ c1. go c1)
      dropped (returned s, c1) l over =
          (rest, l, λ still. absurd (ground (arith, over (laws.done s))))
      dropped (exited, c1) l over = (rest, l, λ ends still. absurd (ground (arith, over ends)))
      dropped (out_of_fuel, c1) l over = (rest, l, λ ends still. absurd (ground (arith, over ends)))

  -- What `tcp_recv` leaves: at a success nothing is left to send.
  abbrev Took : Status × Conn D C → Type 0
  Took (s, c) = (is_error s ≡ true → (rest : Bytes) × Late rest c) × (is_error s ≡ false → Open c)

  failing :
      (s : Status) (c : Conn D C) (rest : Bytes) → is_error s ≡ true → Late rest c → Took (s, c)
  failing s c rest failed late = (λ bad. (rest, late), λ good. absurd (ground arith))

  -- Sending what was read, with nothing left before.
  sent_on :
      (fd : ℤ) (b : Bytes) (c : Conn D C)
      → Even c
      → Took (api.udp_send b (record c { trace = read fd tcp_mtu_size (got b) ∷ c.trace }))
  sent_on fd b c (ready, even) =
      let c1 : Conn D C = record c { trace = read fd tcp_mtu_size (got b) ∷ c.trace } in
      let (s, c2) = api.udp_send b c1 in
      let (same, reported, pointers) = laws.udp_send b c1 in
      let ready2 : Ready c2 = pointers (laws.moved-Ready c c1.trace c.tcp_session ready) in
      let had : taken c2.trace ≡ told reason c.trace ++ b =
        same ∙ ap (λ l. l ++ b) (even ∙ append-nil _) in
      elim (Bool-cases (is_error s)) [
        | inl failed ↦
            let unsent : told reason c2.trace ≡ told reason c.trace = rw failed at reported in
            failing s c2 b failed (ready2, had ∙ ap (λ l. l ++ b) (sym unsent))
        | inr fine ↦
            let sent : told reason c2.trace ≡ told reason c.trace ++ b = rw fine at reported in
            (
              λ bad. absurd (ground arith),
              λ good. ([], (ready2, had ∙ sym sent ∙ sym (append-nil _)), λ still. refl),
            )
      ]

  read_nothing :
      (rest : Bytes) (c : Conn D C)
      → Late rest c
      → (fd : ℤ) (i : Input) → bytes_read i ≡ []
      → Took (err, record c { trace = read fd tcp_mtu_size i ∷ c.trace })
  read_nothing rest c (ready, left) fd i none_read =
      let t : Trace = read fd tcp_mtu_size i ∷ c.trace in
      failing err (record c { trace = t }) rest refl
        (laws.moved-Ready c t c.tcp_session ready, taken-nothing fd i c.trace none_read ∙ left)

  tcp_recv-Took : (c : Conn D C) → Open c → Took (tcp_recv os api c)
  tcp_recv-Took c (rest, late, whole) =
      tcp_recv-ends os api Took c (λ s failed. failing s c rest failed late)
        (read_nothing rest c late)
        λ still fd b. sent_on fd b c (subst (λ b. Late b c) (whole still) late)

  from_local-Open :
      (tfd : ℤ) (fds : List ℤ) (c : Conn D C)
      → Open c
      → Holds uploading Open (from_local os api tfd fds c)
  from_local-Open tfd fds c p =
      from_local-through os api uploading Open-Carried (λ c. (rest : Bytes) × Late rest c)
        (λ c (rest, late). drop_session-Open rest c late) tfd fds c p (tcp_recv-Took c p)

  -- Over any protocol that carries bytes to the peer only where they are sent, all that it was
  -- given or nothing, and whose closing leaves the session closed, what udp_connection has sent is
  -- a prefix of what the local end had sent, in order and each byte once, however it ends, and all
  -- of it unless the session is closed or its closing has not come to an end; at the start the
  -- connection is ready and nothing is left to send.
  pub udp_connection-uploads :
      (fuel : ℕ) (c : Conn D C)
      → Ready c
      → taken c.trace ≡ told reason c.trace
      → let (o, c') = udp_connection os api fuel c in
        (rest : Bytes) × (taken c'.trace ≡ told reason c'.trace ++ rest)
        × (Done o → closes api c' ≡ false → rest ≡ [])
  udp_connection-uploads fuel c ready even =
      let (rest, late, whole) =
        udp_connection-Left os api uploading Even
          (λ o c e. uploading.at_any_end {o = o} {c = c} (Even-Open c e)) Even-Opened Open-Carried
          (deliver-Holds os api uploading Open-Carried
            (λ c. Open-after c (api.udp_recv tcp_mtu_size c).2 (laws.udp_recv tcp_mtu_size c))
            tcp_send-Open)
          from_local-Open fuel c (ready, even ∙ sym (append-nil _)) in
      (rest, late.1, whole)
