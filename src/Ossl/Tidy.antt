-- ===== src/Ossl/Tidy.antt =====
-- What was made of OpenSSL has been freed or is held, however long udp_connection runs over
-- ossl_quic.
use mathlib.Core.Path.{subst}
use quic_web_rtc_like.Base.{
  ap, sym, or_return, ℕ, Option, none, true, Bytes, List, ◌∷◌, ◌+◌, ◌≡◌, refl, ◌∙◌, arith,
  Option-cases, inl, inr,
}
use quic_web_rtc_like.Sys.{
  Os, Trace, Event, Outcome, did, asked, waited, clocked, notified, read, tls,
}
use quic_web_rtc_like.Conn.{Status}
use quic_web_rtc_like.Conn.Api.{Api}
use quic_web_rtc_like.Conn.Kept.{is_silent, Opened, Carried, Forwards}
use quic_web_rtc_like.Conn.Keeps.{udp_connection-always, tcp_send-LocalOnly}
use quic_web_rtc_like.Conn.Session.{udp_connection}
use quic_web_rtc_like.Conn.Tcp.{tcp_mtu_size, tcp_send}
use quic_web_rtc_like.Conn.Relay.{tcp_send-unsent}
use quic_web_rtc_like.Ossl.State.{Data, Config}
use quic_web_rtc_like.Ossl.Setup.{St}
use quic_web_rtc_like.Ossl.Tls.{Tls}
use quic_web_rtc_like.Ossl.Punch.{hole_punching}
use quic_web_rtc_like.Ossl.Connect.{Callback, connect_quic}
use quic_web_rtc_like.Ossl.Close.{disconnect}
use quic_web_rtc_like.Ossl.Transfer.{udp_send, udp_recv, process_events}
use quic_web_rtc_like.Ossl.Backend.{ossl_api}
use quic_web_rtc_like.Ossl.Closed.{Ignores, IsReady}
use quic_web_rtc_like.Ossl.Released.{freed}
use quic_web_rtc_like.Ossl.Blind.{Blind, punch-same, close_quic-same}
use quic_web_rtc_like.Ossl.Objects.{times, made, holding, Balanced, connect_quic-Balanced}
use quic_web_rtc_like.Ossl.Sent.{
  AllSet, standing, hole_punching-standing, send_keep_alive-same, connect_quic-standing,
  disconnect-standing, process_events-standing, udp_recv-carried,
}

-- What a history makes and frees.
abbrev objects : Tls → Trace → List ℕ × List ℕ
objects ssl t = (made ssl t, freed t)

-- The data's connection and listener.
abbrev pub lines : St → Option ℕ × Option ℕ
lines c = or_return c.data_ptr (none, none) λ d. (d.conn, d.listener)

-- What there is of OpenSSL.
abbrev account : Tls → St → (List ℕ × List ℕ) × List ℕ
account ssl c = (objects ssl c.trace, holding c.data_ptr)

objects-silent :
    (ssl : Tls) (e : Event) (t : Trace) → is_silent e ≡ true → objects ssl (e ∷ t) ≡ objects ssl t
objects-silent ssl (did c r) t quiet = refl
objects-silent ssl (asked fd) t quiet = refl
objects-silent ssl (waited fds tv r) t quiet = refl
objects-silent ssl clocked t quiet = refl
objects-silent ssl (notified r b) t quiet = refl
objects-silent ssl (read fd n i) t quiet = refl
objects-silent ssl (tls k) t quiet = absurd (ground arith)

objects-Blind : (ssl : Tls) → Blind (objects ssl)
objects-Blind ssl = record {
  sends = λ fd b a r t. refl;
  sets = λ fd n r t. refl;
  probes = λ fd i t. refl;
  waits = λ fds tv r t. refl;
  clocks = λ t. refl;
  handles = λ h t. refl;
  shuts = λ h t. refl;
}

module _ (os : Os) (ssl : Tls) (callback : Callback) (ignores : Ignores callback) where
  hole_punching-account :
      (fuel : ℕ) (c : St)
      → let c1 = (hole_punching os fuel c).1 in
        (account ssl c1 ≡ account ssl c) × (lines c1 ≡ lines c)
  unfolding hole_punching
  hole_punching-account fuel c = grind (arith, punch-same (objects ssl) (objects-Blind ssl))

  pub disconnect-account :
      (fuel : ℕ) (c : St) → account ssl (disconnect os ssl callback fuel c).1 ≡ account ssl c
  unfolding disconnect
  disconnect-account fuel c =
      grind (arith, ignores, close_quic-same (objects ssl) (objects-Blind ssl))

  process_events-account :
      (fuel : ℕ) (c : St) → account ssl (process_events ssl callback os fuel c).1 ≡ account ssl c
  unfolding process_events
  process_events-account fuel c = grind (arith, disconnect-account)

  udp_send-account :
      (b : Bytes) (c : St)
      → let c1 = (udp_send ssl callback b c).2 in
        (account ssl c1 ≡ account ssl c) × (standing c1 ≡ standing c)
  unfolding udp_send
  udp_send-account b c = grind (arith, ignores)

  udp_recv-account :
      (n : ℕ) (c : St) → account ssl (udp_recv ssl callback true true n c).2 ≡ account ssl c
  unfolding udp_recv
  udp_recv-account n c = grind (arith, ignores)

-- Every pointer is set, the control is initialised, and what was made has been freed or is held.
abbrev pub Tidy : Tls → St → Type 0
Tidy ssl c = AllSet c × Balanced ssl c

-- And there is no connection and no listener yet.
abbrev pub Unlinked : Tls → St → Type 0
Unlinked ssl c = Tidy ssl c × (lines c ≡ (none, none))

pub Tidy-after :
    (ssl : Tls) (c c1 : St)
    → account ssl c1 ≡ account ssl c
    → standing c1 ≡ standing c
    → Tidy ssl c
    → Tidy ssl c1
Tidy-after ssl c c1 same e (set, b) = (
  e ∙ set,
  subst (λ (v : (List ℕ × List ℕ) × List ℕ). (h : ℕ) → times h v.0.0 ≡ times h v.0.1 + times h v.1)
      (sym same) b,
)

-- The records that are there.
pub AllSet-IsReady : (c : St) → AllSet c → (d : Data ℕ ℕ) × IsReady c d
AllSet-IsReady c set = elim (Option-cases c.udp_session) [
  | inl null ↦ absurd (ground arith)
  | inr (u, has_u) ↦ elim (Option-cases c.ctrl) [
    | inl null ↦ absurd (ground arith)
    | inr (k, has_k) ↦ elim (Option-cases c.data_ptr) [
      | inl null ↦ absurd (ground arith)
      | inr (d, has_d) ↦ (
        d,
        record {
          session = u;
          has_session = has_u;
          ctrl = k;
          has_ctrl = has_k;
          inited = ground arith;
          has_data = has_d;
        },
      )
    ]
  ]
]

module _ (os : Os) (ssl : Tls) (callback : Callback) (ignores : Ignores callback) (fuel : ℕ) where
  abbrev api : Api (Data ℕ ℕ) Config
  api = ossl_api os ssl callback fuel

  connect-Tidy : (c : St) → Unlinked ssl c → Tidy ssl (connect_quic os ssl callback c).1
  connect-Tidy c ((set, b), idle) =
      let (d, live) = AllSet-IsReady c set in
      (
        connect_quic-standing os ssl callback ignores c ∙ set,
        connect_quic-Balanced ssl os callback ignores c d live (ground (arith, live.has_data))
            (ground (arith, live.has_data)) b,
      )

  event-Tidy :
      (c : St) (e : Event)
      → is_silent e ≡ true
      → Tidy ssl c
      → Tidy ssl (record c { trace = e ∷ c.trace })
  event-Tidy c e quiet =
      Tidy-after ssl c (record c { trace = e ∷ c.trace })
        (ap (λ o. (o, holding c.data_ptr)) (objects-silent ssl e c.trace quiet)) refl

  Unlinked-Opened : Opened (Unlinked ssl) (Tidy ssl) api
  Unlinked-Opened = record {
    event = λ c e quiet (tidy, idle). (event-Tidy c e quiet tidy, idle);
    accepted = λ c tcp tcp' e p. p;
    hole_punching = λ c (tidy, idle).
        let (same, still) = hole_punching-account os ssl callback ignores fuel c in
        (
          Tidy-after ssl c (hole_punching os fuel c).1 same (hole_punching-standing os fuel c) tidy,
          still ∙ idle,
        );
    connect = connect-Tidy;
  }

  Tidy-Carried : Carried (Tidy ssl) api
  Tidy-Carried = record {
    event = event-Tidy;
    get_timeout = λ c p. p;
    process_events = λ c f e p.
        let same : process_events ssl callback os fuel ≡ f =
          ap (λ o. or_return o (process_events ssl callback os fuel) (λ g. g)) e in
        subst (λ (g : St → Outcome Status × St). Tidy ssl (g c).1) same
          (Tidy-after ssl c (process_events ssl callback os fuel c).1
            (process_events-account os ssl callback ignores fuel c)
            (process_events-standing os ssl callback ignores fuel c) p);
    send_keep_alive = λ c p. subst (Tidy ssl) (sym (send_keep_alive-same c)) p;
    disconnect = λ c.
        Tidy-after ssl c (disconnect os ssl callback fuel c).1
          (disconnect-account os ssl callback ignores fuel c)
          (disconnect-standing os ssl callback ignores fuel c);
  }

  Tidy-Forwards : Forwards (Tidy ssl) api
  Tidy-Forwards = record {
    local_read = λ c fd i p. p;
    udp_send = λ b c.
        let (same, kept) = udp_send-account os ssl callback ignores b c in
        Tidy-after ssl c (udp_send ssl callback b c).2 same kept;
  }

  tcp_send-Tidy : (f : ℕ) (b : Bytes) (c : St) → Tidy ssl c → Tidy ssl (tcp_send os f b c).1
  tcp_send-Tidy f b c p =
      let t = (tcp_send os f b c).1.trace in
      subst (Tidy ssl) (sym (tcp_send-LocalOnly os f b c)) (
        Tidy-after ssl c (record c { trace = t })
          (ap (λ o. (o, holding c.data_ptr))
            (tcp_send-unsent (objects ssl) os (λ fd x r t. refl) f b c))
          refl p)

  pub udp_connection-Tidy : (c : St) → Unlinked ssl c → Tidy ssl (udp_connection os api fuel c).1
  udp_connection-Tidy =
      udp_connection-always os api (Tidy ssl) (Unlinked ssl) (λ c p. p.0) Unlinked-Opened
        Tidy-Carried
        (λ c.
          Tidy-after ssl c (udp_recv ssl callback true true tcp_mtu_size c).2
            (udp_recv-account os ssl callback ignores tcp_mtu_size c)
            (udp_recv-carried os ssl callback ignores tcp_mtu_size c).2)
        tcp_send-Tidy Tidy-Forwards fuel
