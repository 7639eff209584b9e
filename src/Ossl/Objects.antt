-- ===== src/Ossl/Objects.antt =====
-- The objects of OpenSSL: those that a history makes, those that it frees, and those that the data
-- hold.
use mathlib.Core.Path.{subst}
use quic_web_rtc_like.Base.{
  ℕ, Bool, ◌+◌, ◌≡◌, refl, true, false, ◌==◌, Option, none, some, List, [], ◌∷◌, ◌++◌, arith,
  Bool-cases, inl, inr, ◌⊎◌, if◌then◌else◌,
}
use quic_web_rtc_like.Sys.{Os, Trace, tls}
use quic_web_rtc_like.Sys.Tls.{ctx_new, ssl_new, new_listener, accept_connection}
use quic_web_rtc_like.Conn.{Status, ok, UdpSession}
use quic_web_rtc_like.Conn.Kept.{of_or_return}
use quic_web_rtc_like.Ossl.State.{Data, Config}
use quic_web_rtc_like.Ossl.Setup.{St, init, setup_client, setup_server, new_ctx, choose_suites}
use quic_web_rtc_like.Ossl.Connect.{
  Callback, prepare_client, prepare_server, pre_connect, handshake, connect_quic,
}
use quic_web_rtc_like.Ossl.Tls.{Tls}
use quic_web_rtc_like.Ossl.Closed.{Ignores, IsReady}
use quic_web_rtc_like.Ossl.Released.{freed, held}

-- How often an object stands in a list.
abbrev pub times : ℕ → List ℕ → ℕ
times h [] = 0
times h (x ∷ xs) = (if h == x then 1 else 0) + times h xs

pub times-append : (h : ℕ) (xs ys : List ℕ) → times h (xs ++ ys) ≡ times h xs + times h ys
times-append h [] ys = omega arith
times-append h (x ∷ xs) ys = omega (arith, times-append h xs ys)

-- What the data hold.
abbrev pub holding : Option (Data ℕ ℕ) → List ℕ
holding none = []
holding (some d) = held d.ctx ++ held d.listener ++ held d.conn

module _ (ssl : Tls) where
  -- The objects that OpenSSL gave, newest first.
  abbrev pub made : Trace → List ℕ
  made [] = []
  made (tls (ctx_new server) ∷ t) = held (ssl.object t (ctx_new server)) ++ made t
  made (tls (ssl_new x) ∷ t) = held (ssl.object t (ssl_new x)) ++ made t
  made (tls (new_listener x) ∷ t) = held (ssl.object t (new_listener x)) ++ made t
  made (tls (accept_connection x) ∷ t) = held (ssl.object t (accept_connection x)) ++ made t
  made (_ ∷ t) = made t

  -- What was made has been freed, or is held, once.
  abbrev pub Tallies : Trace → Option (Data ℕ ℕ) → Type 0
  Tallies t d = (h : ℕ) → times h (made t) ≡ times h (freed t) + times h (holding d)

  abbrev pub Balanced : St → Type 0
  Balanced c = Tallies c.trace c.data_ptr

  -- Between both histories nothing is freed, and what is made is held.
  abbrev Grows : Trace → Data ℕ ℕ → Trace → Data ℕ ℕ → Type 0
  Grows t d t1 d1 =
      (freed t1 ≡ freed t)
      × ((h : ℕ)
          → times h (made t1) + times h (holding (some d))
            ≡ times h (made t) + times h (holding (some d1)))

  prepare_client-Grows :
      (os : Os) (u : UdpSession) (d : Data ℕ ℕ) (t : Trace)
      → d.conn ≡ none
      → let (_, d1, t1) = prepare_client os ssl u d t in Grows t d t1 d1
  unfolding prepare_client
  prepare_client-Grows os u d t unconnected = (ground arith, λ h. grind (arith, times-append))

  prepare_server-Grows :
      (os : Os) (u : UdpSession) (d : Data ℕ ℕ) (t : Trace)
      → d.conn ≡ none
      → d.listener ≡ none
      → let (_, d1, t1) = prepare_server os ssl u d t in Grows t d t1 d1 × (d1.conn ≡ none)
  unfolding prepare_server
  prepare_server-Grows os u d t unconnected idle =
      ((ground arith, λ h. grind (arith, times-append)), ground arith)

  handshake-Grows :
      (os : Os) (mode : ℕ) (d : Data ℕ ℕ) (t : Trace)
      → ((mode == b's') ≡ true → d.conn ≡ none)
      → let (_, d1, t1) = handshake os ssl mode d t in Grows t d t1 d1
  unfolding handshake
  handshake-Grows os mode d t unconnected = (ground arith, λ h. grind (arith, times-append))

  Grows-Tallies :
      (t : Trace) (d : Data ℕ ℕ) (t1 : Trace) (d1 : Data ℕ ℕ)
      → Grows t d t1 d1
      → Tallies t (some d)
      → Tallies t1 (some d1)
  Grows-Tallies t d t1 d1 (same, more) b h = rw same (omega (arith, more h, b h))

  -- The handshake after what has been prepared.
  abbrev Held : Status × Data ℕ ℕ × Trace → Os → ℕ → Type 0
  Held (_, d, t) os mode =
      Tallies t (some d) × (let (_, d1, t1) = handshake os ssl mode d t in Tallies t1 (some d1))

  prepared-Held :
      (os : Os) (mode : ℕ) (d : Data ℕ ℕ) (t : Trace) (p : Status × Data ℕ ℕ × Trace)
      → Grows t d p.2 p.1
      → ((mode == b's') ≡ true → p.1.conn ≡ none)
      → Tallies t (some d)
      → Held p os mode
  prepared-Held os mode d t (s, d1, t1) more none_yet b =
      let b1 = Grows-Tallies t d t1 d1 more b in
      let (_, d2, t2) = handshake os ssl mode d1 t1 in
      (b1, Grows-Tallies t1 d1 t2 d2 (handshake-Grows os mode d1 t1 none_yet) b1)

  module _ (os : Os) (callback : Callback) (ignores : Ignores callback) where
    connect_after :
        (c : St) (d : Data ℕ ℕ) (live : IsReady c d) (p : Status × Data ℕ ℕ × Trace)
        → pre_connect os ssl c ≡ (p.0, record c { data_ptr = some p.1; trace = p.2 })
        → Held p os live.ctrl.mode
        → Balanced (connect_quic os ssl callback c).1
    unfolding connect_quic
    connect_after c d live p prepares held h = grind (
      arith,
      prepares,
      live.has_session,
      live.has_ctrl,
      live.has_data,
      ignores,
      held.0 h,
      held.1 h,
    )

    -- Connecting, with no connection and no listener before, holds what it makes.
    pub connect_quic-Balanced :
        (c : St) (d : Data ℕ ℕ) (live : IsReady c d)
        → d.conn ≡ none
        → d.listener ≡ none
        → Balanced c
        → Balanced (connect_quic os ssl callback c).1
    unfolding pre_connect
    connect_quic-Balanced c d live unconnected idle b h =
        let u = live.session in
        let mode = live.ctrl.mode in
        let t = c.trace in
        let b1 : Tallies t (some d) = subst (Tallies t) live.has_data b in
        let holds = prepared-Held os mode d t in
        elim (Bool-cases (mode == b'c')) [
          | inl is_c ↦
              let p = prepare_client os ssl u d t in
              let grown = prepare_client-Grows os u d t unconnected in
              connect_after c d live p
                (ground (arith, live.has_session, live.has_ctrl, live.has_data))
                (holds p grown (λ e. absurd (ground arith)) b1) h
          | inr not_c ↦ elim (Bool-cases (mode == b's')) [
            | inl is_s ↦
                let p = prepare_server os ssl u d t in
                let (grown, none_yet) = prepare_server-Grows os u d t unconnected idle in
                connect_after c d live p
                  (ground (arith, live.has_session, live.has_ctrl, live.has_data))
                  (holds p grown (λ e. none_yet) b1) h
            | inr not_s ↦
                connect_after c d live (ok, d, t)
                  (ground (arith, live.has_session, live.has_ctrl, live.has_data))
                  (holds (ok, d, t) (refl, λ h. refl) (λ e. unconnected) b1) h
          ]
        ]

  -- A new context takes the place of the old one, which is freed.
  new_ctx-Tallies :
      (server : Bool) (d : Data ℕ ℕ) (t : Trace)
      → Tallies t (some d)
      → let (d1, t1) = new_ctx ssl server d t in Tallies t1 (some d1)
  unfolding new_ctx
  new_ctx-Tallies server d t b h = grind (arith, times-append, b h)

  setup_client-Tallies :
      (cfg : Config) (d : Data ℕ ℕ) (t : Trace)
      → Tallies t (some d)
      → let (_, d1, t1) = setup_client ssl cfg d t in Tallies t1 (some d1)
  unfolding setup_client choose_suites
  setup_client-Tallies cfg d t b h = grind (arith, new_ctx-Tallies false d t b h)

  -- The calls that set a new context up neither make nor free anything.
  setup_server-objects :
      (cfg : Config) (d : Data ℕ ℕ) (t : Trace)
      → let (_, d1, t1) = setup_server ssl cfg d t in
        let (d2, t2) = new_ctx ssl true d t in
        ((d1 ≡ d) × (t1 ≡ t)) ⊎ ((d1 ≡ d2) × (made t1 ≡ made t2) × (freed t1 ≡ freed t2))
  unfolding setup_server choose_suites
  setup_server-objects cfg d t = ground arith

  setup_server-Tallies :
      (cfg : Config) (d : Data ℕ ℕ) (t : Trace)
      → Tallies t (some d)
      → let (_, d1, t1) = setup_server ssl cfg d t in Tallies t1 (some d1)
  setup_server-Tallies cfg d t b h = elim (setup_server-objects cfg d t) [
    | inl (same, still) ↦ rw (same, still) (b h)
    | inr (same, makes, frees) ↦ rw (same, makes, frees) (new_ctx-Tallies true d t b h)
  ]

  pub init-Balanced : (os : Os) (c : St) → Balanced c → Balanced (init ssl os c).1
  unfolding init
  init-Balanced os c b =
      of_or_return (λ (r : Status × St). Balanced r.1) c.data_ptr _ _ b
        λ d e.
          of_or_return (λ (r : Status × St). Balanced r.1) c.config _ _ b
            λ cfg _.
              of_or_return (λ (r : Status × St). Balanced r.1) c.ctrl _ _ b
                λ k _.
                  of_or_return (λ (r : Status × St). Balanced r.1) c.udp_session _ _ b
                    λ u _ h.
                      let b1 : Tallies c.trace (some d) = subst (Tallies c.trace) e b in
                      elim (Bool-cases (k.mode == b'c')) [
                        | inl is_c ↦ ground (arith, b h, setup_client-Tallies cfg d c.trace b1 h)
                        | inr not_c ↦ elim (Bool-cases (k.mode == b's')) [
                          | inl is_s ↦ ground (arith, b h, setup_server-Tallies cfg d c.trace b1 h)
                          | inr not_s ↦ ground (arith, b h, b1 h)
                        ]
                      ]
