-- ===== src/Ossl/Sent.antt =====
-- source/libs/protocols/ossl_quic/src/ossl_quic.c: what the local end sends goes to the peer, under
-- `udp_connection` over ossl_quic.
use mathlib.Core.Path.{subst}
use quic_web_rtc_like.Base.{
  ◌≡◌, refl, ap, ◌∙◌, sym, Bool, ℕ, Option, true, false, some, arith, [], ◌++◌, Bytes, take,
  or_return, is_some, if◌then◌else◌,
}
use quic_web_rtc_like.Sys.{Os, Trace, Outcome, returned}
use quic_web_rtc_like.Conn.{Status, is_set, is_error}
use quic_web_rtc_like.Conn.Relay.{told, taken}
use quic_web_rtc_like.Conn.Upload.{Uploads, Keeps, Steady}
use quic_web_rtc_like.Conn.Uploaded.{udp_connection-uploads}
use quic_web_rtc_like.Conn.Session.{udp_connection}
use quic_web_rtc_like.Ossl.State.{is_closed}
use quic_web_rtc_like.Ossl.Setup.{St}
use quic_web_rtc_like.Ossl.Tls.{Tls}
use quic_web_rtc_like.Ossl.Punch.{hole_punching}
use quic_web_rtc_like.Ossl.Connect.{
  Callback, udp_data_sent, pre_connect, connect_quic, send_keep_alive,
}
use quic_web_rtc_like.Ossl.Close.{disconnect}
use quic_web_rtc_like.Ossl.Transfer.{udp_send, udp_recv, process_events}
use quic_web_rtc_like.Ossl.Backend.{ossl_api}
use quic_web_rtc_like.Ossl.Closed.{Ignores}
use quic_web_rtc_like.Ossl.Seen.{
  seen, hole_punching-seen, process_events-seen, connect_quic-seen, disconnect-seen,
}

-- The pointers that closing needs, and the init flag.
abbrev pub standing : St → Bool × Bool × Bool
standing c = (is_some c.udp_session, or_return c.ctrl false (λ k. k.init), is_some c.data_ptr)

abbrev pub AllSet : St → Type 0
AllSet c = standing c ≡ (true, true, true)

-- The session is closed, or there is none.
abbrev pub shut : St → Bool
shut c = or_return c.data_ptr true λ d. d.closed

-- A write takes all the bytes or fails, as OpenSSL does without SSL_MODE_ENABLE_PARTIAL_WRITE.
abbrev pub WritesWhole : Tls → Type 0
WritesWhole ssl =
    (t : Trace) (h : Option ℕ) (b : Bytes) (n : ℕ) → ssl.write t h b ≡ some n → take n b ≡ b

-- The outcomes at which closing has come to an end.
abbrev Returned : Outcome Status → Type 0
Returned o = elim o [ returned s ↦ Unit | _ ↦ ⊥ ]

closes-shut : (c : St) → is_set (is_closed c) ≡ shut c
unfolding is_closed
closes-shut c = ground arith

-- What is carried to the peer.
sent_part :
    {v w : ((Bytes × Bytes) × Bytes × Bytes) × Bool}
    → v ≡ w
    → ◌≡◌ {A = Bytes × Bytes} (v.0.1, v.0.2) (w.0.1, w.0.2)
sent_part = ap λ v. (v.0.1, v.0.2)

pre_connect-standing :
    (os : Os) (ssl : Tls) (c : St) → standing (pre_connect os ssl c).1 ≡ standing c
unfolding pre_connect
pre_connect-standing os ssl c = ground arith

pub hole_punching-standing :
    (os : Os) (fuel : ℕ) (c : St) → standing (hole_punching os fuel c).1 ≡ standing c
unfolding hole_punching
hole_punching-standing os fuel c = ground arith

pub send_keep_alive-same : (c : St) → (send_keep_alive c).1 ≡ c
unfolding send_keep_alive
send_keep_alive-same c = ground arith

module _ (os : Os) (ssl : Tls) (callback : Callback) (ignores : Ignores callback) where
  pub connect_quic-standing : (c : St) → standing (connect_quic os ssl callback c).1 ≡ standing c
  unfolding connect_quic
  connect_quic-standing c = grind (arith, ignores, pre_connect-standing os ssl c)

  pub disconnect-standing :
      (fuel : ℕ) (c : St) → standing (disconnect os ssl callback fuel c).1 ≡ standing c
  unfolding disconnect
  disconnect-standing fuel c = grind (arith, ignores)

  disconnect-shut :
      (fuel : ℕ) (c : St) → shut c ≡ true → shut (disconnect os ssl callback fuel c).1 ≡ true
  unfolding disconnect
  disconnect-shut fuel c over = grind (arith, ignores)

  -- A closing that comes to an end leaves the session closed.
  disconnect-closes :
      (fuel : ℕ) (c : St)
      → AllSet c
      → Returned (disconnect os ssl callback fuel c).0
      → shut (disconnect os ssl callback fuel c).1 ≡ true
  unfolding disconnect
  disconnect-closes fuel c set ends = grind (arith, ignores)

  pub process_events-standing :
      (fuel : ℕ) (c : St) → standing (process_events ssl callback os fuel c).1 ≡ standing c
  unfolding process_events
  process_events-standing fuel c = grind (arith, disconnect-standing)

  process_events-shut :
      (fuel : ℕ) (c : St) → shut c ≡ true → shut (process_events ssl callback os fuel c).1 ≡ true
  unfolding process_events
  process_events-shut fuel c over = grind (arith, disconnect-shut)

  pub udp_recv-carried :
      (n : ℕ) (c : St)
      → let c1 = (udp_recv ssl callback true true n c).2 in
        (told udp_data_sent c1.trace ≡ told udp_data_sent c.trace)
        × (taken c1.trace ≡ taken c.trace)
        × (standing c1 ≡ standing c)
        × (shut c1 ≡ shut c)
  unfolding udp_recv
  udp_recv-carried n c = grind (arith, ignores)

  udp_send-carried :
      (whole : WritesWhole ssl) (b : Bytes) (c : St)
      → let (s, _, c1) = udp_send ssl callback b c in
        (taken c1.trace ≡ taken c.trace)
        × (told udp_data_sent c1.trace
            ≡ (if is_error s then told udp_data_sent c.trace else told udp_data_sent c.trace ++ b))
        × (standing c1 ≡ standing c)
  unfolding udp_send
  udp_send-carried whole b c = grind (arith, ignores, whole)

  -- An operation that carries and frees nothing, as udp_connection sees it.
  steady :
      (fuel : ℕ) (c c1 : St)
      → seen c1 ≡ seen c
      → standing c1 ≡ standing c
      → Steady AllSet udp_data_sent (ossl_api os ssl callback fuel) c c1
  steady fuel c c1 same e = (sent_part same, λ set. e ∙ set)

  -- And that leaves a closed session closed.
  closing :
      (c c1 : St)
      → (shut c ≡ true → shut c1 ≡ true)
      → is_set (is_closed c) ≡ true
      → is_set (is_closed c1) ≡ true
  closing c c1 over e = closes-shut c1 ∙ over (sym (closes-shut c) ∙ e)

  module _ (whole : WritesWhole ssl) where
    ossl_api-Uploads :
        (fuel : ℕ) → Uploads AllSet Returned udp_data_sent (ossl_api os ssl callback fuel)
    ossl_api-Uploads fuel = record {
      done = λ s. tt;
      moved-Ready = λ c t tcp set. set;
      moved-closes = λ c t. closes-shut (record c { trace = t }) ∙ sym (closes-shut c);
      get_timeout = λ c. ((refl, λ set. set), λ over. over);
      process_events = λ c f e.
          let same : process_events ssl callback os fuel ≡ f =
            ap (λ o. or_return o (process_events ssl callback os fuel) (λ g. g)) e in
          let c1 = (process_events ssl callback os fuel c).1 in
          subst
            (λ (g : St → Outcome Status × St).
              Keeps AllSet udp_data_sent (ossl_api os ssl callback fuel) c (g c).1)
            same
            (
              steady fuel c c1 (process_events-seen os ssl callback ignores fuel c)
                  (process_events-standing fuel c),
              closing c c1 (process_events-shut fuel c),
            );
      hole_punching = λ c.
          steady fuel c (hole_punching os fuel c).1 (hole_punching-seen os fuel c)
            (hole_punching-standing os fuel c);
      connect = λ c.
          steady fuel c (connect_quic os ssl callback c).1
            (connect_quic-seen os ssl callback ignores c) (connect_quic-standing c);
      udp_recv = λ n c.
          let (sent, had, kept, same) = udp_recv-carried n c in
          (
            (λ i. (sent i, had i), λ set. kept ∙ set),
            closing c (udp_recv ssl callback true true n c).2 (λ over. same ∙ over),
          );
      send_keep_alive = λ c. rw send_keep_alive-same ((refl, λ set. set), λ over. over);
      disconnect = λ c.
          let c1 = (disconnect os ssl callback fuel c).1 in
          (
            steady fuel c c1 (disconnect-seen os ssl callback ignores fuel c)
                (disconnect-standing fuel c),
            closing c c1 (disconnect-shut fuel c),
          );
      disconnect-closes = λ c set ends.
          closes-shut (disconnect os ssl callback fuel c).1 ∙ disconnect-closes fuel c set ends;
      udp_send = λ b c.
          let (same, reported, kept) = udp_send-carried whole b c in
          (same, reported, λ set. kept ∙ set);
    }

    -- However long udp_connection runs over ossl_quic, whatever OpenSSL and the network do and
    -- however it ends, the bytes that the callback was told as sent are a prefix of those that the
    -- local end had sent, in order and each once, and where it returns with the session open all
    -- of them. A write takes all its bytes or fails, the callback leaves the connection alone,
    -- every pointer is set and the control initialised, and at the start nothing is left to send.
    pub sent_over_quic :
        (fuel : ℕ) (c : St)
        → standing c ≡ (true, true, true)
        → taken c.trace ≡ told udp_data_sent c.trace
        → let (o, c') = udp_connection os (ossl_api os ssl callback fuel) fuel c in
          (rest : Bytes) × (taken c'.trace ≡ told udp_data_sent c'.trace ++ rest)
          × ((s : Status) → o ≡ returned s → shut c' ≡ false → rest ≡ [])
    sent_over_quic fuel c set even =
        let (o, c') = udp_connection os (ossl_api os ssl callback fuel) fuel c in
        let (rest, left, all) =
          udp_connection-uploads os (ossl_api os ssl callback fuel) AllSet Returned udp_data_sent
            (ossl_api-Uploads fuel) fuel c set even in
        (rest, left, λ s e still. all (subst Returned (sym e) tt) (closes-shut c' ∙ still))
