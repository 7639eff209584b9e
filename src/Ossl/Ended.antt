-- ===== src/Ossl/Ended.antt =====
-- How a QUIC session ends: the shutdown takes a bounded time, and a closed session stays closed.
use quic_web_rtc_like.Base.{
  ℕ, zero, suc, ◌+◌, ◌-◌, ◌≤◌, ◌<◌, ◌≡◌, ◌≢◌, ◌⊎◌, inl, inr, none, some, ◌∷◌, ℤ, arith, length,
  Option-cases,
}
use quic_web_rtc_like.Sys.{Os, Trace, out_of_fuel, clocked, tls}
use quic_web_rtc_like.Sys.Tls.{handle_events, ssl_shutdown}
use quic_web_rtc_like.Conn.{Status}
use quic_web_rtc_like.Ossl.Setup.{St}
use quic_web_rtc_like.Ossl.Connect.{Callback}
use quic_web_rtc_like.Ossl.Tls.{Tls}
use quic_web_rtc_like.Ossl.Close.{
  record_close_status, monotonic_ms, shutdown_wait, shutdown_rounds, finish_shutdown, close_quic,
  disconnect,
}

-- Once the history has `n` events, the clock is past `ms` milliseconds, or fails.
abbrev pub PastBy : Os → ℕ → ℕ → Type 0
PastBy os ms n =
    (t : Trace)
    → n ≤ length t
    → (monotonic_ms os t ≡ none) ⊎ ((now : ℕ) × (monotonic_ms os t ≡ some now) × (ms ≤ now))

module _ (os : Os) (ssl : Tls) (fd : ℤ) (h : ℕ) (deadline : ℕ) where
  -- Past the deadline, no round is followed by another; and a wait only adds to the history.
  shutdown_wait-past :
      (n : ℕ) (t : Trace)
      → PastBy os deadline n
      → n ≤ length t
      → (shutdown_wait os ssl fd h deadline t).0 ≢ none
  unfolding shutdown_wait
  shutdown_wait-past n t past late = grind (arith, past t late)

  length-shutdown_wait : (t : Trace) → length t ≤ length (shutdown_wait os ssl fd h deadline t).1
  unfolding shutdown_wait
  length-shutdown_wait t = ground arith

  shutdown_rounds-ends :
      (n : ℕ)
      → PastBy os deadline n
      → (fuel : ℕ) (s : Status) (t : Trace) → n - length t < fuel
      → (shutdown_rounds os ssl fd h deadline fuel s t).0 ≢ out_of_fuel
  unfolding shutdown_rounds
  shutdown_rounds-ends n past zero s t enough = absurd (omega arith)
  shutdown_rounds-ends n past (suc f) s t enough =
      let t2 : Trace = tls (ssl_shutdown h) ∷ tls (handle_events h) ∷ t in
      let s1 = (record_close_status ssl h s t2).1 in
      let t3 = (shutdown_wait os ssl fd h deadline t2).1 in
      ground (
        arith,
        shutdown_wait-past n t2 past,
        length-shutdown_wait t2,
        shutdown_rounds-ends n past f s1 t3,
      )

finish_shutdown-ends :
    (os : Os) (ssl : Tls) (fd : ℤ) (h n fuel : ℕ) (s : Status) (t : Trace)
    → ((started : ℕ) → monotonic_ms os t ≡ some started → PastBy os (started + 5000) n)
    → n < fuel
    → (finish_shutdown os ssl fuel fd h s t).0 ≢ out_of_fuel
unfolding finish_shutdown
finish_shutdown-ends os ssl fd h n fuel s t past enough = elim (Option-cases (monotonic_ms os t)) [
  | inl failed ↦ ground arith
  | inr (started, e) ↦ ground (
    arith,
    shutdown_rounds-ends os ssl fd h (started + 5000) n (past started e) fuel s (clocked ∷ t),
  )
]

-- Closing a QUIC session ends, whatever OpenSSL does, if the clock fails or has passed the start
-- by five seconds once the history has n events: a fuel above n suffices.
pub disconnect-ends :
    (os : Os) (ssl : Tls) (callback : Callback) (n fuel : ℕ) (c : St)
    → ((started : ℕ) → monotonic_ms os c.trace ≡ some started → PastBy os (started + 5000) n)
    → n < fuel
    → (disconnect os ssl callback fuel c).0 ≢ out_of_fuel
unfolding disconnect close_quic
disconnect-ends os ssl callback n fuel c past enough = grind (
  arith,
  λ (fd : ℤ) (h : ℕ) (s : Status). finish_shutdown-ends os ssl fd h n fuel s c.trace past enough,
)
