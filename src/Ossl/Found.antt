-- ===== src/Ossl/Found.antt =====
-- What a successful hole punching has heard, and how long a wait may be.
use quic_web_rtc_like.Base.{
  Option-cases, inl, inr, ◌==◌, Option, some, ◌*◌, pos, ℕ, zero, suc, ◌+◌, ◌≤◌, ◌<◌, ◌≡◌, refl,
  Bool, true, false, [], ◌∷◌, arith, if◌then◌else◌,
}
use quic_web_rtc_like.Ossl.State.{Data, Config, get_timeout}
use quic_web_rtc_like.Sys.{
  Timeval, set_sock_opt, rcv_timeout, Os, Trace, returned, got, read, send_to, perform, receive,
}
use quic_web_rtc_like.Conn.{Status, ok, UdpSession, Ctrl, Conn}
use quic_web_rtc_like.Ossl.Punch.{
  is_probe, probe, knock, discover, transient, conclude, punch, hole_punching,
}

-- The probes that were read.
abbrev pub hits : Trace → ℕ
hits [] = 0
hits (read fd n (got b) ∷ t) = (if is_probe b then 1 else 0) + hits t
hits (_ ∷ t) = hits t

module _ (os : Os) (u : UdpSession) where
  knock-hits : (fuel : ℕ) (t : Trace) → hits (knock os u fuel t).1 ≡ hits t
  unfolding knock
  knock-hits zero t = refl
  knock-hits (suc f) t =
      ground (arith, knock-hits f (perform os (send_to u.socket_fd (0 ∷ []) u.dst) t).1)

  discover-hits :
      (client : Bool) (fuel : ℕ) (t : Trace)
      → (hits t ≤ hits (discover os u client fuel t).1)
        × ((discover os u client fuel t).0 ≡ returned true
            → hits t < hits (discover os u client fuel t).1)
  unfolding discover
  discover-hits client zero t = (omega arith, λ h. cc)
  discover-hits true (suc f) t =
      let t1 = (perform os (send_to u.socket_fd probe u.dst) t).1 in
      let t2 = (receive os u.socket_fd 3 t1).1 in
      ground (arith, discover-hits true f t1, discover-hits true f t2)
  discover-hits false (suc f) t =
      let t2 = (receive os u.socket_fd 3 t).1 in
      ground (
        arith,
        discover-hits false f t2,
        knock-hits f t2,
        discover-hits false f (knock os u f t2).1,
      )

  transient-hits :
      (n : ℕ) (punched : Bool) (t : Trace)
      → let (_, punched', t') = transient os u n punched t in
        (hits t ≤ hits t') × (punched ≡ false → punched' ≡ true → hits t < hits t')
  unfolding transient
  transient-hits zero punched t = ground arith
  transient-hits (suc n) punched t =
      let t1 = (perform os (send_to u.socket_fd probe u.dst) t).1 in
      let t2 = (receive os u.socket_fd 3 t1).1 in
      ground (
        arith,
        transient-hits n punched t1,
        transient-hits n true t1,
        transient-hits n false t2,
        transient-hits n true t2,
      )

  conclude-hits :
      (r : Status × Bool × Trace)
      → (conclude os u r).0 ≡ returned ok
      → (r.1 ≡ true) × (hits r.2 ≤ hits (conclude os u r).1)
  unfolding conclude
  conclude-hits (s, punched, t) h = ground arith

  -- The history once the receive timeout is set, and once the discovery has ended.
  abbrev pub limited : Trace → Trace
  limited t = (perform os (set_sock_opt u.socket_fd (rcv_timeout (pos 1))) t).1

  abbrev pub discovered : Bool → ℕ → Trace → Trace
  discovered client fuel t = (discover os u client fuel (limited t)).1

  -- A probe was read before the discovery ended, and another one since.
  abbrev pub HeardInBoth : Bool → ℕ → Trace → Trace → Type 0
  HeardInBoth client fuel t t' =
      ((discover os u client fuel (limited t)).0 ≡ returned true)
      × (hits t < hits (discovered client fuel t))
      × (hits (discovered client fuel t) < hits t')

  punch-heard :
      (client : Bool) (fuel : ℕ) (t : Trace)
      → (punch os u client fuel t).0 ≡ returned ok
      → HeardInBoth client fuel t (punch os u client fuel t).1
  unfolding punch
  punch-heard client fuel t done =
      let t1 = limited t in
      let t2 = discovered client fuel t in
      ground (
        arith,
        discover-hits client fuel t1,
        transient-hits 10 false t2,
        conclude-hits (transient os u 10 false t2),
      )

-- The hole punching of ossl_quic reports success only if the UDP session and the control are set,
-- its discovery has succeeded, in which the other end's message was read at least once, and the
-- history at the end has more reads of that message than the one at the end of the discovery.
pub hole_punching-heard :
    {D C : Type 0} (os : Os) (fuel : ℕ) (c : Conn D C)
    → (hole_punching os fuel c).0 ≡ returned ok
    → (u : UdpSession) × (c.udp_session ≡ some u)
      × (k : Ctrl) × (c.ctrl ≡ some k)
      × HeardInBoth os u (k.mode == b'c') fuel c.trace (hole_punching os fuel c).1.trace
unfolding hole_punching
hole_punching-heard os fuel c done = elim (Option-cases c.udp_session) [
  | inl null ↦ absurd (ground arith)
  | inr (u, has_u) ↦ elim (Option-cases c.ctrl) [
    | inl null ↦ absurd (ground arith)
    | inr (k, has_k) ↦ (
      u,
      has_u,
      k,
      has_k,
      ground (arith, has_u, has_k, punch-heard os u (k.mode == b'c') fuel c.trace),
    )
  ]
]

-- The timeout that ossl_quic gives the loop is at most five seconds, if OpenSSL's microseconds
-- stay below a second.
pub get_timeout-le :
    {Ctx Ssl : Type 0} (event_timeout : Ssl → Option (Timeval × Bool))
    (c : Conn (Data Ctx Ssl) Config) (tv : Timeval)
    → ((s : Ssl) (r : Timeval × Bool) → event_timeout s ≡ some r → r.0.tv_usec < 1_000_000)
    → (get_timeout event_timeout c).1 ≡ some tv
    → tv.tv_sec * 1_000_000 + tv.tv_usec ≤ 5_000_000
unfolding get_timeout
get_timeout-le event_timeout c tv usec h = grind (arith, usec)
