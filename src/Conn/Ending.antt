-- ===== src/Conn/Ending.antt =====
-- When `udp_connection` reports success.
use quic_web_rtc_like.Base.{
  ℕ, zero, suc, ◌≡◌, refl, true, Option, none, some, List, [], ◌∷◌, ℤ, arith,
}
use quic_web_rtc_like.Sys.{
  Os, Outcome, returned, exited, out_of_fuel, Selected, ready, not_ready, eintr, again, other,
}
use quic_web_rtc_like.Conn.{
  Status, ok, tcp_bind_error, tcp_hp_error, connect_error, is_error, UdpSession, Conn,
}
use quic_web_rtc_like.Conn.Api.{Api, closes}
use quic_web_rtc_like.Conn.Phase.{Phase, stop, go, ◌>>=◌, settle}
use quic_web_rtc_like.Conn.Tcp.{tcp_bind}
use quic_web_rtc_like.Conn.Loop.{
  Loop, monotonic_us, restart, drop_session, deliver, run_events, drain, from_local, from_peer,
  on_select, on_timeout, await, round, rounds,
}
use quic_web_rtc_like.Conn.Session.{
  udp_connection, open_session, open_client, open_server, connect_phase, or_code,
}

module _ {D C : Type 0} (os : Os) (api : Api D C) where
  -- A phase that leaves with success leaves a closed session.
  abbrev pub Sound : {A : Type 0} → Phase D C A → Type 0
  Sound (stop o c) = o ≡ returned ok → closes api c ≡ true
  Sound (go a) = Unit

  Sound-bind :
      {A B : Type 0} (m : Phase D C A) (k : A → Phase D C B)
      → Sound m
      → ((a : A) → Sound (k a))
      → Sound (m >>= k)
  Sound-bind (stop o c) k s next = s
  Sound-bind (go a) k s next = next a

  Sound-settle :
      {A : Type 0} (r : Outcome Status × Conn D C) (k : Status → Conn D C → Phase D C A)
      → ((s : Status) (c : Conn D C) → Sound (k s c))
      → Sound (settle r k)
  Sound-settle (returned s, c) k next = next s c
  Sound-settle (exited, c) k next = λ e. cc
  Sound-settle (out_of_fuel, c) k next = λ e. cc

  monotonic_us-Sound : (c : Conn D C) → Sound (monotonic_us os api c)
  unfolding monotonic_us
  monotonic_us-Sound c = ground arith

  restart-Sound : (c : Conn D C) → Sound (restart os api c)
  unfolding restart
  restart-Sound c = grind (arith, monotonic_us-Sound)

  drop_session-Sound : (c : Conn D C) → Sound (drop_session os api c)
  unfolding drop_session
  drop_session-Sound c = Sound-settle (api.disconnect c) _ (λ s c1. tt)

  deliver-Sound : (fuel : ℕ) (c : Conn D C) → Sound (deliver os api fuel c)
  unfolding deliver
  deliver-Sound fuel c = grind (arith, drop_session-Sound)

  -- A `break` out of `deliver` is taken only when the session is closed.
  abbrev Breaks : Phase D C (Option ℕ × Conn D C) → Type 0
  Breaks (stop o c) = Unit
  Breaks (go (none, c)) = closes api c ≡ true
  Breaks (go (some n, c)) = Unit

  deliver-Breaks : (fuel : ℕ) (c : Conn D C) → Breaks (deliver os api fuel c)
  unfolding deliver drop_session
  deliver-Breaks fuel c = ground arith

  run_events-Sound : (l : Loop D C) → Sound (run_events os api l)
  unfolding run_events
  run_events-Sound l = ground arith

  drain-Sound : (fuel : ℕ) (l : Loop D C) → Sound (drain os api fuel l)
  unfolding drain
  drain-Sound zero l = ground arith
  drain-Sound (suc f) l = grind (arith, deliver-Sound, restart-Sound, drain-Sound f)

  from_local-Sound : (tfd : ℤ) (fds : List ℤ) (c : Conn D C) → Sound (from_local os api tfd fds c)
  unfolding from_local
  from_local-Sound tfd fds c = grind (arith, drop_session-Sound)

  from_peer-Sound :
      (fuel : ℕ) (ufd : ℤ) (fds : List ℤ) (c : Conn D C) → Sound (from_peer os api fuel ufd fds c)
  unfolding from_peer
  from_peer-Sound fuel ufd fds c =
      grind (arith, deliver-Sound fuel c, deliver-Breaks fuel c, restart-Sound)

  on_timeout-Sound : (u : UdpSession) (l : Loop D C) → Sound (on_timeout os api u l)
  unfolding on_timeout
  on_timeout-Sound u l = grind (arith, monotonic_us-Sound, drop_session-Sound)

  on_select-Sound :
      (fuel : ℕ) (u : UdpSession) (ufd tfd : ℤ) (l : Loop D C) (r : Selected)
      → Sound (on_select os api fuel u ufd tfd l r)
  unfolding on_select
  on_select-Sound fuel u ufd tfd l (ready []) = on_timeout-Sound u l
  on_select-Sound fuel u ufd tfd l (ready (fd ∷ fds)) =
      Sound-bind (from_local os api tfd (fd ∷ fds) l.conn) (from_peer os api fuel ufd (fd ∷ fds))
        (from_local-Sound tfd (fd ∷ fds) l.conn) (from_peer-Sound fuel ufd (fd ∷ fds))
  on_select-Sound fuel u ufd tfd l (not_ready eintr) = tt
  on_select-Sound fuel u ufd tfd l (not_ready again) = λ e. cc
  on_select-Sound fuel u ufd tfd l (not_ready (other n)) = λ e. cc

  await-Sound : (fuel : ℕ) (u : UdpSession) (l : Loop D C) → Sound (await os api fuel u l)
  unfolding await
  await-Sound fuel u l = grind (arith, monotonic_us-Sound, on_select-Sound)

  round-Sound : (fuel : ℕ) (u : UdpSession) (l : Loop D C) → Sound (round os api fuel u l)
  unfolding round
  round-Sound fuel u l = grind (arith, run_events-Sound, drain-Sound, await-Sound)

  rounds-closed :
      (fuel : ℕ) (u : UdpSession) (l : Loop D C)
      → let (o, c) = rounds os api fuel u l in o ≡ returned ok → closes api c ≡ true
  unfolding rounds
  rounds-closed zero u l = λ e. cc
  rounds-closed (suc f) u l = grind (arith, round-Sound f u l, rounds-closed f u)

  or_code-Sound :
      (r : Outcome Status × Conn D C) (s : Status) → is_error s ≡ true → Sound (or_code os api r s)
  or_code-Sound (returned x, c) s h = ground arith
  or_code-Sound (exited, c) s h = λ e. cc
  or_code-Sound (out_of_fuel, c) s h = λ e. cc

  open_client-Sound : (c : Conn D C) → Sound (open_client os api c)
  unfolding open_client
  open_client-Sound c =
      Sound-bind (or_code os api (tcp_bind os c) tcp_bind_error) _
        (or_code-Sound (tcp_bind os c) tcp_bind_error refl)
        λ c1.
          Sound-bind (or_code os api (api.hole_punching c1) tcp_hp_error) (connect_phase os api)
            (or_code-Sound (api.hole_punching c1) tcp_hp_error refl)
            λ c2. or_code-Sound (returned (api.connect c2).0, (api.connect c2).1) connect_error refl

  open_server-Sound : (c : Conn D C) → Sound (open_server os api c)
  unfolding open_server
  open_server-Sound c =
      Sound-bind (or_code os api (api.hole_punching c) tcp_hp_error) _
        (or_code-Sound (api.hole_punching c) tcp_hp_error refl)
        λ c1.
          Sound-bind (or_code os api (tcp_bind os c1) tcp_bind_error) (connect_phase os api)
            (or_code-Sound (tcp_bind os c1) tcp_bind_error refl)
            λ c2. or_code-Sound (returned (api.connect c2).0, (api.connect c2).1) connect_error refl

  open_session-Sound : (mode : ℕ) (c : Conn D C) → Sound (open_session os api mode c)
  unfolding open_session
  open_session-Sound mode c = ground (arith, open_client-Sound c, open_server-Sound c)

  -- udp_connection reports success only where it leaves a session that the protocol calls closed,
  -- whatever the protocol and the system do.
  pub udp_connection-closed :
      (fuel : ℕ) (c : Conn D C)
      → (udp_connection os api fuel c).0 ≡ returned ok
      → closes api (udp_connection os api fuel c).1 ≡ true
  unfolding udp_connection
  udp_connection-closed fuel c done =
      grind (arith, rounds-closed, open_session-Sound, monotonic_us-Sound)
