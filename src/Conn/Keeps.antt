-- ===== src/Conn/Keeps.antt =====
-- What `udp_connection` keeps: a promise, or a property of connections, that every operation of the
-- protocol keeps.
use quic_web_rtc_like.Base.{ℕ, ℤ, List, ◌≡◌, [], Bytes, not, ◌==◌, or_return, arith}
use quic_web_rtc_like.Sys.{Os, Outcome, returned}
use quic_web_rtc_like.Conn.{Status, is_error, Conn, tcp_bind_error, tcp_hp_error}
use quic_web_rtc_like.Conn.Api.{Api, closes}
use quic_web_rtc_like.Conn.Kept.{
  KeptBy, KeptBy-Forwards, Forwards, Promise, Opened, Carried, always, KeptBy-Opened,
  KeptBy-Carried, InPair, Left, Left-leave, Holds, Holds-bind, Holds-settle, Holds-if, of_if,
  of_or_return,
}
use quic_web_rtc_like.Conn.Local.{tcp_bind-keeps}
use quic_web_rtc_like.Conn.Phase.{Phase, stop, go, ◌>>=◌}
use quic_web_rtc_like.Conn.Tcp.{tcp_mtu_size, tcp_bind, tcp_send}
use quic_web_rtc_like.Conn.Loop.{monotonic_us, deliver, from_local}
use quic_web_rtc_like.Conn.Session.{
  udp_connection, open_session, open_client, open_server, connect_phase, or_code,
}
use quic_web_rtc_like.Conn.Rounds.{
  from_local-Holds, monotonic_us-Holds, drop_then_stop, rounds-keeps,
}

module _ {D C : Type 0} (P : Promise D C) where
  or_code-Holds :
      (os : Os) (api : Api D C) (r : Outcome Status × Conn D C) (s : Status)
      → P.running r.1
      → Holds P P.running (or_code os api r s)
  or_code-Holds os api r s p =
      Holds-settle P P.running r _ p
        λ s' c q. Holds-if P P.running (is_error s') _ _ (P.at_any_end q) q

-- A promise that the data keep, in either direction, holds of what udp_connection leaves, if it
-- holds from the connection on and a property `R` that gives it is kept until then.
module _ {D C : Type 0} (os : Os) (api : Api D C) (P : Promise D C) (R : Conn D C → Type 0)
    (at_any_end : (o : Outcome Status) (c : Conn D C) → R c → P.ended o c)
    (opens : Opened R P.running api) (k : Carried P.running api) where
  abbrev opening : Promise D C
  opening = record { running = R; ended = P.ended; at_any_end = λ {o} {c}. at_any_end o c }

  -- A part before the connection, and one that ends after it.
  Holds-then :
      {A B : Type 0} (Q : A → Type 0) (S : B → Type 0) (m : Phase D C A) (f : A → Phase D C B)
      → Holds opening Q m
      → ((a : A) → Q a → Holds P S (f a))
      → Holds P S (m >>= f)
  Holds-then Q S (stop o c) f h next = h
  Holds-then Q S (go a) f h next = next a h

  connect_phase-Holds : (c : Conn D C) → R c → Holds P P.running (connect_phase os api c)
  connect_phase-Holds c r =
      or_code-Holds P os api (returned (api.connect c).0, (api.connect c).1) _ (opens.connect c r)

  tcp_bind-Holds :
      (c : Conn D C) → R c → Holds opening R (or_code os api (tcp_bind os c) tcp_bind_error)
  tcp_bind-Holds c r =
      or_code-Holds opening os api (tcp_bind os c) tcp_bind_error
        (tcp_bind-keeps os api opening opens c r)

  hole_punching-Holds :
      (c : Conn D C) → R c → Holds opening R (or_code os api (api.hole_punching c) tcp_hp_error)
  hole_punching-Holds c r =
      or_code-Holds opening os api (api.hole_punching c) tcp_hp_error (opens.hole_punching c r)

  open_client-Holds : (c : Conn D C) → R c → Holds P P.running (open_client os api c)
  unfolding open_client
  open_client-Holds c r =
      Holds-then R P.running (or_code os api (tcp_bind os c) tcp_bind_error) _ (tcp_bind-Holds c r)
        λ c1 r1.
          Holds-then R P.running (or_code os api (api.hole_punching c1) tcp_hp_error)
            (connect_phase os api) (hole_punching-Holds c1 r1) connect_phase-Holds

  open_server-Holds : (c : Conn D C) → R c → Holds P P.running (open_server os api c)
  unfolding open_server
  open_server-Holds c r =
      Holds-then R P.running (or_code os api (api.hole_punching c) tcp_hp_error) _
        (hole_punching-Holds c r)
        λ c1 r1.
          Holds-then R P.running (or_code os api (tcp_bind os c1) tcp_bind_error)
            (connect_phase os api) (tcp_bind-Holds c1 r1) connect_phase-Holds

  open_session-Holds :
      (mode : ℕ) (c : Conn D C) → R c → Holds P P.running (open_session os api mode c)
  unfolding open_session
  open_session-Holds mode c r =
      Holds-if P P.running (mode == b'c') _ _ (open_client-Holds c r)
        (Holds-if P P.running (mode == b's') _ _ (open_server-Holds c r) (at_any_end _ c r))

  pub udp_connection-Left :
      ((fuel : ℕ) (c : Conn D C) → P.running c → Holds P (InPair P) (deliver os api fuel c))
      → ((tfd : ℤ) (fds : List ℤ) (c : Conn D C)
          → P.running c
          → Holds P P.running (from_local os api tfd fds c))
      → (fuel : ℕ) (c : Conn D C) → R c
      → Left P (udp_connection os api fuel c)
  unfolding udp_connection
  udp_connection-Left delivers takes fuel c r = of_or_return (Left P) c.udp_session _ _ early λ u _.
      of_or_return (Left P) c.ctrl _ _ early λ ctl _. of_if (Left P) (not ctl.init) _ _ early (
        Left-leave P (InPair P) _ _
          (Holds-bind P P.running (InPair P) (open_session os api ctl.mode c) (monotonic_us os api)
            (open_session-Holds ctl.mode c r) (monotonic_us-Holds os api P k.event))
          λ (now_us, c') q. rounds-keeps os api P k delivers takes fuel u _ q)
    where
      early : {s : Status} → P.ended (returned s) c
      early = at_any_end _ c r

-- `tcp_send` writes only the history.
pub tcp_send-LocalOnly :
    {D C : Type 0} (os : Os) (fuel : ℕ) (b : Bytes) (c : Conn D C)
    → let c' = (tcp_send os fuel b c).1 in c' ≡ record c { trace = c'.trace }
unfolding tcp_send
tcp_send-LocalOnly os fuel b c = ground arith

-- Reading from the peer and writing to the local end keep the promise.
module _ {D C : Type 0} (os : Os) (api : Api D C) (P : Promise D C) (k : Carried P.running api)
    (reads : (c : Conn D C) → P.running c → P.running (api.udp_recv tcp_mtu_size c).2)
    (writes : (fuel : ℕ) (b : Bytes) (c : Conn D C)
      → P.running c
      → P.running (tcp_send os fuel b c).1) where
  pub deliver-Holds :
      (fuel : ℕ) (c : Conn D C) → P.running c → Holds P (InPair P) (deliver os api fuel c)
  unfolding deliver
  deliver-Holds fuel c p =
      let (o, out, c1) = api.udp_recv tcp_mtu_size c in
      let bytes : Bytes = or_return out [] (λ b. b) in
      let stops = drop_then_stop os api P k (InPair P) in
      Holds-settle P (InPair P) (o, c1) _ (reads c p)
        λ s c2 q.
          Holds-if P (InPair P) (is_error s) _ _
            (Holds-if P (InPair P) (closes api c2) _ _ q (stops s c2 q))
            (Holds-if P (InPair P) (closes api c2) _ _ q (
              Holds-settle P (InPair P) (tcp_send os fuel bytes c2) _ (writes fuel bytes c2 q)
                λ s' c3 r. Holds-if P (InPair P) (is_error s') _ _ (stops s' c3 r) r))

-- A property that may read the history, and one that gives it and holds until the connection.
pub udp_connection-always :
    {D C : Type 0} (os : Os) (api : Api D C) (P R : Conn D C → Type 0)
    → ((c : Conn D C) → R c → P c)
    → Opened R P api
    → Carried P api
    → ((c : Conn D C) → P c → P (api.udp_recv tcp_mtu_size c).2)
    → ((fuel : ℕ) (b : Bytes) (c : Conn D C) → P c → P (tcp_send os fuel b c).1)
    → Forwards P api
    → (fuel : ℕ) (c : Conn D C) → R c
    → P (udp_connection os api fuel c).1
udp_connection-always os api P R starts o k reads writes fw =
    udp_connection-Left os api (always P) R (λ end. starts) o k
      (deliver-Holds os api (always P) k reads writes) (from_local-Holds os api (always P) k fw)

-- A property of connections that every operation of the protocol keeps, and that reads neither the
-- history nor the TCP session, holds of the connection that udp_connection leaves if it holds of
-- the one it gets, however the function ends.
pub udp_connection-keeps :
    {D C : Type 0} (os : Os) (api : Api D C) (P : Conn D C → Type 0)
    → KeptBy P api
    → (fuel : ℕ) (c : Conn D C) → P c
    → P (udp_connection os api fuel c).1
udp_connection-keeps os api P k =
    udp_connection-always os api P P (λ c p. p) (KeptBy-Opened P api k) (KeptBy-Carried P api k)
      (k.udp_recv tcp_mtu_size)
      (λ fuel b c p.
        rw tcp_send-LocalOnly (k.any_trace c (tcp_send os fuel b c).1.trace c.tcp_session p))
      (KeptBy-Forwards P api k)
