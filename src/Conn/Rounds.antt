-- ===== src/Conn/Rounds.antt =====
-- A promise that every operation of the protocol keeps is kept by every part of the loop of
-- `udp_connection`.
use quic_web_rtc_like.Base.{
  ℕ, zero, suc, ◌≡◌, refl, Bool, true, false, not, ◌&&◌, Option, none, some, List, [], ◌∷◌, ℤ, pos,
  minus_one, eqb_ℤ, inl, inr, Option-cases, Bool-cases, is_some, ltb,
}
use quic_web_rtc_like.Sys.{
  Os, Event, is_in, clocked, returned, Selected, ready, not_ready, eintr, again, other,
}
use quic_web_rtc_like.Conn.{Status, is_error, UdpSession, Conn}
use quic_web_rtc_like.Conn.Api.{Api, closes}
use quic_web_rtc_like.Conn.Phase.{Phase, stop, go, ◌>>=◌, leave}
use quic_web_rtc_like.Conn.Kept.{
  is_silent, Promise, Carried, Forwards, InPair, Left, Left-leave, Holds, Holds-bind, Holds-settle,
  Holds-if, Holds-or_return,
}
use quic_web_rtc_like.Conn.Local.{tcp_recv-keeps}
use quic_web_rtc_like.Conn.Tcp.{tcp_recv}
use quic_web_rtc_like.Conn.Loop.{
  Loop, is_ok, has_timeout, udp_fd, tcp_fd, monotonic_us, restart, drop_session, deliver,
  run_events, drain, drained, from_local, from_peer, on_select, on_timeout, miss_threshold, await,
  round, rounds,
}

-- The promise about the connection that the loop's state holds.
abbrev pub InLoop : {D C : Type 0} → Promise D C → Loop D C → Type 0
InLoop P l = P.running l.conn

module _ {D C : Type 0} (os : Os) (api : Api D C) (P : Promise D C)
    (event : (c : Conn D C) (e : Event)
      → is_silent e ≡ true
      → P.running c
      → P.running (record c { trace = e ∷ c.trace })) where
  pub monotonic_us-Holds : (c : Conn D C) → P.running c → Holds P (InPair P) (monotonic_us os api c)
  unfolding monotonic_us
  monotonic_us-Holds c p =
      let q = event c clocked refl p in
      elim (Option-cases (os.clock c.trace)) [
        | inl fails ↦ rw (fails, Holds) (P.at_any_end q)
        | inr (now, e) ↦ rw (e, Holds) q
      ]

module _ {D C : Type 0} (os : Os) (api : Api D C) (P : Promise D C)
    (k : Carried P.running api) where
  restart-Holds : (c : Conn D C) → P.running c → Holds P (InLoop P) (restart os api c)
  unfolding restart
  restart-Holds c p =
      Holds-bind P (InPair P) (InLoop P) (monotonic_us os api c) _
        (monotonic_us-Holds os api P k.event c p) λ r q. q

  drop_session-Holds : (c : Conn D C) → P.running c → Holds P P.running (drop_session os api c)
  unfolding drop_session
  drop_session-Holds c p =
      Holds-settle P P.running (api.disconnect c) _ (k.disconnect c p) λ s c1 q. q

  pub drop_then_stop :
      {A : Type 0} (Q : A → Type 0) (s : Status) (c : Conn D C)
      → P.running c
      → Holds P Q (drop_session os api c >>= λ c1. stop (returned s) c1)
  drop_then_stop Q s c p =
      Holds-bind P P.running Q (drop_session os api c) _ (drop_session-Holds c p)
        λ c1 q. P.at_any_end q

  run_events-Holds : (l : Loop D C) → P.running l.conn → Holds P (InLoop P) (run_events os api l)
  unfolding run_events
  run_events-Holds l p = elim (Option-cases api.process_events) [
    | inl absent ↦ rw absent p
    | inr (f, e) ↦ rw e (
        Holds-settle P (InLoop P) (f l.conn) _ (k.process_events l.conn f e p) λ s c q.
          Holds-if P (InLoop P) (is_error s) _ _ (P.at_any_end q)
            (Holds-if P (InLoop P) (closes api c) _ _ (P.at_any_end q) q))
  ]

  drained-Holds :
      (l : Loop D C) (m : Phase D C (Option ℕ × Conn D C)) (f : Loop D C → Phase D C (Loop D C))
      → Holds P (InPair P) m
      → ((l' : Loop D C) → P.running l'.conn → Holds P (InLoop P) (f l'))
      → Holds P (InLoop P) (drained os api l m f)
  drained-Holds l (stop o c) f h rest = h
  drained-Holds l (go (none, c)) f h rest = h
  drained-Holds l (go (some zero, c)) f h rest = h
  drained-Holds l (go (some (suc n), c)) f h rest = elim (Bool-cases (closes api c)) [
    | inl shut ↦ rw (shut, Holds) h
    | inr still ↦
        rw (still, Holds)
          (Holds-bind P (InLoop P) (InLoop P) (restart os api c) f (restart-Holds c h) rest)
  ]

  drain_pending-Holds :
      (l : Loop D C) (o : Option (Conn D C → ℕ)) (m : Phase D C (Loop D C))
      → P.running l.conn
      → Holds P (InLoop P) m
      → Holds P (InLoop P) (elim o [
        | none ↦ go l
        | some pending ↦ elim (ltb 0 (pending l.conn)) [ false ↦ go l | true ↦ m ]
      ])
  drain_pending-Holds l none m p more = p
  drain_pending-Holds l (some pending) m p more = by_amount (ltb 0 (pending l.conn))
    where
      by_amount : (b : Bool) → Holds P (InLoop P) (elim b [ false ↦ go l | true ↦ m ])
      by_amount false = p
      by_amount true = more

  -- Where reading from the local end fails, what is left then is what dropping the session needs.
  pub from_local-through :
      (Failed : Conn D C → Type 0)
      → ((c : Conn D C) → Failed c → Holds P P.running (drop_session os api c))
      → (tfd : ℤ) (fds : List ℤ) (c : Conn D C) → P.running c
      → (let (s, c1) = tcp_recv os api c in
          (is_error s ≡ true → Failed c1) × (is_error s ≡ false → P.running c1))
      → Holds P P.running (from_local os api tfd fds c)
  unfolding from_local
  from_local-through Failed drops tfd fds c p (failed, fine) =
      let (s, c1) = tcp_recv os api c in
      Holds-if P P.running (not (eqb_ℤ tfd minus_one) && is_in tfd fds) _ _
        (elim (Bool-cases (is_error s)) [
          | inl bad ↦ rw (bad, Holds) (drops c1 (failed bad))
          | inr good ↦ rw (good, Holds) (fine good)
        ])
        p

  pub from_local-Holds :
      (fw : Forwards P.running api) (tfd : ℤ) (fds : List ℤ) (c : Conn D C)
      → P.running c
      → Holds P P.running (from_local os api tfd fds c)
  from_local-Holds fw tfd fds c p =
      let q : P.running (tcp_recv os api c).1 = tcp_recv-keeps os api P fw c p in
      from_local-through P.running drop_session-Holds tfd fds c p (λ bad. q, λ good. q)

  on_timeout-Holds :
      (u : UdpSession) (l : Loop D C)
      → P.running l.conn
      → Holds P (InLoop P) (on_timeout os api u l)
  unfolding on_timeout
  on_timeout-Holds u l p = Holds-if P (InLoop P) (closes api l.conn) _ _ (P.at_any_end p) (
      Holds-bind P (InPair P) (InLoop P) (monotonic_us os api l.conn) _
        (monotonic_us-Holds os api P k.event l.conn p)
        λ (now_us, c1) q1. Holds-if P (InLoop P) (ltb now_us l.next_ka_us) _ _ q1 (
          Holds-settle P (InLoop P) (api.send_keep_alive c1) _ (k.send_keep_alive c1 q1) λ s c2 q2.
            Holds-if P (InLoop P) (not (is_ok s)) _ _ (P.at_any_end q2) (
              Holds-if P (InLoop P) (closes api c2) _ _ (P.at_any_end q2) (
                Holds-bind P (InPair P) (InLoop P) (monotonic_us os api c2) _
                  (monotonic_us-Holds os api P k.event c2 q2)
                  λ (later_us, c3) q3. Holds-if P (InLoop P) (is_some api.process_events) _ _ q3 (
                    Holds-bind P P.running (InLoop P) _ _
                      (Holds-if P P.running (eqb_ℤ (pos l.threshold) (miss_threshold os api u c3)) _
                        _ (drop_session-Holds c3 q3) q3)
                      λ c4 q4. q4)))))

-- With a promise that the data keep, in either direction.
module _ {D C : Type 0} (os : Os) (api : Api D C) (P : Promise D C) (k : Carried P.running api)
    (delivers : (fuel : ℕ) (c : Conn D C)
      → P.running c
      → Holds P (InPair P) (deliver os api fuel c))
    (takes : (tfd : ℤ) (fds : List ℤ) (c : Conn D C)
      → P.running c
      → Holds P P.running (from_local os api tfd fds c)) where
  drain-Holds :
      (fuel : ℕ) (l : Loop D C) → P.running l.conn → Holds P (InLoop P) (drain os api fuel l)
  unfolding drain
  drain-Holds zero l p = P.at_any_end p
  drain-Holds (suc f) l p = drain_pending-Holds os api P k l api.pending_data _ p (
      drained-Holds os api P k l (deliver os api f l.conn) (drain os api f) (delivers f l.conn p)
        (drain-Holds f))

  from_peer-Holds :
      (fuel : ℕ) (ufd : ℤ) (fds : List ℤ) (c : Conn D C)
      → P.running c
      → Holds P (InLoop P) (from_peer os api fuel ufd fds c)
  unfolding from_peer
  from_peer-Holds fuel ufd fds c p = Holds-if P (InLoop P) (closes api c) _ _ (P.at_any_end p) (
      Holds-if P (InLoop P) (not (eqb_ℤ ufd minus_one) && is_in ufd fds) _ _
        (Holds-bind P (InPair P) (InLoop P) (deliver os api fuel c) _ (delivers fuel c p)
          λ (received, c1) q.
            Holds-or_return P (InLoop P) received _ _ (P.at_any_end q)
              λ n. restart-Holds os api P k c1 q)
        (restart-Holds os api P k c p))

  on_select-Holds :
      (fuel : ℕ) (u : UdpSession) (ufd tfd : ℤ) (l : Loop D C) (r : Selected)
      → P.running l.conn
      → Holds P (InLoop P) (on_select os api fuel u ufd tfd l r)
  unfolding on_select
  on_select-Holds fuel u ufd tfd l (not_ready eintr) p = p
  on_select-Holds fuel u ufd tfd l (not_ready again) p = P.at_any_end p
  on_select-Holds fuel u ufd tfd l (not_ready (other n)) p = P.at_any_end p
  on_select-Holds fuel u ufd tfd l (ready []) p = on_timeout-Holds os api P k u l p
  on_select-Holds fuel u ufd tfd l (ready (fd ∷ fds)) p =
      Holds-bind P P.running (InLoop P) (from_local os api tfd (fd ∷ fds) l.conn) _
        (takes tfd (fd ∷ fds) l.conn p) λ c q. from_peer-Holds fuel ufd (fd ∷ fds) c q

  await-Holds :
      (fuel : ℕ) (u : UdpSession) (l : Loop D C)
      → P.running l.conn
      → Holds P (InLoop P) (await os api fuel u l)
  unfolding await
  await-Holds fuel u l p =
      let (s, tv, c1) = api.get_timeout l.conn in
      let q = k.get_timeout l.conn p in
      Holds-if P (InLoop P) (not (has_timeout s)) _ _ (P.at_any_end q) (
        Holds-bind P (InPair P) (InLoop P) (monotonic_us os api c1) _
          (monotonic_us-Holds os api P k.event c1 q)
          λ (now_us, c2) q2.
            on_select-Holds fuel u (udp_fd os api l.conn) (tcp_fd os api l.conn) _ _
              (k.event c2 _ refl q2))

  round-Holds :
      (fuel : ℕ) (u : UdpSession) (l : Loop D C)
      → P.running l.conn
      → Holds P (InLoop P) (round os api fuel u l)
  unfolding round
  round-Holds fuel u l p =
      Holds-bind P (InLoop P) (InLoop P) (run_events os api l) _ (run_events-Holds os api P k l p)
        λ l1 q1.
          Holds-bind P (InLoop P) (InLoop P) (drain os api fuel l1) _ (drain-Holds fuel l1 q1)
            λ l2 q2.
              Holds-if P (InLoop P) (closes api l2.conn) _ _ (P.at_any_end q2)
                (await-Holds fuel u l2 q2)

  pub rounds-keeps :
      (fuel : ℕ) (u : UdpSession) (l : Loop D C)
      → P.running l.conn
      → Left P (rounds os api fuel u l)
  unfolding rounds
  rounds-keeps zero u l p = P.at_any_end p
  rounds-keeps (suc f) u l p =
      let again : Left P (leave (round os api f u l) (rounds os api f u)) =
        Left-leave P (InLoop P) (round os api f u l) (rounds os api f u) (round-Holds f u l p)
          (rounds-keeps f u) in
      elim (Bool-cases (closes api l.conn)) [
        | inl shut ↦ rw (shut, rounds) (P.at_any_end p)
        | inr still ↦ rw (still, rounds) again
      ]
