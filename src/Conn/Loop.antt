-- ===== src/Conn/Loop.antt =====
-- source/libs/protocols/udp_conn/src/udp_conn.c: udp_connection, over any protocol. A `break` out of
-- the outer loop is the end with UDP_CONN_OK that follows it.
use quic_web_rtc_like.Base.{
  ℕ, zero, suc, ◌+◌, ◌-◌, ◌*◌, ◌/◌, ◌%◌, Bool, true, false, not, ◌&&◌, Option, none, some, List, [],
  ◌∷◌, ◌++◌, Bytes, ℤ, pos, minus_one, eqb_ℤ, or_return, length, ltb, is_some, if◌then◌else◌,
}
use quic_web_rtc_like.Sys.{
  Os, Outcome, returned, out_of_fuel, Timeval, ready, not_ready, is_in, eintr, again, other,
  Selected, waited, clocked,
}
use quic_web_rtc_like.Conn.{Status, ok, err, not_applicable, is_error, UdpSession, Conn}
use quic_web_rtc_like.Conn.Api.{Api, closes}
use quic_web_rtc_like.Conn.Phase.{Phase, stop, go, ◌>>=◌, settle, leave}
use quic_web_rtc_like.Conn.Tcp.{tcp_mtu_size, tcp_recv, tcp_send}

-- `ka_interval_us`: five seconds.
abbrev pub ka_interval_us : ℕ
ka_interval_us = 5 * 1_000_000

-- What the loop keeps from round to round, in microseconds.
pub record Loop (D C : Type 0) : Type 0 where
  pub conn : Conn D C
  pub threshold : ℕ
  pub next_ka_us : ℕ

-- Whether a status that `get_timeout` gives lets the loop go on.
abbrev pub has_timeout : Status → Bool
has_timeout s = elim s [ ok ↦ true | not_applicable ↦ true | _ ↦ false ]

abbrev pub is_ok : Status → Bool
is_ok s = elim s [ ok ↦ true | _ ↦ false ]

-- The wait of a round: the backend's timeout, or what is left until the keep-alive if that is less
-- or the backend has none.
unfoldable pub choose_timeout : Status → Timeval → ℕ → Timeval
choose_timeout s tv remaining_us =
    let until_ka : Timeval = record {
      tv_sec = remaining_us / 1_000_000;
      tv_usec = remaining_us % 1_000_000;
    } in
    elim s [
      | not_applicable ↦ until_ka
      | _ ↦ if ltb remaining_us (tv.tv_sec * 1_000_000 + tv.tv_usec) then until_ka else tv
    ]

module _ {D C : Type 0} (os : Os) (api : Api D C) where
  -- `monotonic_us`
  unfoldable pub monotonic_us : Conn D C → Phase D C (ℕ × Conn D C)
  monotonic_us c =
      let c1 = record c { trace = clocked ∷ c.trace } in
      elim (os.clock c.trace) [
        | none ↦ stop (returned err) c1
        | some (sec, nsec) ↦ go (sec * 1_000_000 + nsec / 1000, c1)
      ]

  -- Socket I/O restarts the inactivity interval.
  unfoldable pub restart : Conn D C → Phase D C (Loop D C)
  restart c = do
    (now_us, c1) ← monotonic_us c
    go (record { conn = c1; threshold = 0; next_ka_us = now_us + ka_interval_us })

  -- `api->disconnect(conn)` with its result ignored.
  unfoldable pub drop_session : Conn D C → Phase D C (Conn D C)
  drop_session c = settle (api.disconnect c) λ _ c1. go c1

  -- Reading from the peer and writing to the local end: `none` is a `break`, a number is what was
  -- received.
  unfoldable pub deliver : ℕ → Conn D C → Phase D C (Option ℕ × Conn D C)
  deliver fuel c =
      let (o, out, c1) = api.udp_recv tcp_mtu_size c in
      settle (o, c1)
        λ s c2.
          if is_error s
          then (if closes api c2
              then go (none, c2)
              else (drop_session c2 >>= λ c3. stop (returned s) c3))
          else if closes api c2
          then go (none, c2)
          else let bytes : Bytes = or_return out [] (λ b. b) in
            settle (tcp_send os fuel bytes c2) λ s' c3.
              if is_error s'
              then (drop_session c3 >>= λ c4. stop (returned s') c4)
              else go (some (length bytes), c3)

  -- The backend's timers, before waiting.
  unfoldable pub run_events : Loop D C → Phase D C (Loop D C)
  run_events l = elim api.process_events [
    | none ↦ go l
    | some process ↦ settle (process l.conn) λ s c.
        if is_error s
        then stop (returned s) c
        else if closes api c
        then stop (returned ok) c
        else go (record l { conn = c })
  ]

  -- After a payload: nothing received or a session that is closed ends the inner loop.
  abbrev pub drained :
      Loop D C
      → Phase D C (Option ℕ × Conn D C)
      → (Loop D C → Phase D C (Loop D C))
      → Phase D C (Loop D C)
  drained l (stop o c) rest = stop o c
  drained l (go (none, c)) rest = go (record l { conn = c })
  drained l (go (some zero, c)) rest = go (record l { conn = c })
  drained l (go (some (suc n), c)) rest = elim (closes api c) [
    | true ↦ go (record l { conn = c })
    | false ↦ restart c >>= rest
  ]

  -- The inner loop: payloads that the backend holds already.
  unfoldable pub drain : ℕ → Loop D C → Phase D C (Loop D C)
  drain zero l = stop out_of_fuel l.conn
  drain (suc f) l = elim api.pending_data [
    | none ↦ go l
    | some pending ↦ elim (ltb 0 (pending l.conn)) [
      | false ↦ go l
      | true ↦ drained l (deliver f l.conn) (drain f)
    ]
  ]

  -- The descriptors of a round: -1 stands for a socket that is not there.
  unfoldable pub udp_fd : Conn D C → ℤ
  udp_fd c = or_return c.udp_session minus_one λ u. u.socket_fd

  unfoldable pub tcp_fd : Conn D C → ℤ
  tcp_fd c = or_return c.tcp_session minus_one λ tcp. tcp.accepted_sock

  unfoldable pub watches : ℤ → ℤ → List ℤ
  watches ufd tfd =
      (if eqb_ℤ ufd minus_one then [] else ufd ∷ [])
      ++ (if eqb_ℤ tfd minus_one then [] else tfd ∷ [])

  -- `select` reported descriptors: first the local end, where a failure ends the session.
  unfoldable pub from_local : ℤ → List ℤ → Conn D C → Phase D C (Conn D C)
  from_local tfd fds c =
      if not (eqb_ℤ tfd minus_one) && is_in tfd fds
      then (let (s, c1) = tcp_recv os api c in if is_error s then drop_session c1 else go c1)
      else go c

  -- Then the peer.
  unfoldable pub from_peer : ℕ → ℤ → List ℤ → Conn D C → Phase D C (Loop D C)
  from_peer fuel ufd fds c =
      if closes api c
      then stop (returned ok) c
      else if not (eqb_ℤ ufd minus_one) && is_in ufd fds
      then (deliver fuel c >>= λ (received, c1).
          or_return received (stop (returned ok) c1) λ _. restart c1)
      else restart c

  -- `udp_session->ka_miss_threshold`, as it is now: `u` is the session at the start.
  abbrev pub miss_threshold : UdpSession → Conn D C → ℤ
  miss_threshold u c = (or_return c.udp_session u λ v. v).ka_miss_threshold

  -- `select` timed out: at the deadline a keep-alive is sent. Without a backend of timers, one sent
  -- too many in silence ends the session.
  unfoldable pub on_timeout : UdpSession → Loop D C → Phase D C (Loop D C)
  on_timeout u l =
      if closes api l.conn
      then stop (returned ok) l.conn
      else monotonic_us l.conn >>= λ (now_us, c1).
          if ltb now_us l.next_ka_us
          then go (record l { conn = c1 })
          else settle (api.send_keep_alive c1) λ s c2.
            if not (is_ok s)
            then stop (returned s) c2
            else if closes api c2
            then stop (returned ok) c2
            else monotonic_us c2 >>= λ (later_us, c3).
                let next = later_us + ka_interval_us in
                if is_some api.process_events
                then go (record { conn = c3; threshold = l.threshold; next_ka_us = next })
                else ((if eqb_ℤ (pos l.threshold) (miss_threshold u c3)
                      then drop_session c3
                      else go c3)
                    >>= λ c4.
                        go (record { conn = c4; threshold = l.threshold + 1; next_ka_us = next }))

  -- What follows the wait.
  unfoldable pub on_select : ℕ → UdpSession → ℤ → ℤ → Loop D C → Selected → Phase D C (Loop D C)
  on_select fuel u ufd tfd l (not_ready eintr) = go l
  on_select fuel u ufd tfd l (not_ready again) = stop (returned err) l.conn
  on_select fuel u ufd tfd l (not_ready (other n)) = stop (returned err) l.conn
  on_select fuel u ufd tfd l (ready []) = on_timeout u l
  on_select fuel u ufd tfd l (ready (fd ∷ fds)) = do
    c ← from_local tfd (fd ∷ fds) l.conn
    from_peer fuel ufd (fd ∷ fds) c

  -- The second half of a round: the wait and what follows it.
  unfoldable pub await : ℕ → UdpSession → Loop D C → Phase D C (Loop D C)
  await fuel u l =
      let ufd = udp_fd l.conn in
      let tfd = tcp_fd l.conn in
      let (s, tv, c1) = api.get_timeout l.conn in
      if not (has_timeout s)
      then stop (returned s) c1
      else monotonic_us c1 >>= λ (now_us, c2).
          let backend : Timeval = or_return tv (record { tv_sec = 0; tv_usec = 0 }) (λ x. x) in
          let wait = choose_timeout s backend (l.next_ka_us - now_us) in
          let r = os.select c2.trace (watches ufd tfd) (some wait) in
          let c3 = record c2 { trace = waited (watches ufd tfd) (some wait) r ∷ c2.trace } in
          on_select fuel u ufd tfd (record l { conn = c3 }) r

  -- One round, with the session still open.
  unfoldable pub round : ℕ → UdpSession → Loop D C → Phase D C (Loop D C)
  round fuel u l = do
    l1 ← run_events l
    l2 ← drain fuel l1
    if closes api l2.conn then stop (returned ok) l2.conn else await fuel u l2

  unfoldable pub rounds : ℕ → UdpSession → Loop D C → Outcome Status × Conn D C
  rounds zero u l = (out_of_fuel, l.conn)
  rounds (suc f) u l = elim (closes api l.conn) [
    | true ↦ (returned ok, l.conn)
    | false ↦ leave (round f u l) (rounds f u)
  ]
