-- ===== src/Conn/Local.antt =====
-- tcp_bind and tcp_recv keep a promise that the protocol's operations keep.
use quic_web_rtc_like.Base.{
  true, false, Bool-cases, inl, inr, Bytes, ◌≡◌, refl, not, ◌==◌, some, [], ◌∷◌, ℤ, pos, minus_one,
  ltb_ℤ,
}
use quic_web_rtc_like.Sys.{
  Os, Call, Ret, ret, fail, failed, Input, got, no_input, read, did, set_sock_opt, reuse_addr, bind,
  listen, accept, close, connect,
}
use quic_web_rtc_like.Conn.{Status, ok, err, not_init, is_error, TcpSession, Conn, call, run}
use quic_web_rtc_like.Conn.{closed as status_closed}
use quic_web_rtc_like.Conn.Api.{Api, closes}
use quic_web_rtc_like.Conn.Kept.{
  is_silent, Promise, Opened, of_if, of_or_return, Forwards, InPair, keeps-if, keeps-or_return,
}
use quic_web_rtc_like.Conn.Tcp.{tcp_mtu_size, bind_client, bind_server, tcp_bind, tcp_recv}

module _ {D C : Type 0} (os : Os) (api : Api D C) (P : Promise D C) {Q : Conn D C → Type 0}
    (k : Opened P.running Q api) where
  called :
      (x : Call) (c : Conn D C)
      → is_silent (did x (os.answer c.trace x)) ≡ true
      → P.running c
      → P.running (run os x c)
  called x c quiet p = k.event c _ quiet p

  -- What `accept` gives.
  accepted :
      (tcp : TcpSession) (r : Ret) (c : Conn D C)
      → c.tcp_session ≡ some tcp
      → P.running c
      → InPair P (elim r as (λ r. Status × Conn D C) [
        | fail e ↦ (err, record c { tcp_session = some (record tcp { accepted_sock = minus_one }) })
        | ret n ↦ (ok, record c { tcp_session = some (record tcp { accepted_sock = pos n }) })
      ])
  accepted tcp (fail x) c e p = k.accepted c tcp _ e p
  accepted tcp (ret n) c e p = k.accepted c tcp _ e p

  bind_client-keeps :
      (tcp : TcpSession) (c : Conn D C)
      → c.tcp_session ≡ some tcp
      → P.running c
      → InPair P (bind_client os tcp c)
  unfolding bind_client
  bind_client-keeps tcp c e p =
      let s = tcp.socket_fd in
      let (r1, c1) = call os (set_sock_opt s (reuse_addr tcp.reuse)) c in
      let (r2, c2) = call os (bind s tcp.local) c1 in
      let (r3, c3) = call os (listen s 20) c2 in
      let (r4, c4) = call os (accept s) c3 in
      let p1 : P.running c1 = called (set_sock_opt s (reuse_addr tcp.reuse)) c refl p in
      let p2 : P.running c2 = called (bind s tcp.local) c1 refl p1 in
      let p3 : P.running c3 = called (listen s 20) c2 refl p2 in
      let p4 : P.running c4 = called (accept s) c3 refl p3 in
      keeps-if P (failed r1) _ _ (called (close s) c1 refl p1) (
        keeps-if P (failed r2) _ _ (called (close s) c2 refl p2)
          (keeps-if P (failed r3) _ _ (called (close s) c3 refl p3) (accepted tcp r4 c4 e p4)))

  bind_server-keeps :
      (tcp : TcpSession) (c : Conn D C)
      → c.tcp_session ≡ some tcp
      → P.running c
      → InPair P (bind_server os tcp c)
  unfolding bind_server
  bind_server-keeps tcp c e p =
      let (r, c1) = call os (connect tcp.socket_fd tcp.local) c in
      let p1 : P.running c1 = called (connect tcp.socket_fd tcp.local) c refl p in
      keeps-if P (ltb_ℤ tcp.socket_fd (pos 0)) _ _ p
        (keeps-if P (failed r) _ _ p1 (k.accepted c1 tcp _ e p1))

  pub tcp_bind-keeps : (c : Conn D C) → P.running c → InPair P (tcp_bind os c)
  unfolding tcp_bind
  tcp_bind-keeps c p = keeps-or_return P c.tcp_session _ _ p λ tcp e.
      keeps-or_return P c.udp_session _ _ p λ u _. keeps-or_return P c.ctrl _ _ p λ ctl _.
        keeps-if P (not ctl.init) _ _ p (
          keeps-if P (ctl.mode == b'c') _ _ (bind_client-keeps tcp c e p)
            (keeps-if P (ctl.mode == b's') _ _ (bind_server-keeps tcp c e p) p))

-- What an input brought.
abbrev pub bytes_read : Input → Bytes
bytes_read (got b) = b
bytes_read (no_input e) = []

-- What holds of every end of tcp_recv: of a call that is refused, of a read that gives nothing, and
-- of the sending of what was read.
module _ {D C : Type 0} (os : Os) (api : Api D C) (X : Status × Conn D C → Type 0) (c : Conn D C)
    (refused : (s : Status) → is_error s ≡ true → X (s, c))
    (empty : (fd : ℤ) (i : Input)
      → bytes_read i ≡ []
      → X (err, record c { trace = read fd tcp_mtu_size i ∷ c.trace }))
    (sends : closes api c ≡ false
      → (fd : ℤ) (b : Bytes)
      → X (api.udp_send b (record c { trace = read fd tcp_mtu_size (got b) ∷ c.trace }))) where
  pub tcp_recv-ends : X (tcp_recv os api c)
  unfolding tcp_recv
  tcp_recv-ends = of_or_return X c.udp_session _ _ (refused err refl) λ u _.
      of_or_return X c.tcp_session _ _ (refused err refl) λ tcp _.
        of_or_return X c.ctrl _ _ (refused err refl) λ ctl _.
          of_if X (not ctl.init) _ _ (refused not_init refl) (elim (Bool-cases (closes api c)) [
            | inl over ↦ rw over (refused status_closed refl)
            | inr still ↦
                rw still (
                  sent_on still tcp.accepted_sock (os.input c.trace tcp.accepted_sock tcp_mtu_size))
          ])
    where
      sent_on :
          closes api c ≡ false
          → (fd : ℤ) (i : Input)
          → let c1 : Conn D C = record c { trace = read fd tcp_mtu_size i ∷ c.trace } in
            X (elim i as (λ i. Status × Conn D C) [
              | no_input e ↦ (err, c1)
              | got msg ↦ elim msg [ [] ↦ (err, c1) | x ∷ xs ↦ api.udp_send (x ∷ xs) c1 ]
            ])
      sent_on still fd (no_input e) = empty fd (no_input e) refl
      sent_on still fd (got []) = empty fd (got []) refl
      sent_on still fd (got (x ∷ xs)) = sends still fd (x ∷ xs)

pub tcp_recv-keeps :
    {D C : Type 0} (os : Os) (api : Api D C) (P : Promise D C) (fw : Forwards P.running api)
    (c : Conn D C)
    → P.running c
    → InPair P (tcp_recv os api c)
tcp_recv-keeps os api P fw c p =
    tcp_recv-ends os api (InPair P) c (λ s failed. p) (λ fd i none_read. fw.local_read c fd i p)
      λ still fd b. fw.udp_send b _ (fw.local_read c fd (got b) p)
