-- ===== src/Conn/Relay.antt =====
-- `udp_connection` as a relay: what the protocol hands over is what the local end gets.
use quic_web_rtc_like.Base.{
  ◌∙◌, ℕ, ◌≡◌, refl, Bool, true, Option, some, [], ◌∷◌, ◌++◌, ◌==◌, Bytes, ℤ, inl, inr,
  Option-cases, drop, zero, suc, or_return, is_some, if◌then◌else◌,
}
use quic_web_rtc_like.Sys.{
  Ret, got, Os, Trace, Event, Outcome, returned, did, asked, waited, clocked, read, notified, tls,
  socket, close, set_sock_opt, bind, listen, accept, connect, send_to, send, Ret-cases, eintr,
  again, other,
}
use quic_web_rtc_like.Conn.{Status, ok, Conn}
use quic_web_rtc_like.Conn.Api.{Api, closes}
use quic_web_rtc_like.Conn.Kept.{is_silent, Promise}
use quic_web_rtc_like.Conn.Tcp.{tcp_mtu_size, send_all, tcp_send}
use quic_web_rtc_like.Conn.Written.{written_where}

-- What the callback was told for one reason, oldest first.
abbrev pub told : ℕ → Trace → Bytes
told reason [] = []
told reason (notified r b ∷ t) = if reason == r then told reason t ++ b else told reason t
told reason (_ ∷ t) = told reason t

-- What the system took for the local end, which is the only one that `send` is called for.
abbrev pub passed_on : Trace → Bytes
passed_on = written_where λ _. true

-- What the local end sent, oldest first: the reads of TCP_MTU_SIZE bytes are those of that end.
abbrev pub taken : Trace → Bytes
taken [] = []
taken (read fd n (got b) ∷ t) = if n == tcp_mtu_size then taken t ++ b else taken t
taken (_ ∷ t) = taken t

pub taken-silent : (e : Event) (t : Trace) → is_silent e ≡ true → taken (e ∷ t) ≡ taken t
taken-silent (did c r) t quiet = refl
taken-silent (asked fd) t quiet = refl
taken-silent (waited fds tv r) t quiet = refl
taken-silent clocked t quiet = refl
taken-silent (read fd n i) t quiet = cc
taken-silent (notified r b) t quiet = refl
taken-silent (tls k) t quiet = refl

-- What the relay depends on: what was handed over, what was passed on, and whether there is a TCP
-- session, without which nothing is written.
abbrev pub view : {D C : Type 0} → ℕ → Conn D C → Bytes × Bytes × Bool
view reason c = (told reason c.trace, passed_on c.trace, is_some c.tcp_session)

-- The bytes of an output parameter.
abbrev pub bytes_of : Option Bytes → Bytes
bytes_of out = or_return out [] (λ b. b)

-- What a protocol promises a relay: only reading from the peer hands something over, which is what
-- it returns, and it does not close the session then.
pub record Relays {D C : Type 0} (reason : ℕ) (api : Api D C) : Type 0 where
  pub get_timeout : (c : Conn D C) → view reason (api.get_timeout c).2 ≡ view reason c
  pub process_events :
      (c : Conn D C) (f : Conn D C → Outcome Status × Conn D C)
      → api.process_events ≡ some f
      → view reason (f c).1 ≡ view reason c
  pub hole_punching : (c : Conn D C) → view reason (api.hole_punching c).1 ≡ view reason c
  pub connect : (c : Conn D C) → view reason (api.connect c).1 ≡ view reason c
  pub udp_send : (b : Bytes) (c : Conn D C) → view reason (api.udp_send b c).1 ≡ view reason c
  pub udp_recv :
      (n : ℕ) (c : Conn D C)
      → let (o, out, c1) = api.udp_recv n c in
        view reason c1
        ≡ (told reason c.trace ++ bytes_of out, passed_on c.trace, is_some c.tcp_session)
  pub udp_recv-closed :
      (n : ℕ) (c : Conn D C)
      → let (o, out, c1) = api.udp_recv n c in closes api c1 ≡ true → bytes_of out ≡ []
  pub send_keep_alive : (c : Conn D C) → view reason (api.send_keep_alive c).1 ≡ view reason c
  pub disconnect : (c : Conn D C) → view reason (api.disconnect c).1 ≡ view reason c

-- With a TCP session, all that was handed over has been passed on but for the last bytes.
abbrev pub Behind : Bytes → Bytes × Bytes × Bool → Type 0
Behind rest (handed, passed, tcp) = (tcp ≡ true) × (handed ≡ passed ++ rest)

module _ (reason : ℕ) where
  -- Nothing is left to pass on while the loop runs, and at a success; else a prefix was passed on.
  abbrev pub Relayed : Outcome Status → Trace → Type 0
  Relayed o t =
      (rest : Bytes) × (told reason t ≡ passed_on t ++ rest) × (o ≡ returned ok → rest ≡ [])

  abbrev pub relaying : {D C : Type 0} → Promise D C
  relaying = record {
    running = λ c. Behind [] (view reason c);
    ended = λ o c. Relayed o c.trace;
    at_any_end = λ (tcp, even). ([], even, λ e. refl);
  }

  pub told-silent :
      (e : Event) (t : Trace) → is_silent e ≡ true → told reason (e ∷ t) ≡ told reason t
  told-silent (did c r) t quiet = refl
  told-silent (asked fd) t quiet = refl
  told-silent (waited fds tv r) t quiet = refl
  told-silent clocked t quiet = refl
  told-silent (read fd n i) t quiet = refl
  told-silent (notified r b) t quiet = cc
  told-silent (tls k) t quiet = refl

-- What no `send` changes is not changed by `tcp_send`.
module _ {A : Type 0} (g : Trace → A) (os : Os)
    (unsent : (fd : ℤ) (b : Bytes) (r : Ret) (t : Trace) → g (did (send fd b) r ∷ t) ≡ g t) where
  send_all-unsent :
      (fd : ℤ) (fuel : ℕ) (xs : Bytes) (t : Trace) → g (send_all os fd fuel xs t).1 ≡ g t
  unfolding send_all
  send_all-unsent fd fuel [] t = refl
  send_all-unsent fd zero (x ∷ xs) t = refl
  send_all-unsent fd (suc f) (x ∷ xs) t =
      let r = os.answer t (send fd (x ∷ xs)) in
      let t1 : Trace = did (send fd (x ∷ xs)) r ∷ t in
      let here : g t1 ≡ g t = unsent fd (x ∷ xs) r t in
      let rest = send_all-unsent fd f in
      elim (Ret-cases r) [
        | inl (zero, e) ↦ rw (e, send_all) here
        | inl (suc n, e) ↦ rw (e, send_all) (rest (drop n xs) t1 ∙ here)
        | inr (eintr, e) ↦ rw (e, send_all) (rest (x ∷ xs) t1 ∙ here)
        | inr (again, e) ↦ rw (e, send_all) here
        | inr (other n, e) ↦ rw (e, send_all) here
      ]

  pub tcp_send-unsent :
      {D C : Type 0} (fuel : ℕ) (b : Bytes) (c : Conn D C)
      → g (tcp_send os fuel b c).1.trace ≡ g c.trace
  unfolding tcp_send
  tcp_send-unsent fuel b c = elim (Option-cases c.tcp_session) [
    | inl null ↦ rw null refl
    | inr (tcp, e) ↦ rw e (send_all-unsent tcp.accepted_sock fuel b c.trace)
  ]

pub passed_on-silent :
    (e : Event) (t : Trace) → is_silent e ≡ true → passed_on (e ∷ t) ≡ passed_on t
passed_on-silent (did socket r) t quiet = refl
passed_on-silent (did (close fd) r) t quiet = refl
passed_on-silent (did (set_sock_opt fd o) r) t quiet = refl
passed_on-silent (did (bind fd a) r) t quiet = refl
passed_on-silent (did (listen fd n) r) t quiet = refl
passed_on-silent (did (accept fd) r) t quiet = refl
passed_on-silent (did (connect fd a) r) t quiet = refl
passed_on-silent (did (send_to fd b a) r) t quiet = refl
passed_on-silent (did (send fd b) r) t quiet = cc
passed_on-silent (asked fd) t quiet = refl
passed_on-silent (waited fds tv r) t quiet = refl
passed_on-silent clocked t quiet = refl
passed_on-silent (read fd n i) t quiet = refl
passed_on-silent (notified r b) t quiet = cc
passed_on-silent (tls k) t quiet = refl
