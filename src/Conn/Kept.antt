-- ===== src/Conn/Kept.antt =====
-- Properties of connections that a protocol's operations keep, and how a phase that is made of such
-- operations keeps them.
use quic_web_rtc_like.Base.{
  ℤ, ℕ, ◌≡◌, refl, ◌∷◌, Bool, true, false, Option, none, some, Bytes, or_return, if◌then◌else◌,
}
use quic_web_rtc_like.Sys.{
  Input, Trace, Event, did, send, notified, read, tls, Outcome, returned, exited, out_of_fuel,
}
use quic_web_rtc_like.Conn.{Status, TcpSession, Conn}
use quic_web_rtc_like.Conn.Api.{Api}
use quic_web_rtc_like.Conn.Tcp.{tcp_mtu_size}
use quic_web_rtc_like.Conn.Phase.{Phase, stop, go, ◌>>=◌, settle, leave}

-- A property of connections that reads neither the history nor the TCP session, and that a
-- protocol's operations keep.
pub record KeptBy {D C : Type 0} (P : Conn D C → Type 0) (api : Api D C) : Type 0 where
  pub any_trace :
      (c : Conn D C) (t : Trace) (tcp : Option TcpSession)
      → P c
      → P (record c { trace = t; tcp_session = tcp })
  pub get_timeout : (c : Conn D C) → P c → P (api.get_timeout c).2
  pub process_events :
      (c : Conn D C) (f : Conn D C → Outcome Status × Conn D C)
      → api.process_events ≡ some f
      → P c
      → P (f c).1
  pub hole_punching : (c : Conn D C) → P c → P (api.hole_punching c).1
  pub connect : (c : Conn D C) → P c → P (api.connect c).1
  pub udp_send : (b : Bytes) (c : Conn D C) → P c → P (api.udp_send b c).1
  pub udp_recv : (n : ℕ) (c : Conn D C) → P c → P (api.udp_recv n c).2
  pub send_keep_alive : (c : Conn D C) → P c → P (api.send_keep_alive c).1
  pub disconnect : (c : Conn D C) → P c → P (api.disconnect c).1

-- The events that neither read nor write data nor call the application or OpenSSL.
abbrev pub is_silent : Event → Bool
is_silent (did (send fd b) r) = false
is_silent (notified r b) = false
is_silent (read fd n i) = false
is_silent (tls k) = false
is_silent _ = true

-- The laws for a property that may read the history: first what opening a session does, where `P`
-- holds until the protocol connects, and `Q` from then on.
pub record Opened {D C : Type 0} (P Q : Conn D C → Type 0) (api : Api D C) : Type 0 where
  pub event :
      (c : Conn D C) (e : Event) → is_silent e ≡ true → P c → P (record c { trace = e ∷ c.trace })
  pub accepted :
      (c : Conn D C) (tcp tcp' : TcpSession)
      → c.tcp_session ≡ some tcp
      → P c
      → P (record c { tcp_session = some tcp' })
  pub hole_punching : (c : Conn D C) → P c → P (api.hole_punching c).1
  pub connect : (c : Conn D C) → P c → Q (api.connect c).1

-- Then what the loop does itself and what it calls, but for the data that it carries.
pub record Carried {D C : Type 0} (P : Conn D C → Type 0) (api : Api D C) : Type 0 where
  pub event :
      (c : Conn D C) (e : Event) → is_silent e ≡ true → P c → P (record c { trace = e ∷ c.trace })
  pub get_timeout : (c : Conn D C) → P c → P (api.get_timeout c).2
  pub process_events :
      (c : Conn D C) (f : Conn D C → Outcome Status × Conn D C)
      → api.process_events ≡ some f
      → P c
      → P (f c).1
  pub send_keep_alive : (c : Conn D C) → P c → P (api.send_keep_alive c).1
  pub disconnect : (c : Conn D C) → P c → P (api.disconnect c).1

-- What the local end sends: a read of it, and what follows.
pub record Forwards {D C : Type 0} (P : Conn D C → Type 0) (api : Api D C) : Type 0 where
  pub local_read :
      (c : Conn D C) (fd : ℤ) (i : Input)
      → P c
      → P (record c { trace = read fd tcp_mtu_size i ∷ c.trace })
  pub udp_send : (b : Bytes) (c : Conn D C) → P c → P (api.udp_send b c).1

-- What is promised of a connection while a function runs, and of its result and connection once it
-- has ended.
pub record Promise (D C : Type 0) : Type 1 where
  pub running : Conn D C → Type 0
  pub ended : Outcome Status → Conn D C → Type 0
  pub at_any_end : {o : Outcome Status} {c : Conn D C} → running c → ended o c

-- The promise that a property always holds.
abbrev pub always : {D C : Type 0} → (Conn D C → Type 0) → Promise D C
always P = record { running = P; ended = λ o c. P c; at_any_end = λ p. p }

pub KeptBy-Opened :
    {D C : Type 0} (P : Conn D C → Type 0) (api : Api D C) → KeptBy P api → Opened P P api
KeptBy-Opened P api k = record {
  event = λ c e quiet p. k.any_trace c (e ∷ c.trace) c.tcp_session p;
  accepted = λ c tcp tcp' e p. k.any_trace c c.trace (some tcp') p;
  hole_punching = k.hole_punching;
  connect = k.connect;
}

pub KeptBy-Carried :
    {D C : Type 0} (P : Conn D C → Type 0) (api : Api D C) → KeptBy P api → Carried P api
KeptBy-Carried P api k = record {
  event = λ c e quiet p. k.any_trace c (e ∷ c.trace) c.tcp_session p;
  get_timeout = k.get_timeout;
  process_events = k.process_events;
  send_keep_alive = k.send_keep_alive;
  disconnect = k.disconnect;
}

pub KeptBy-Forwards :
    {D C : Type 0} (P : Conn D C → Type 0) (api : Api D C) → KeptBy P api → Forwards P api
KeptBy-Forwards P api k = record {
  local_read = λ c fd i p. k.any_trace c (read fd tcp_mtu_size i ∷ c.trace) c.tcp_session p;
  udp_send = k.udp_send;
}

-- A property of either branch.
pub of_if : {A : Type 0} (X : A → Type 0) (b : Bool) (m n : A) → X m → X n → X (if b then m else n)
of_if X true m n x y = x
of_if X false m n x y = y

pub of_or_return :
    {A B : Type 0} (X : A → Type 0) (o : Option B) (m : A) (f : B → A)
    → X m
    → ((b : B) → o ≡ some b → X (f b))
    → X (or_return o m f)
of_or_return X none m f x y = x
of_or_return X (some b) m f x y = y b refl

module _ {D C : Type 0} (P : Promise D C) where
  -- What a function that has ended leaves.
  abbrev pub Left : Outcome Status × Conn D C → Type 0
  Left r = P.ended r.0 r.1

  -- The connection beside a value.
  abbrev pub InPair : {A : Type 0} → A × Conn D C → Type 0
  InPair r = P.running r.1

  -- Both ends of a phase: where it leaves the function, and where it goes on.
  abbrev pub Holds : {A : Type 0} → (A → Type 0) → Phase D C A → Type 0
  Holds Q (stop o c) = P.ended o c
  Holds Q (go a) = Q a

  pub Holds-bind :
      {A B : Type 0} (Q : A → Type 0) (R : B → Type 0) (m : Phase D C A) (f : A → Phase D C B)
      → Holds Q m
      → ((a : A) → Q a → Holds R (f a))
      → Holds R (m >>= f)
  Holds-bind Q R (stop o c) f h next = h
  Holds-bind Q R (go a) f h next = next a h

  pub Holds-settle :
      {A : Type 0} (Q : A → Type 0) (r : Outcome Status × Conn D C)
      (f : Status → Conn D C → Phase D C A)
      → P.running r.1
      → ((s : Status) (c : Conn D C) → P.running c → Holds Q (f s c))
      → Holds Q (settle r f)
  Holds-settle Q (returned s, c) f p next = next s c p
  Holds-settle Q (exited, c) f p next = P.at_any_end p
  Holds-settle Q (out_of_fuel, c) f p next = P.at_any_end p

  pub Holds-if :
      {A : Type 0} (Q : A → Type 0) (b : Bool) (m n : Phase D C A)
      → Holds Q m
      → Holds Q n
      → Holds Q (if b then m else n)
  Holds-if Q = of_if (Holds Q)

  pub Holds-or_return :
      {A B : Type 0} (Q : A → Type 0) (o : Option B) (m : Phase D C A) (f : B → Phase D C A)
      → Holds Q m
      → ((b : B) → Holds Q (f b))
      → Holds Q (or_return o m f)
  Holds-or_return Q none m f x y = x
  Holds-or_return Q (some b) m f x y = y b

  pub keeps-if :
      {S : Type 0} (b : Bool) (m n : S × Conn D C)
      → P.running m.1
      → P.running n.1
      → P.running (if b then m else n).1
  keeps-if = of_if λ r. P.running r.1

  pub keeps-or_return :
      {S B : Type 0} (o : Option B) (m : S × Conn D C) (f : B → S × Conn D C)
      → P.running m.1
      → ((b : B) → o ≡ some b → P.running (f b).1)
      → P.running (or_return o m f).1
  keeps-or_return = of_or_return λ r. P.running r.1

  pub Left-leave :
      {A : Type 0} (Q : A → Type 0) (m : Phase D C A) (f : A → Outcome Status × Conn D C)
      → Holds Q m
      → ((a : A) → Q a → Left (f a))
      → Left (leave m f)
  Left-leave Q (stop o c) f h next = h
  Left-leave Q (go a) f h next = next a h
