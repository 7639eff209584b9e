-- ===== src/Chownat/Closing.antt =====
-- What a session is after it is closed, and how long closing takes.
use quic_web_rtc_like.Base.{
  ℕ, zero, suc, ◌+◌, ◌-◌, ◌*◌, ◌≤◌, ◌<◌, ◌≡◌, ◌≢◌, refl, true, false, none, some, [], ◌∷◌, Bytes, ℤ,
  pos, minus_one, to_ℕ, ltb_ℤ, arith, length, starts_with, overwrite, inl, inr,
}
use quic_web_rtc_like.Sys.{
  Os, Trace, Errno, returned, did, close, got, no_input, perform, read, send_to, Input-cases,
}
use quic_web_rtc_like.Conn.{ok, UdpSession, TcpSession, Ctrl}
use quic_web_rtc_like.Chownat.State.{Data, Config, St}
use quic_web_rtc_like.Chownat.Msg
use quic_web_rtc_like.Chownat.Confirm.{confirm_rounds}
use quic_web_rtc_like.Chownat.Disconnect.{
  request_rounds, close_positive, finish, disconnect_send, disconnect_recv,
}

-- A connection with every pointer set, initialised, its data being `d`.
pub record IsLive (c : St) (d : Data) : Type 0 where
  pub session : UdpSession
  pub has_session : c.udp_session ≡ some session
  pub ctrl : Ctrl
  pub has_ctrl : c.ctrl ≡ some ctrl
  pub inited : ctrl.init ≡ true
  pub config : Config
  pub has_config : c.config ≡ some config
  pub has_data : c.data_ptr ≡ some d

-- Two events a round, and the last confirmation.
length-request_rounds :
    (os : Os) (u : UdpSession) (n : ℕ) (buf : Bytes) (t : Trace)
    → length (request_rounds os u n buf t) ≤ length t + 2 * n + 1
unfolding request_rounds
length-request_rounds os u zero buf t = omega arith
length-request_rounds os u (suc n) buf t = grind (arith, length-request_rounds os u n)

length-finish :
    (os : Os) (d : Data) (c : St)
    → length (finish (close_positive os) d c).trace ≤ length c.trace + 2
unfolding finish close_positive
length-finish os d c = ground arith

-- Closing makes at most two system calls for each allowed attempt and three more, whatever the
-- peer and the network do.
pub length-disconnect_send :
    (os : Os) (c : St) (cfg : Config)
    → c.config ≡ some cfg
    → length (disconnect_send os c).1.trace ≤ length c.trace + 2 * to_ℕ cfg.conn_max_attempts + 3
unfolding disconnect_send
length-disconnect_send os c cfg h = grind (arith, length-request_rounds, length-finish)

-- Closing an open session returns success whatever the peer does: the session is closed, its
-- counters are 0, no descriptor above 0 is left in the TCP session, and the UDP session, the
-- control and the configuration are as they were.
pub disconnect_send-ok :
    (os : Os) (c : St) (d : Data)
    → IsLive c d
    → d.closed ≡ false
    → let c' = (disconnect_send os c).1 in
      ((disconnect_send os c).0 ≡ ok)
      × (c'.data_ptr ≡ some (record d { id = 0; expected = 0; closed = true }))
      × (c'.udp_session ≡ c.udp_session)
      × (c'.ctrl ≡ c.ctrl)
      × (c'.config ≡ c.config)
      × ((tcp : TcpSession)
          → c'.tcp_session ≡ some tcp
          → (ltb_ℤ (pos 0) tcp.socket_fd ≡ false) × (ltb_ℤ (pos 0) tcp.accepted_sock ≡ false))
unfolding disconnect_send
disconnect_send-ok os c d live is_open = ground arith

-- From some point of the history on the peer says nothing more: every read fails.
abbrev pub FallsSilent : Os → ℕ → Type 0
FallsSilent os n =
    (t : Trace) (fd : ℤ) (k : ℕ) → n ≤ length t → (e : Errno) × (os.input t fd k ≡ no_input e)

-- The peer answers every read with the same three bytes.
abbrev pub Repeats : Os → Bytes → Type 0
Repeats os b = (t : Trace) (fd : ℤ) (k : ℕ) → os.input t fd k ≡ got b

-- If the peer falls silent, the confirmation loop ends: the fuel that suffices counts the events up
-- to then and the attempts that are left.
pub confirm_rounds_ends :
    (os : Os) (u : UdpSession) (n : ℕ)
    → FallsSilent os n
    → (attempts_max : ℤ) (fuel attempts : ℕ) (buf : Bytes) (t : Trace)
    → (n - length t) + (to_ℕ attempts_max - attempts) < fuel
    → confirm_rounds os u attempts_max fuel attempts buf t ≢ none
unfolding confirm_rounds
confirm_rounds_ends os u n silent m zero attempts buf t h = absurd (omega arith)
confirm_rounds_ends os u n silent m (suc fuel) attempts buf t h =
    let t1 = (perform os (send_to u.socket_fd Msg.confirm u.dst) t).1 in
    let i = os.input t1 u.socket_fd 3 in
    let t2 = read u.socket_fd 3 i ∷ t1 in
    let ih = confirm_rounds_ends os u n silent m fuel in
    elim (Input-cases i) [
      | inl (b, e) ↦ ground (arith, silent t1 u.socket_fd 3, ih attempts (overwrite b buf) t2)
      | inr (x, e) ↦ ground (arith, ih (attempts + 1) buf t2)
    ]

-- A message that is not the confirmation is not counted as an attempt: a peer that repeats one of
-- three bytes holds the confirmation loop for every fuel, if at least one attempt is allowed.
pub confirm_rounds_held :
    (os : Os) (u : UdpSession) (x y z : ℕ)
    → Repeats os (x ∷ y ∷ z ∷ [])
    → starts_with Msg.confirm (x ∷ y ∷ z ∷ []) ≡ false
    → (m fuel : ℕ) (buf : Bytes) (t : Trace) → confirm_rounds os u (pos (suc m)) fuel 0 buf t ≡ none
unfolding confirm_rounds
confirm_rounds_held os u x y z same stray m zero buf t = refl
confirm_rounds_held os u x y z same stray m (suc fuel) buf t =
    grind (arith, same, confirm_rounds_held os u x y z same stray m fuel)

-- The peer's request to close, served on an open session: if the peer falls silent once the
-- history has n events and the fuel is above n plus the allowed attempts, the call returns success
-- with the session closed, its counters at 0 and both TCP descriptors at -1.
pub disconnect_recv-ok :
    (os : Os) (n fuel : ℕ) (c : St) (d : Data) (live : IsLive c d)
    → FallsSilent os n
    → d.closed ≡ false
    → n + to_ℕ live.config.conn_max_attempts < fuel
    → let (o, c') = disconnect_recv os fuel c in
      (o ≡ returned ok)
      × (c'.data_ptr ≡ some (record d { id = 0; expected = 0; closed = true }))
      × ((tcp : TcpSession)
          → c'.tcp_session ≡ some tcp
          → (tcp.socket_fd ≡ minus_one) × (tcp.accepted_sock ≡ minus_one))
unfolding disconnect_recv
disconnect_recv-ok os n fuel c d live silent is_open enough = ground (
  arith,
  confirm_rounds_ends os live.session n silent live.config.conn_max_attempts fuel 0
      (os.garbage c.trace) c.trace,
)

-- Where one descriptor above 0 stands in both fields of a TCP session, closing the session closes
-- it twice.
pub close_positive_twice :
    (os : Os) (tcp : TcpSession) (n : ℕ) (t : Trace)
    → tcp.socket_fd ≡ pos (suc n)
    → tcp.accepted_sock ≡ tcp.socket_fd
    → let first = did (close (pos (suc n))) (os.answer t (close (pos (suc n)))) ∷ t in
      (close_positive os tcp t).1
      ≡ did (close (pos (suc n))) (os.answer first (close (pos (suc n)))) ∷ first
unfolding close_positive
close_positive_twice os tcp n t s a = ground arith
