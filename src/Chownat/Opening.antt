-- ===== src/Chownat/Opening.antt =====
-- How hole punching ends, and how long it takes.
use quic_web_rtc_like.Base.{
  ℕ, zero, suc, ◌+◌, ◌-◌, ◌*◌, ◌≤◌, ◌<◌, ◌≡◌, ◌≢◌, Bool, true, some, ◌∷◌, Bytes, ℤ, to_ℕ, arith,
  length, starts_with, overwrite, Bool-cases, Option-cases, inl, inr,
}
use quic_web_rtc_like.Sys.{
  Os, Trace, returned, out_of_fuel, read, send_to, got, perform, Input-cases,
}
use quic_web_rtc_like.Conn.{Ctrl, ok, UdpSession}
use quic_web_rtc_like.Chownat.State.{Config, St}
use quic_web_rtc_like.Chownat.Msg
use quic_web_rtc_like.Chownat.Confirm.{confirm_rounds}
use quic_web_rtc_like.Chownat.Setup.{send_keep_alive}
use quic_web_rtc_like.Chownat.Punch.{client_rounds, server_rounds, hole_punching}
use quic_web_rtc_like.Chownat.Closing.{FallsSilent, confirm_rounds_ends}

-- The client's loop makes at most two system calls for each allowed attempt, and one more.
length-client_rounds :
    (os : Os) (u : UdpSession) (n : ℕ) (t : Trace)
    → length (client_rounds os u n t).1 ≤ length t + 2 * n + 1
unfolding client_rounds
length-client_rounds os u zero t = omega arith
length-client_rounds os u (suc n) t = grind (arith, length-client_rounds os u n)

-- The client's loop opens a connection only on the confirmation: the newest events are a message
-- from the peer that makes it, and the confirmation in return.
client_rounds-Opened :
    (os : Os) (u : UdpSession) (n : ℕ) (t : Trace)
    → (client_rounds os u n t).0 ≡ true
    → (before : Trace) × (b : Bytes) × (stack : Bytes) × ((client_rounds os u n t).1
        ≡ (perform os
            (send_to u.socket_fd Msg.confirm u.dst)
            (read u.socket_fd 3 (got b) ∷ before)).1)
      × (starts_with Msg.confirm (overwrite b stack) ≡ true)
unfolding client_rounds
client_rounds-Opened os u zero t h = cc
client_rounds-Opened os u (suc n) t h =
    let t1 = (perform os (send_to u.socket_fd Msg.open_request u.dst) t).1 in
    let i = os.input t1 u.socket_fd 3 in
    let ih = client_rounds-Opened os u n (read u.socket_fd 3 i ∷ t1) in
    elim (Input-cases i) [
      | inr (x, e) ↦ ground (arith, ih)
      | inl (b, e) ↦ elim (Bool-cases (starts_with Msg.confirm (overwrite b (os.garbage t1)))) [
        | inl yes_it ↦ (t1, b, os.garbage t1, ground arith, yes_it)
        | inr no_it ↦ ground (arith, ih)
      ]
    ]

length-confirm_rounds :
    (os : Os) (u : UdpSession) (m : ℤ) (fuel attempts : ℕ) (buf : Bytes) (t : Trace)
    {r : Bool × Bytes × Trace}
    → confirm_rounds os u m fuel attempts buf t ≡ some r
    → length t ≤ length r.2
unfolding confirm_rounds
length-confirm_rounds os u m zero attempts buf t h = cc
length-confirm_rounds os u m (suc fuel) attempts buf t {r} h =
    let t1 = (perform os (send_to u.socket_fd Msg.confirm u.dst) t).1 in
    let i = os.input t1 u.socket_fd 3 in
    let t2 = read u.socket_fd 3 i ∷ t1 in
    elim (Input-cases i) [
      | inl (b, e) ↦
          ground (arith, length-confirm_rounds os u m fuel attempts (overwrite b buf) t2 {r = r})
      | inr (x, e) ↦ ground (arith, length-confirm_rounds os u m fuel (attempts + 1) buf t2 {r = r})
    ]

length-send_keep_alive : (os : Os) (c : St) → length c.trace ≤ length (send_keep_alive os c).1.trace
unfolding send_keep_alive
length-send_keep_alive os c = ground arith

send_keep_alive-ends : (os : Os) (c : St) → (send_keep_alive os c).0 ≢ out_of_fuel
unfolding send_keep_alive
send_keep_alive-ends os c = ground arith

-- If the peer falls silent after `n` events, the server's loop ends: the fuel counts the events up
-- to then, the attempts that are left, and those of a connection that is opened last.
server_rounds_ends :
    (os : Os) (u : UdpSession) (n : ℕ)
    → FallsSilent os n
    → (m : ℤ) (fuel attempts : ℕ) (buf : Bytes) (c : St)
    → (n - length c.trace) + (to_ℕ m - attempts) + to_ℕ m < fuel
    → (server_rounds os u m fuel attempts buf c).0 ≢ out_of_fuel
unfolding server_rounds
server_rounds_ends os u n silent m zero attempts buf c h = absurd (omega arith)
server_rounds_ends os u n silent m (suc fuel) attempts buf c h =
    let i = os.input c.trace u.socket_fd 3 in
    let t1 = read u.socket_fd 3 i ∷ c.trace in
    let c1 : St = record c { trace = t1 } in
    let ih = server_rounds_ends os u n silent m fuel in
    elim (Input-cases i) [
      | inr (x, e) ↦ ground (
        arith,
        send_keep_alive-ends os c1,
        length-send_keep_alive os c1,
        ih (attempts + 1) buf (send_keep_alive os c1).1,
      )
      | inl (b, e) ↦ elim (Option-cases (confirm_rounds os u m fuel 0 (overwrite b buf) t1)) [
        | inl out ↦ ground (
          arith,
          ih attempts (overwrite b buf) c1,
          silent c.trace u.socket_fd 3,
          confirm_rounds_ends os u n silent m fuel 0 (overwrite b buf) t1,
        )
        | inr (r, done) ↦ ground (
          arith,
          ih attempts (overwrite b buf) c1,
          silent c.trace u.socket_fd 3,
          length-confirm_rounds os u m fuel 0 (overwrite b buf) t1 done,
          ih attempts r.1 (record c { trace = r.2 }),
        )
      ]
    ]

-- Hole punching ends in both modes if the peer falls silent once the history has n events: a fuel
-- above n plus twice the allowed attempts suffices.
pub hole_punching-ends :
    (os : Os) (n fuel : ℕ) (c : St) (cfg : Config)
    → c.config ≡ some cfg
    → FallsSilent os n
    → n + 2 * to_ℕ cfg.conn_max_attempts < fuel
    → (hole_punching os fuel c).0 ≢ out_of_fuel
unfolding hole_punching
hole_punching-ends os n fuel c cfg has silent enough = elim (Option-cases c.udp_session) [
  | inl null ↦ ground arith
  | inr (u, e) ↦
      ground (
        arith,
        server_rounds_ends os u n silent cfg.conn_max_attempts fuel 0 (os.garbage c.trace) c,
      )
]

-- A client reports an open path only after the peer's confirmation: its newest two events are a
-- read that leaves the confirmation at the head of the buffer, and the confirmation sent in
-- return.
pub hole_punching-confirmed :
    (os : Os) (fuel : ℕ) (c : St) (cfg : Config) (u : UdpSession) (k : Ctrl)
    → c.config ≡ some cfg
    → c.udp_session ≡ some u
    → c.ctrl ≡ some k
    → k.mode ≡ b'c'
    → (hole_punching os fuel c).0 ≡ returned ok
    → (before : Trace) × (b : Bytes) × (stack : Bytes) × ((hole_punching os fuel c).1.trace
        ≡ (perform os
            (send_to u.socket_fd Msg.confirm u.dst)
            (read u.socket_fd 3 (got b) ∷ before)).1)
      × (starts_with Msg.confirm (overwrite b stack) ≡ true)
unfolding hole_punching
hole_punching-confirmed os fuel c cfg u k hc hu hk mode opened =
    ground (arith, client_rounds-Opened os u (to_ℕ cfg.conn_max_attempts) c.trace)
