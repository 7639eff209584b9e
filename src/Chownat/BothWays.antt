-- ===== src/Chownat/BothWays.antt =====
-- Hole punching between two ends: what each has heard of the other when it reports an open path.
use quic_web_rtc_like.Base.{
  ℕ, zero, suc, ◌+◌, ◌≡◌, refl, Bool, true, false, some, ◌∷◌, Bytes, ℤ, pos, arith, take, inl, inr,
  overwrite, starts_with, ltb_ℤ, Bool-cases, Option-cases,
}
use quic_web_rtc_like.Sys.{Os, Trace, returned, perform, read, send_to, Input-cases, Outcome-cases}
use quic_web_rtc_like.Conn.{ok, UdpSession, Ctrl}
use quic_web_rtc_like.Chownat.Heard.{
  Heard, Says, HearsFrom, Said-Says, Heard-Said, Says-read, Heard-read, Heard-got,
}
use quic_web_rtc_like.Chownat.State.{St}
use quic_web_rtc_like.Chownat.Msg
use quic_web_rtc_like.Chownat.Confirm.{confirm_rounds}
use quic_web_rtc_like.Chownat.Setup.{send_keep_alive}
use quic_web_rtc_like.Chownat.Punch.{client_rounds, server_rounds, hole_punching}

module _ (os : Os) (u : UdpSession) where
  -- The client says its request, and the confirmation once it has heard one.
  client_rounds-Says :
      (n : ℕ) (t : Trace)
      → Says Msg.open_request Msg.confirm t
      → let (opened, t') = client_rounds os u n t in
        Says Msg.open_request Msg.confirm t' × (opened ≡ true → Heard Msg.confirm t')
  unfolding client_rounds
  client_rounds-Says zero t says = (says, λ e. cc)
  client_rounds-Says (suc n) t says =
      let t1 : Trace = (perform os (send_to u.socket_fd Msg.open_request u.dst) t).1 in
      let i = os.input t1 u.socket_fd 3 in
      let t2 : Trace = read u.socket_fd 3 i ∷ t1 in
      let says2 : Says Msg.open_request Msg.confirm t2 =
        Says-read Msg.open_request Msg.confirm u.socket_fd i t1 (says, inl refl) in
      let again = client_rounds-Says n t2 says2 in
      elim (Input-cases i) [
        | inr (x, e) ↦ rw (e, client_rounds) again
        | inl (b, e) ↦ elim (Bool-cases (starts_with Msg.confirm (overwrite b (os.garbage t1)))) [
          | inr noise ↦ rw (e, noise, client_rounds) again
          | inl makes ↦
              let heard : Heard Msg.confirm t2 =
                Heard-got Msg.confirm u.socket_fd i b (os.garbage t1) t1 e makes in
              rw (e, makes, client_rounds) ((says2, inr (refl, heard)), λ _. heard)
        ]
      ]

  -- After a request was heard, the confirmation is sent until it comes back.
  confirm_rounds-Says :
      (m : ℤ) (fuel attempts : ℕ) (buf : Bytes) (t : Trace) (r : Bool × Bytes × Trace)
      → confirm_rounds os u m fuel attempts buf t ≡ some r
      → Says Msg.keep_alive Msg.open_request t
      → Heard Msg.open_request t
      → Says Msg.keep_alive Msg.open_request r.2 × (r.0 ≡ true → Heard Msg.confirm r.2)
  unfolding confirm_rounds
  confirm_rounds-Says m zero attempts buf t r done says heard = cc
  confirm_rounds-Says m (suc f) attempts buf t r done says heard =
      let t1 : Trace = (perform os (send_to u.socket_fd Msg.confirm u.dst) t).1 in
      let i = os.input t1 u.socket_fd 3 in
      let t2 : Trace = read u.socket_fd 3 i ∷ t1 in
      let says2 : Says Msg.keep_alive Msg.open_request t2 =
        Says-read Msg.keep_alive Msg.open_request u.socket_fd i t1 (says, inr (refl, heard)) in
      let heard2 : Heard Msg.open_request t2 = Heard-read Msg.open_request u.socket_fd i t1 heard in
      elim (Bool-cases (ltb_ℤ (pos attempts) m)) [
        | inr no_more ↦
            let e : (false, buf, t) ≡ r = ended (rw (no_more, confirm_rounds) at done) in
            rw (← e) (says, λ yes_it. cc)
        | inl more ↦ elim (Input-cases i) [
          | inr (x, e) ↦
              confirm_rounds-Says m f (attempts + 1) buf t2 r (rw (more, e, confirm_rounds) at done)
                says2 heard2
          | inl (b, e) ↦ elim (Bool-cases (starts_with Msg.confirm (overwrite b buf))) [
            | inr noise ↦
                confirm_rounds-Says m f attempts (overwrite b buf) t2 r
                  (rw (more, e, noise, confirm_rounds) at done) says2 heard2
            | inl makes ↦
                let s : (true, overwrite b buf, t2) ≡ r =
                  ended (rw (more, e, makes, confirm_rounds) at done) in
                rw (← s) (says2, λ _. Heard-got Msg.confirm u.socket_fd i b buf t1 e makes)
          ]
        ]
      ]
    where
      ended : {x y : Bool × Bytes × Trace} → some x ≡ some y → x ≡ y
      ended e = cc

send_keep_alive-Says :
    (os : Os) (c : St)
    → Says Msg.keep_alive Msg.open_request c.trace
    → Says Msg.keep_alive Msg.open_request (send_keep_alive os c).1.trace
unfolding send_keep_alive
send_keep_alive-Says os c says = grind arith

module _ (os : Os) (u : UdpSession) where
  server_rounds-Says :
      (m : ℤ) (fuel attempts : ℕ) (buf : Bytes) (c : St)
      → Says Msg.keep_alive Msg.open_request c.trace
      → let (o, c') = server_rounds os u m fuel attempts buf c in
        Says Msg.keep_alive Msg.open_request c'.trace
        × (o ≡ returned ok → Heard Msg.confirm c'.trace)
  unfolding server_rounds
  server_rounds-Says m zero attempts buf c says = (says, λ e. cc)
  server_rounds-Says m (suc f) attempts buf c says =
      let i = os.input c.trace u.socket_fd 3 in
      let t1 : Trace = read u.socket_fd 3 i ∷ c.trace in
      let c1 : St = record c { trace = t1 } in
      let c2 = (send_keep_alive os c1).1 in
      let says1 : Says Msg.keep_alive Msg.open_request t1 =
        Says-read Msg.keep_alive Msg.open_request u.socket_fd i c.trace says in
      let says2 = send_keep_alive-Says os c1 says1 in
      elim (Bool-cases (ltb_ℤ (pos attempts) m)) [
        | inr no_more ↦ rw (no_more, server_rounds) (says, λ e. cc)
        | inl more ↦ elim (Input-cases i) [
          | inr (x, e) ↦ elim (Outcome-cases (send_keep_alive os c1).0) [
            | inl (s, back) ↦
                rw (more, e, back, server_rounds)
                  (server_rounds-Says m f (attempts + 1) buf c2 says2)
            | inr (inl out) ↦ rw (more, e, out, server_rounds) (says2, λ e. cc)
            | inr (inr dry) ↦ rw (more, e, dry, server_rounds) (says2, λ e. cc)
          ]
          | inl (b, e) ↦
              let next = overwrite b buf in
              elim (Bool-cases (starts_with Msg.open_request next)) [
                | inr not_open ↦
                    rw (more, e, not_open, server_rounds)
                      (server_rounds-Says m f attempts next c1 says1)
                | inl opens ↦ elim (Option-cases (confirm_rounds os u m f 0 next t1)) [
                  | inl dry ↦ rw (more, e, opens, dry, server_rounds) (says, λ e. cc)
                  | inr ((confirmed, buf', t2), ends) ↦
                      let (says3, heard) =
                        confirm_rounds-Says os u m f 0 next t1 (confirmed, buf', t2) ends says1
                          (Heard-got Msg.open_request u.socket_fd i b buf c.trace e opens) in
                      let c3 : St = record c { trace = t2 } in
                      elim (Bool-cases confirmed) [
                        | inl answered ↦
                            rw (more, e, opens, ends, answered, server_rounds)
                              (says3, λ _. heard answered)
                        | inr not_yet ↦
                            rw (more, e, opens, ends, not_yet, server_rounds)
                              (server_rounds-Says m f attempts buf' c3 says3)
                      ]
                ]
              ]
        ]
      ]

pub client-Says :
    (os : Os) (fuel : ℕ) (c : St) (k : Ctrl)
    → c.ctrl ≡ some k
    → k.mode ≡ b'c'
    → Says Msg.open_request Msg.confirm c.trace
    → let (o, c') = hole_punching os fuel c in
      Says Msg.open_request Msg.confirm c'.trace × (o ≡ returned ok → Heard Msg.confirm c'.trace)
unfolding hole_punching
client-Says os fuel c k has mode says = grind (arith, client_rounds-Says)

pub server-Says :
    (os : Os) (fuel : ℕ) (c : St) (k : Ctrl)
    → c.ctrl ≡ some k
    → k.mode ≡ b's'
    → Says Msg.keep_alive Msg.open_request c.trace
    → let (o, c') = hole_punching os fuel c in
      Says Msg.keep_alive Msg.open_request c'.trace × (o ≡ returned ok → Heard Msg.confirm c'.trace)
unfolding hole_punching
server-Says os fuel c k has mode says = grind (arith, server_rounds-Says)

not_keep_alive :
    (buf : Bytes) → ¬ (starts_with Msg.confirm (overwrite (take 3 Msg.keep_alive) buf) ≡ true)
not_keep_alive buf makes = cc

not_request :
    (buf : Bytes) → ¬ (starts_with Msg.confirm (overwrite (take 3 Msg.open_request) buf) ≡ true)
not_request buf makes = cc

-- Of the two histories of an opening, the client's and the server's: a confirmation that the client
-- has heard comes from a server that has heard a request, and one that the server has heard from a
-- client that has heard one.
client_confirmed :
    (tc ts : Trace)
    → Says Msg.keep_alive Msg.open_request ts
    → HearsFrom ts tc
    → Heard Msg.confirm tc
    → Heard Msg.open_request ts
client_confirmed tc ts says from heard =
    let (whole, buf, said, makes) = Heard-Said ts tc Msg.confirm from heard in
    elim (Said-Says Msg.keep_alive Msg.open_request ts whole says said) [
      | inl e ↦ absurd (not_keep_alive buf (rw e at makes))
      | inr (e, requested) ↦ requested
    ]

server_confirmed :
    (tc ts : Trace)
    → Says Msg.open_request Msg.confirm tc
    → HearsFrom tc ts
    → Heard Msg.confirm ts
    → Heard Msg.confirm tc
server_confirmed tc ts says from heard =
    let (whole, buf, said, makes) = Heard-Said tc ts Msg.confirm from heard in
    elim (Said-Says Msg.open_request Msg.confirm tc whole says said) [
      | inl e ↦ absurd (not_request buf (rw e at makes))
      | inr (e, confirmed) ↦ confirmed
    ]

-- A client and a server punch holes, each with its system and fuel, having sent no datagram before
-- but such as they send then, over a network that loses, repeats and reorders datagrams, cuts them
-- to the size of the read, and makes up none. A client that reports an open path has heard a
-- confirmation, and the server a request; a server that reports one has heard a confirmation, and
-- the client one too.
pub opened_both_ways :
    (os1 os2 : Os) (fuel1 fuel2 : ℕ) (c s : St) (k1 k2 : Ctrl)
    → c.ctrl ≡ some k1
    → k1.mode ≡ b'c'
    → s.ctrl ≡ some k2
    → k2.mode ≡ b's'
    → Says Msg.open_request Msg.confirm c.trace
    → Says Msg.keep_alive Msg.open_request s.trace
    → HearsFrom (hole_punching os2 fuel2 s).1.trace (hole_punching os1 fuel1 c).1.trace
    → HearsFrom (hole_punching os1 fuel1 c).1.trace (hole_punching os2 fuel2 s).1.trace
    → let (o1, c') = hole_punching os1 fuel1 c in
      let (o2, s') = hole_punching os2 fuel2 s in
      (o1 ≡ returned ok → Heard Msg.confirm c'.trace × Heard Msg.open_request s'.trace)
      × (o2 ≡ returned ok → Heard Msg.confirm s'.trace × Heard Msg.confirm c'.trace)
opened_both_ways os1 os2 fuel1 fuel2 c s k1 k2 has1 mode1 has2 mode2 says1 says2 to_client
      to_server =
    let tc = (hole_punching os1 fuel1 c).1.trace in
    let ts = (hole_punching os2 fuel2 s).1.trace in
    let (client_says, client_heard) = client-Says os1 fuel1 c k1 has1 mode1 says1 in
    let (server_says, server_heard) = server-Says os2 fuel2 s k2 has2 mode2 says2 in
    (
      λ opened.
          (client_heard opened, client_confirmed tc ts server_says to_client (client_heard opened)),
      λ opened.
          (server_heard opened, server_confirmed tc ts client_says to_server (server_heard opened)),
    )
