-- ===== src/Chownat/Knocking.antt =====
-- What the server's hole punching leaves alone: anything that its reads, its keep-alives and the
-- confirmation leave alone.
use quic_web_rtc_like.Base.{
  ◌≡◌, refl, suc, zero, ◌+◌, inl, inr, overwrite, starts_with, ◌∙◌, ltb_ℤ, pos, Bool-cases,
  Option-cases, ℕ, Bool, some, ◌∷◌, Bytes, ℤ,
}
use quic_web_rtc_like.Sys.{Os, Input, read, Input-cases, Outcome-cases, Trace}
use quic_web_rtc_like.Conn.{UdpSession}
use quic_web_rtc_like.Chownat.State.{St}
use quic_web_rtc_like.Chownat.Setup.{send_keep_alive}
use quic_web_rtc_like.Chownat.Punch.{server_rounds}
use quic_web_rtc_like.Chownat.Confirm.{confirm_rounds}
use quic_web_rtc_like.Chownat.Msg

module _ {A : Type 0} (g : St → A) (os : Os) (u : UdpSession) (m : ℤ)
    (hears : (i : Input) (c : St) → g (record c { trace = read u.socket_fd 3 i ∷ c.trace }) ≡ g c)
    (knocks : (c : St) → g (send_keep_alive os c).1 ≡ g c)
    (confirms : (c : St) (f : ℕ) (buf : Bytes) (r : Bool × Bytes × Trace)
      → confirm_rounds os u m f 0 buf c.trace ≡ some r
      → g (record c { trace = r.2 }) ≡ g c) where
  pub server_rounds-same :
      (fuel attempts : ℕ) (buf : Bytes) (c : St)
      → g (server_rounds os u m fuel attempts buf c).1 ≡ g c
  unfolding server_rounds
  server_rounds-same zero attempts buf c = refl
  server_rounds-same (suc f) attempts buf c = elim (Bool-cases (ltb_ℤ (pos attempts) m)) [
    | inr no_more ↦ rw (no_more, server_rounds) refl
    | inl more ↦
        let i = os.input c.trace u.socket_fd 3 in
        let t1 : Trace = read u.socket_fd 3 i ∷ c.trace in
        let c1 : St = record c { trace = t1 } in
        let c2 = (send_keep_alive os c1).1 in
        let ih = server_rounds-same f in
        let unread : g c1 ≡ g c = hears i c in
        let knocked : g c2 ≡ g c = knocks c1 ∙ unread in
        elim (Input-cases i) [
          | inr (x, e) ↦ elim (Outcome-cases (send_keep_alive os c1).0) [
            | inl (s, back) ↦ rw (more, e, back, server_rounds) (ih (attempts + 1) buf c2 ∙ knocked)
            | inr (inl out) ↦ rw (more, e, out, server_rounds) knocked
            | inr (inr dry) ↦ rw (more, e, dry, server_rounds) knocked
          ]
          | inl (b, e) ↦
              let next = overwrite b buf in
              elim (Bool-cases (starts_with Msg.open_request next)) [
                | inr not_open ↦
                    rw (more, e, not_open, server_rounds) (ih attempts next c1 ∙ unread)
                | inl opens ↦ elim (Option-cases (confirm_rounds os u m f 0 next t1)) [
                  | inl dry ↦ rw (more, e, opens, dry, server_rounds) refl
                  | inr ((confirmed, buf', t2), ends) ↦
                      let c3 : St = record c { trace = t2 } in
                      let done : g c3 ≡ g c = confirms c1 f next _ ends ∙ unread in
                      elim (Bool-cases confirmed) [
                        | inl answered ↦ rw (more, e, opens, ends, answered, server_rounds) done
                        | inr not_yet ↦
                            rw (more, e, opens, ends, not_yet, server_rounds)
                              (ih attempts buf' c3 ∙ done)
                      ]
                ]
              ]
        ]
  ]
