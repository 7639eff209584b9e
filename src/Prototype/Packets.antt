-- ===== src/Prototype/Packets.antt =====
-- What the first programs do with numbered packets.
use quic_web_rtc_like.Base.{
  ℕ, zero, suc, ◌+◌, ◌-◌, ◌%◌, ◌<◌, ◌≡◌, refl, sym, ap, ◌∙◌, List, [], ◌∷◌, ◌++◌, Bytes, arith,
  length, take-append, drop,
}
use quic_web_rtc_like.Sys.{Os, Trace}
use mathlib.Core.List.{append_assoc}
use quic_web_rtc_like.Chownat.Msg
use quic_web_rtc_like.Chownat.Retransmit.{datagrams}
use quic_web_rtc_like.Prototype.{
  Ends, State, goes, says, forward, next_id, resent, resend_rounds, on_resend,
}
use quic_web_rtc_like.Prototype.Client.{on_packet, next_expected}
use quic_web_rtc_like.Prototype.Server.{dispatch}

-- What is forwarded as a packet is what a retransmission of that number sends.
pub forward-resent :
    (os : Os) (e : Ends) (bytes : Bytes) (s : State)
    → resent (forward os e bytes s) s.id ≡ Msg.packet s.id bytes
unfolding forward
forward-resent os e bytes s =
    ground (arith, take-append bytes (drop (length bytes) (s.buffer s.id)))

-- The client takes packet 254, and then expects packet 0.
takes_254 :
    (os : Os) (e : Ends) (p : Bytes) (s s1 : State)
    → s.expected ≡ 254
    → on_packet os e (Msg.packet 254 p) s ≡ goes s1
    → s1.expected ≡ 0
unfolding on_packet next_expected
takes_254 os e p s s1 at accepted = ground arith

refuses_255 :
    (os : Os) (e : Ends) (q : Bytes) (s : State)
    → s.expected ≡ 0
    → on_packet os e (Msg.packet 255 q) s ≡ goes (says os e (Msg.resend 0) s)
unfolding on_packet
refuses_255 os e q s at = ground arith

-- A server that has sent packet 255 answers a request for packet 0 with nothing.
nothing_again :
    (os : Os) (e : Ends) (fuel : ℕ) (v : State)
    → v.id ≡ next_id 255
    → dispatch os e fuel (Msg.resend 0) v ≡ goes v
unfolding dispatch next_id resend_rounds
nothing_again os e fuel v wrapped = ground arith

-- A first client that has taken packet 254 refuses packet 255 and asks for packet 0; and a server
-- whose next number is the one after 255 answers that request by sending nothing and changing
-- nothing.
pub packet_255_lost :
    (os : Os) (e : Ends) (p q : Bytes) (s s1 : State)
    → s.expected ≡ 254
    → on_packet os e (Msg.packet 254 p) s ≡ goes s1
    → (on_packet os e (Msg.packet 255 q) s1 ≡ goes (says os e (Msg.resend 0) s1))
      × ((os' : Os) (e' : Ends) (fuel : ℕ) (v : State)
          → v.id ≡ next_id 255
          → dispatch os' e' fuel (Msg.resend 0) v ≡ goes v)
packet_255_lost os e p q s s1 at accepted =
    (refuses_255 os e q s1 (takes_254 os e p s s1 at accepted), nothing_again)

-- The packets that are kept, `n` of them from `i` on, newest first.
abbrev pub resents : State → ℕ → ℕ → List Bytes
resents s i zero = []
resents s i (suc n) = resents s (i + 1) n ++ resent s i ∷ []

resent-trace : (s : State) (t : Trace) (i : ℕ) → resent (record s { trace = t }) i ≡ resent s i
resent-trace s t i = refl

resents-trace :
    (s : State) (t : Trace) (i n : ℕ) → resents (record s { trace = t }) i n ≡ resents s i n
resents-trace s t i zero = refl
resents-trace s t i (suc n) = ap (λ l. l ++ resent s i ∷ []) (resents-trace s t (i + 1) n)

resend_rounds-sent :
    (os : Os) (e : Ends) (n i : ℕ) (s : State)
    → i + n < 256
    → datagrams (resend_rounds os e n i s).trace ≡ resents s i n ++ datagrams s.trace
unfolding resend_rounds
resend_rounds-sent os e zero i s h = refl
resend_rounds-sent os e (suc n) i s h =
    let next : (i + 1) % 256 ≡ i + 1 = omega arith in
    let said = says os e (resent s i) s in
    let step : resend_rounds os e (suc n) i s ≡ resend_rounds os e n (i + 1) said =
      ap (λ j. resend_rounds os e n j said) next in
    ap (λ (x : State). datagrams x.trace) step
    ∙ (resend_rounds-sent os e n (i + 1) said (omega arith)
        ∙ (ap (λ l. l ++ datagrams said.trace) (resents-trace s said.trace (i + 1) n)
            ∙ sym (append_assoc (resents s (i + 1) n) _ _)))

-- A server answers a request for a packet before its own number with the packets from that one on,
-- whole, each once and in order, and with nothing else.
pub request_answered :
    (os : Os) (e : Ends) (fuel number : ℕ) (s : State)
    → s.id < 256
    → number < s.id
    → (x : State) × (dispatch os e fuel (Msg.resend number) s ≡ goes x)
      × (datagrams x.trace ≡ resents s number (s.id - number) ++ datagrams s.trace)
unfolding dispatch
request_answered os e fuel number s low behind =
    let same : number % 256 % 256 ≡ number = omega arith in
    (
      on_resend os e number s,
      ap (λ m. goes (on_resend os e m s)) same,
      resend_rounds-sent os e (s.id - number) number s (omega arith),
    )
