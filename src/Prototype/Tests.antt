-- ===== src/Prototype/Tests.antt =====
-- The theorems on the first programs at concrete inputs.
use quic_web_rtc_like.Base.{ℕ, ◌≡◌, refl, [], ◌∷◌, pos, arith}
use quic_web_rtc_like.Sys.{Os, send, got, perform}
use quic_web_rtc_like.Chownat.Msg
use quic_web_rtc_like.Chownat.Fixtures.{peer, silent, system, payload}
use quic_web_rtc_like.Prototype.{
  Ends, State, Ran, goes, exits, out_of_fuel, says, next_id, at_start,
}
use quic_web_rtc_like.Prototype.Client
use quic_web_rtc_like.Prototype.Server
use quic_web_rtc_like.Prototype.Packets.{packet_255_lost}
use quic_web_rtc_like.Prototype.Bounds.{Keeps, client_ready-Keeps}
use quic_web_rtc_like.Prototype.ServerBounds.{server_ready-Keeps}
use quic_web_rtc_like.Prototype.Ending.{Ended, keep_alive_ends_session}

abbrev ends : Ends
ends = record { chownat = pos 3; dst = peer; local_addr = peer }

abbrev running : State
running = record (at_start 8 []) { sock = pos 5; read_fds = pos 5 ∷ []; id = 2; expected = 254 }

abbrev after_254 : State
after_254 = record running { expected = 0; trace = (perform silent (send (pos 5) payload) []).1 }

takes : Client.on_packet silent ends (Msg.packet 254 payload) running ≡ goes after_254
unfolding Client.on_packet Client.next_expected
takes = refl

packet_255_lost_example :
    (Client.on_packet silent ends (Msg.packet 255 payload) after_254
      ≡ goes (says silent ends (Msg.resend 0) after_254))
    × ((os' : Os) (e' : Ends) (fuel : ℕ) (v : State)
        → v.id ≡ next_id 255
        → Server.dispatch os' e' fuel (Msg.resend 0) v ≡ goes v)
packet_255_lost_example = packet_255_lost silent ends payload payload running after_254 refl takes

keep_alive_ends_session_example : Ended (Server.on_udp (system (got [])) ends 1 running)
keep_alive_ends_session_example =
    keep_alive_ends_session (system (got [])) ends 0 1 running (λ t fds tv n. refl) (omega arith)
      refl

-- The packet that is expected arrives, where the local end is silent.
abbrev arriving : Os
arriving = system (got (Msg.packet 254 payload))

abbrev watching : State
watching = record running { read_fds = pos 3 ∷ [] }

client_ready-Keeps_example : Keeps 255 (Client.on_ready arriving ends 9 watching)
client_ready-Keeps_example = client_ready-Keeps arriving ends 9 watching (omega arith, omega arith)

-- The round goes on, with the next number expected, which has wrapped.
abbrev Goes : ℕ → Ran → Type 0
Goes n (goes s) = s.expected ≡ n
Goes n (exits t) = ⊥
Goes n (out_of_fuel t) = ⊥

client-Goes : Goes 0 (Client.on_ready arriving ends 9 watching)
unfolding Client.on_ready Client.on_udp Client.dispatch Client.on_packet Client.next_expected
client-Goes = refl

abbrev served : State
served = record running { expected = 254 }

server_ready-Keeps_example : Keeps 256 (Server.on_ready arriving ends 9 (pos 3 ∷ []) served)
server_ready-Keeps_example =
    server_ready-Keeps arriving ends 9 (pos 3 ∷ []) served (omega arith, omega arith)

server-Goes : Goes 255 (Server.on_ready arriving ends 9 (pos 3 ∷ []) served)
unfolding Server.on_ready Server.on_udp Server.dispatch Server.on_packet next_id
server-Goes = refl
