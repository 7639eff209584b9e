-- ===== src/Chownat/RunTests.antt =====
-- The theorems on whole runs of chownat at concrete inputs.
use quic_web_rtc_like.Base.{
  ℕ, ◌+◌, ◌*◌, ◌/◌, ◌%◌, ◌≤◌, ◌≡◌, refl, true, false, some, List, [], ◌∷◌, arith, inl, inr,
}
use quic_web_rtc_like.Sys.{Os, Trace, Event, returned, got, waited}
use quic_web_rtc_like.Conn.{ok}
use quic_web_rtc_like.Conn.Phase.{Phase, go, stop}
use quic_web_rtc_like.Conn.Tcp.{tcp_bind}
use quic_web_rtc_like.Chownat.Msg
use quic_web_rtc_like.Chownat.Setup.{connect}
use quic_web_rtc_like.Chownat.Closing.{IsLive}
use quic_web_rtc_like.Chownat.Punch.{hole_punching, client_rounds, server_rounds}
use quic_web_rtc_like.Chownat.Confirm.{confirm_rounds}
use quic_web_rtc_like.Chownat.Heard.{Heard, HearsFrom}
use quic_web_rtc_like.Chownat.BothWays.{opened_both_ways}
use quic_web_rtc_like.Conn.Wait.{microseconds}
use quic_web_rtc_like.Conn.Session.{udp_connection, open_session, open_client}
use quic_web_rtc_like.Chownat.State.{Data, Config, St}
use quic_web_rtc_like.Chownat.Backend.{chownat_api}
use quic_web_rtc_like.Chownat.Channel.{Act, ShowsAll, Run, waiting, tunnel_refines_channel}
use quic_web_rtc_like.Chownat.Quiet.{Quiet, micros}
use quic_web_rtc_like.Chownat.Silence.{silent_peer_ends}
use quic_web_rtc_like.Chownat.Fixtures.{
  silent, session, settings, conn_in, data_at, live, ignore, ignores, opened, whole,
}
use quic_web_rtc_like.Chownat.Tests.{arrived, arriving}

tunnel_refines_channel_example :
    (acts : List Act) × ShowsAll ignore arriving acts × Run acts (waiting arrived)
tunnel_refines_channel_example =
    tunnel_refines_channel ignore ignores opened opened (live (data_at false 0))
      (live (data_at false 0)) (refl, refl) (refl, refl) arriving

-- The time that the waits of a history took.
abbrev elapsed : Trace → ℕ
elapsed [] = 0
elapsed (waited fds (some tv) r ∷ t) = microseconds tv + elapsed t
elapsed (_ ∷ t) = elapsed t

-- Time passes in the waits only, and nothing arrives.
abbrev quiet : Os
quiet = record silent {
  answer = λ t c. whole c;
  clock = λ t. some (elapsed t / 1_000_000, elapsed t % 1_000_000 * 1000);
}

micros-quiet : (t : Trace) → micros quiet t ≡ elapsed t
micros-quiet t = omega arith

elapsed-grows : (e : Event) (t : Trace) → elapsed t ≤ elapsed (e ∷ t)
elapsed-grows e t = ground arith

quiet-Quiet : Quiet quiet
quiet-Quiet = record {
  times_out = λ t fds tv. refl;
  sends = λ t fd b a. refl;
  clock = λ t. (_, refl);
  forward = λ t e. rw (micros-quiet t, micros-quiet (e ∷ t)) (elapsed-grows e t);
  waits = λ t fds tv. omega arith;
}

-- A client's session over it: the hole is punched at the first answer.
abbrev patient : Os
patient = record quiet { input = λ t fd n. got Msg.confirm }

patient-Quiet : Quiet patient
patient-Quiet = record {
  times_out = λ t fds tv. refl;
  sends = λ t fd b a. refl;
  clock = λ t. (_, refl);
  forward = quiet-Quiet.forward;
  waits = quiet-Quiet.waits;
}

abbrev reached : Phase Data Config St → St
reached (go c) = c
reached (stop o c) = c

abbrev entered : St
entered = reached (open_session patient (chownat_api patient ignore 20) b'c' opened)

opens : open_session patient (chownat_api patient ignore 20) b'c' opened ≡ go entered
unfolding open_session open_client hole_punching tcp_bind client_rounds connect
opens = refl

entered-IsLive : IsLive entered (data_at false 0)
unfolding open_session open_client hole_punching tcp_bind client_rounds connect
entered-IsLive = record {
  session = session;
  has_session = refl;
  ctrl = record { mode = b'c'; init = true };
  has_ctrl = refl;
  inited = refl;
  config = settings;
  has_config = refl;
  has_data = refl;
}

silent_peer_ends_example :
    let (o, c') = udp_connection patient (chownat_api patient ignore 20) 20 opened in
    (o ≡ returned ok) × (c'.data_ptr ≡ some (data_at true 0))
unfolding entered-IsLive
silent_peer_ends_example =
    silent_peer_ends patient ignore 20 patient-Quiet 10 20 opened entered session
      (record { mode = b'c'; init = true }) (data_at false 0) entered-IsLive refl refl refl opens
      refl refl (omega arith)

-- A client whose every read is the confirmation, and a server that reads a request and then that.
abbrev confirming : Os
confirming = record silent { input = λ t fd n. got Msg.confirm }

abbrev requested : Os
requested = record silent {
  input = λ t fd n. elim t [ [] ↦ got Msg.open_request | e ∷ r ↦ got Msg.confirm ];
}

abbrev server_conn : St
server_conn = conn_in b's' (data_at false 0)

client_hears :
    HearsFrom
      (hole_punching requested 3 server_conn).1.trace
      (hole_punching confirming 3 opened).1.trace
unfolding hole_punching client_rounds server_rounds confirm_rounds
client_hears = (tt, (Msg.confirm, inl refl, refl))

server_hears :
    HearsFrom
      (hole_punching confirming 3 opened).1.trace
      (hole_punching requested 3 server_conn).1.trace
unfolding hole_punching client_rounds server_rounds confirm_rounds
server_hears = ((tt, (Msg.open_request, inr (inl refl), refl)), (Msg.confirm, inl refl, refl))

opened_both_ways_example :
    let (o1, c') = hole_punching confirming 3 opened in
    let (o2, s') = hole_punching requested 3 server_conn in
    (o1 ≡ returned ok → Heard Msg.confirm c'.trace × Heard Msg.open_request s'.trace)
    × (o2 ≡ returned ok → Heard Msg.confirm s'.trace × Heard Msg.confirm c'.trace)
opened_both_ways_example =
    opened_both_ways confirming requested 3 3 opened server_conn
      (record { mode = b'c'; init = true }) (record { mode = b's'; init = true }) refl refl refl
      refl tt tt client_hears server_hears
