-- ===== src/Transport/Tests.antt =====
-- The theorems on udp_transport at concrete inputs.
use quic_web_rtc_like.Base.{
  zero, suc, arith, ℕ, ◌≤◌, ◌≡◌, ◌⊎◌, refl, true, false, none, some, List, [], ◌∷◌, Bytes, ℤ, pos,
  minus_one, length, take,
}
use quic_web_rtc_like.Sys.{
  Os, Trace, Call, Ret, ret, fail, other, Addr, got, no_input, again, send_to, socket, bind, ready,
}
use quic_web_rtc_like.Transport.State.{Data, direct_ops, Transport, Config}
use quic_web_rtc_like.Transport.Api.{
  init_udp, rejects, obtain_fd, check_socket, bind_socket, active, set_tcp_fd, close_transport,
}
use quic_web_rtc_like.Transport.Lifecycle.{
  opened, closed, WellFormed, init_udp-error, set_tcp_fd-WellFormed, close_transport_lem,
}
use quic_web_rtc_like.Transport.Accounts.{
  Command, init, observe, close, Run, steps, IsBalanced, steps-IsBalanced,
}

abbrev peer : Addr
peer = record { sin_family = 2; sin_port = 5000; sin_addr = 1 }

-- The answer of `bind`; all else succeeds, `socket` with descriptor 7, `send_to` with two bytes.
abbrev answering : Ret → Call → Ret
answering b (bind fd a) = b
answering b socket = ret 7
answering b (send_to fd bytes a) = ret 2
answering b _ = ret 0

abbrev system : Ret → Os
system b = record {
  answer = λ t c. answering b c;
  input = λ t fd n. no_input again;
  message = λ t fd n. (got (take n (5 ∷ [])), false);
  sock_type = λ t fd. some 2;
  sock_name = λ t fd. some peer;
  select = λ t fds tv. ready (pos 7 ∷ []);
  clock = λ t. none;
  fd_setsize = 1024;
  af_inet = 2;
  sock_dgram = 2;
  garbage = λ t. [];
}

abbrev works : Os
works = system (ret 0)

abbrev unbound : Os
unbound = system (fail (other 98))

abbrev fresh : Transport
fresh = record {
  ops = none;
  storage = some (record { fd = minus_one; owns_fd = false; peer = peer });
  tcp_fd = minus_one;
}

abbrev settings : Config
settings = record {
  fd = minus_one;
  already_bound = false;
  take_ownership = false;
  reuse_address = true;
  tcp_fd = pos 9;
  local = peer;
  peer = peer;
}

abbrev storage : Data
storage = record { fd = pos 7; owns_fd = true; peer = peer }

abbrev running : Transport
running = record { ops = some direct_ops; storage = some storage; tcp_fd = pos 9 }

init_udp-error_example :
    let (_, transport', t') = init_udp unbound (some fresh) (some settings) [] in
    (transport' ≡ some fresh)
    × ((opened t' ≡ []) × (closed t' ≡ []) ⊎ (opened t' ≡ pos 7 ∷ []) × (closed t' ≡ pos 7 ∷ []))
unfolding init_udp rejects obtain_fd check_socket bind_socket
init_udp-error_example = init_udp-error unbound (some fresh) (some settings) [] refl

close_transport_lem_example :
    let (_, transport', t') = close_transport works (some running) [] in
    (closed t' ≡ pos 7 ∷ [])
    × (opened t' ≡ [])
    × (active transport' ≡ none)
    × WellFormed works transport'
    × ((close_transport works transport' t').1 ≡ transport')
    × ((close_transport works transport' t').2 ≡ t')
close_transport_lem_example = close_transport_lem works (some running) [] (refl, refl)

abbrev begin : Run
begin = record { transport = some fresh; history = []; taken = [] }

abbrev commands : List Command
commands = init (some settings) ∷ observe (pos 12) ∷ close ∷ close ∷ init none ∷ []

steps-IsBalanced_example :
    WellFormed works (steps works commands begin).transport
    × IsBalanced (steps works commands begin)
steps-IsBalanced_example = steps-IsBalanced works commands begin tt λ fd. refl

set_tcp_fd-WellFormed_example : WellFormed works (set_tcp_fd works (some running) (pos 2000)).1
set_tcp_fd-WellFormed_example = set_tcp_fd-WellFormed works (some running) (pos 2000) (refl, refl)

length_cut :
    (t : Trace) (fd : ℤ) (n : ℕ) (b : Bytes) → works.message t fd n ≡ (got b, false) → length b ≤ n
length_cut t fd zero b h = grind arith
length_cut t fd (suc n) b h = grind arith
