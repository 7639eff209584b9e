-- ===== src/Transport/Lifecycle.antt =====
-- What a transport owns, and that no descriptor is lost or closed twice.
use quic_web_rtc_like.Base.{
  ◌≡◌, ◌⊎◌, false, Option, none, some, List, [], ◌∷◌, ◌++◌, ℤ, pos, minus_one, eqb_ℤ, arith,
  if◌then◌else◌,
}
use quic_web_rtc_like.Sys.{Os, Trace, ret, fail, did, socket, close}
use quic_web_rtc_like.Transport.State.{ok, error, Transport, Config}
use quic_web_rtc_like.Transport.Direct.{out_of_set, bad_fd}
use quic_web_rtc_like.Transport.Api.{
  rejects, obtain_fd, check_socket, bind_socket, abandon, init_udp, active, set_tcp_fd,
  close_transport,
}

-- The descriptors that were made, and those that were closed, newest first.
abbrev pub opened : Trace → List ℤ
opened [] = []
opened (did socket (ret n) ∷ t) = pos n ∷ opened t
opened (_ ∷ t) = opened t

abbrev pub closed : Trace → List ℤ
closed [] = []
closed (did (close fd) r ∷ t) = fd ∷ closed t
closed (_ ∷ t) = closed t

-- An active transport has storage, a descriptor that `select` can watch, and a TCP descriptor that
-- is one or -1.
abbrev pub WellFormed : Os → Option Transport → Type 0
WellFormed os none = Unit
WellFormed os (some tr) = elim tr.ops [
  | none ↦ Unit
  | some _ ↦ elim tr.storage [
    | none ↦ ⊥
    | some udp ↦ (out_of_set os udp.fd ≡ false) × (bad_fd os tr.tcp_fd ≡ false)
  ]
]

check_socket-trace :
    (os : Os) (cfg : Config) (fd : ℤ) (t : Trace)
    → (opened (check_socket os cfg fd t).1 ≡ opened t)
      × (closed (check_socket os cfg fd t).1 ≡ closed t)
unfolding check_socket
check_socket-trace os cfg fd t = ground arith

bind_socket-trace :
    (os : Os) (cfg : Config) (fd : ℤ) (t : Trace)
    → (opened (bind_socket os cfg fd t).1 ≡ opened t)
      × (closed (bind_socket os cfg fd t).1 ≡ closed t)
unfolding bind_socket
bind_socket-trace os cfg fd t = ground arith

-- The socket that `socket()` makes at this point of the history, if it makes one.
abbrev pub made : Os → Trace → List ℤ
made os t = elim (os.answer t socket) [ ret n ↦ pos n ∷ [] | fail e ↦ [] ]

-- A failed initialisation leaves the transport and its storage as they were and loses no
-- descriptor: either it made none and closed none, or it closed the one that it made.
pub init_udp-error :
    (os : Os) (transport : Option Transport) (config : Option Config) (t : Trace)
    → (init_udp os transport config t).0 ≡ error
    → let (_, transport', t') = init_udp os transport config t in
      (transport' ≡ transport)
      × ((opened t' ≡ opened t) × (closed t' ≡ closed t)
          ⊎ (opened t' ≡ made os t ++ opened t) × (closed t' ≡ made os t ++ closed t))
unfolding init_udp obtain_fd abandon
init_udp-error os transport config t h = grind (arith, check_socket-trace, bind_socket-trace)

-- What the transport owns: the descriptor of an active one, if it is its own.
abbrev pub owned : Option Transport → List ℤ
owned transport = elim (active transport) [
  | none ↦ []
  | some udp ↦ if udp.owns_fd then udp.fd ∷ [] else []
]

-- A successful initialisation was given an inactive transport, makes it active and well formed,
-- closes nothing, and leaves it owning the socket that it made, or else the caller's descriptor
-- exactly if it was told to take it.
pub init_udp-ok :
    (os : Os) (transport : Option Transport) (cfg : Config) (t : Trace)
    → (init_udp os transport (some cfg) t).0 ≡ ok
    → let (_, transport', t') = init_udp os transport (some cfg) t in
      let create = eqb_ℤ cfg.fd minus_one in
      WellFormed os transport'
      × (closed t' ≡ closed t)
      × (opened t' ≡ (if create then made os t else []) ++ opened t)
      × (active transport ≡ none)
      × (owned transport'
          ≡ (if create then made os t else (if cfg.take_ownership then cfg.fd ∷ [] else [])))
unfolding init_udp obtain_fd rejects
init_udp-ok os transport cfg t h =
    let fd = (obtain_fd os cfg t).0 in
    let t1 = (obtain_fd os cfg t).1 in
    let t2 = (check_socket os cfg fd t1).1 in
    ground (arith, check_socket-trace os cfg fd t1, bind_socket-trace os cfg fd t2)

-- The TCP descriptor can be replaced without losing the invariant, whatever is passed.
pub set_tcp_fd-WellFormed :
    (os : Os) (transport : Option Transport) (fd : ℤ)
    → WellFormed os transport
    → WellFormed os (set_tcp_fd os transport fd).1
unfolding set_tcp_fd
set_tcp_fd-WellFormed os transport fd w = ground arith

-- Closing a well-formed transport closes exactly what it owns, once, and makes no descriptor;
-- after it the transport is inactive and well formed, and closing it again does nothing.
pub close_transport_lem :
    (os : Os) (transport : Option Transport) (t : Trace)
    → WellFormed os transport
    → let (_, transport', t') = close_transport os transport t in
      (closed t' ≡ owned transport ++ closed t)
      × (opened t' ≡ opened t)
      × (active transport' ≡ none)
      × WellFormed os transport'
      × ((close_transport os transport' t').1 ≡ transport')
      × ((close_transport os transport' t').2 ≡ t')
unfolding close_transport
close_transport_lem os transport t w = ground arith
