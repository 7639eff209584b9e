-- ===== src/Transport/Accounts.antt =====
-- Every sequence of calls of the transport's life cycle, and where its descriptors are.
use quic_web_rtc_like.Base.{
  ℕ, ◌+◌, ◌≡◌, ◌⊎◌, refl, Option, none, some, List, [], ◌∷◌, ◌++◌, ℤ, eqb_ℤ, minus_one, arith,
  if◌then◌else◌, ap, Bool-cases, Option-cases, inl, inr,
}
use quic_web_rtc_like.Sys.{Os, Trace}
use quic_web_rtc_like.Transport.State.{Status, ok, error, Transport, Config}
use quic_web_rtc_like.Transport.Api.{init_udp, set_tcp_fd, close_transport, active}
use quic_web_rtc_like.Transport.Lifecycle.{
  opened, closed, owned, made, WellFormed, init_udp-error, init_udp-ok, set_tcp_fd-WellFormed,
  close_transport_lem,
}

pub data Command : Type 0 where
  init : Option Config → Command
  observe : ℤ → Command
  close : Command

-- The transport, the history, and the descriptors that were handed to it to keep.
pub record Run : Type 0 where
  pub transport : Option Transport
  pub history : Trace
  pub taken : List ℤ

-- A descriptor is handed over by a successful `init_udp` that is told to take it.
abbrev pub hand_over : Status → Option Config → List ℤ → List ℤ
hand_over error config taken = taken
hand_over ok none taken = taken
hand_over ok (some cfg) taken =
    if eqb_ℤ cfg.fd minus_one then taken else (if cfg.take_ownership then cfg.fd ∷ taken else taken)

unfoldable pub step : Os → Command → Run → Run
step os (init config) r =
    let (s, transport, t) = init_udp os r.transport config r.history in
    record { transport = transport; history = t; taken = hand_over s config r.taken }
step os (observe fd) r = record r { transport = (set_tcp_fd os r.transport fd).1 }
step os close r =
    let (_, transport, t) = close_transport os r.transport r.history in
    record r { transport = transport; history = t }

unfoldable pub steps : Os → List Command → Run → Run
unfolding step
steps os [] r = r
steps os (c ∷ cs) r = steps os cs (step os c r)

-- How often a descriptor stands in a list.
abbrev pub count : ℤ → List ℤ → ℕ
count fd [] = 0
count fd (x ∷ xs) = (if eqb_ℤ fd x then 1 else 0) + count fd xs

pub count-append : (fd : ℤ) (xs ys : List ℤ) → count fd (xs ++ ys) ≡ count fd xs + count fd ys
count-append fd [] ys = omega arith
count-append fd (x ∷ xs) ys = omega (arith, count-append fd xs ys)

-- What was made or handed over has been closed, or is what the transport owns now.
abbrev pub IsBalanced : Run → Type 0
IsBalanced r =
    (fd : ℤ)
    → count fd (opened r.history) + count fd r.taken
      ≡ count fd (owned r.transport) + count fd (closed r.history)

owned-inactive : (transport : Option Transport) → active transport ≡ none → owned transport ≡ []
owned-inactive transport h = rw (h, owned)

owned-set_tcp_fd :
    (os : Os) (transport : Option Transport) (fd : ℤ)
    → owned (set_tcp_fd os transport fd).1 ≡ owned transport
unfolding set_tcp_fd
owned-set_tcp_fd os transport fd = ground arith

Status-cases : (s : Status) → (s ≡ ok) ⊎ (s ≡ error)
Status-cases ok = inl refl
Status-cases error = inr refl

init_udp-null :
    (os : Os) (transport : Option Transport) (t : Trace)
    → init_udp os transport none t ≡ (error, transport, t)
unfolding init_udp
init_udp-null os transport t = ground arith

-- A failed `init_udp` leaves the balance as it was.
init-error_balance :
    (os : Os) (config : Option Config) (r : Run)
    → (init_udp os r.transport config r.history).0 ≡ error
    → IsBalanced r
    → IsBalanced (step os (init config) r)
unfolding step
init-error_balance os config r failed b fd =
    let (same, grown) = init_udp-error os r.transport config r.history failed in
    let more = count-append fd (made os r.history) in
    elim grown [
      | inl (o, c) ↦ rw (failed, same, o, c) (b fd)
      | inr (o, c) ↦
          rw (failed, same, o, c)
            (omega (arith, b fd, more (opened r.history), more (closed r.history)))
    ]

-- A successful one adds what it made, or what it was given to keep, to what the transport owns.
init-ok_balance :
    (os : Os) (cfg : Config) (r : Run)
    → (init_udp os r.transport (some cfg) r.history).0 ≡ ok
    → IsBalanced r
    → IsBalanced (step os (init (some cfg)) r)
unfolding step
init-ok_balance os cfg r done b fd =
    let (_, c, o, idle, now) = init_udp-ok os r.transport cfg r.history done in
    let old = ap (count fd) (owned-inactive r.transport idle) in
    let more = count-append fd (made os r.history) (opened r.history) in
    elim (Bool-cases (eqb_ℤ cfg.fd minus_one)) [
      | inl create ↦ rw (done, c, o, now) (rw create (omega (arith, b fd, old, more)))
      | inr given ↦ elim (Bool-cases cfg.take_ownership) [
        | inl take ↦ rw (done, c, o, now) (rw (given, take) (omega (arith, b fd, old)))
        | inr borrow ↦ rw (done, c, o, now) (rw (given, borrow) (omega (arith, b fd, old)))
      ]
    ]

close-balance :
    (os : Os) (r : Run) → WellFormed os r.transport → IsBalanced r → IsBalanced (step os close r)
unfolding step
close-balance os r w b fd =
    let (c, o, idle, _, _, _) = close_transport_lem os r.transport r.history w in
    let gone = owned-inactive (close_transport os r.transport r.history).1 idle in
    rw (c, o, gone) (omega (arith, b fd, count-append fd (owned r.transport) (closed r.history)))

init-WellFormed :
    (os : Os) (config : Option Config) (transport : Option Transport) (t : Trace)
    → WellFormed os transport
    → WellFormed os (init_udp os transport config t).1
init-WellFormed os config transport t w = elim (Status-cases (init_udp os transport config t).0) [
  | inl done ↦ elim (Option-cases config) [
    | inl null ↦ rw (null, init_udp-null) w
    | inr (cfg, e) ↦ rw e (init_udp-ok os transport cfg t (rw e at done)).0
  ]
  | inr failed ↦ rw (init_udp-error os transport config t failed).0 w
]

step_lem :
    (os : Os) (c : Command) (r : Run)
    → WellFormed os r.transport
    → IsBalanced r
    → WellFormed os (step os c r).transport × IsBalanced (step os c r)
unfolding step
step_lem os (init config) r w b = (
  init-WellFormed os config r.transport r.history w,
  elim (Status-cases (init_udp os r.transport config r.history).0) [
    | inr failed ↦ init-error_balance os config r failed b
    | inl done ↦ elim (Option-cases config) [
      | inl null ↦ ground (arith, init_udp-null os r.transport r.history)
      | inr (cfg, e) ↦ rw e (init-ok_balance os cfg r (rw e at done) b)
    ]
  ],
)
step_lem os (observe fd) r w b =
    (set_tcp_fd-WellFormed os r.transport fd w, λ x. rw (owned-set_tcp_fd os r.transport fd) (b x))
step_lem os close r w b =
    ((close_transport_lem os r.transport r.history w).3, close-balance os r w b)

-- Through any sequence of initialisations, changes of the TCP descriptor and closes, each
-- descriptor was made or handed over as often as it was closed, and once more if the transport
-- owns it, and the transport stays well formed, if both held before. So none is lost and none is
-- closed twice.
pub steps-IsBalanced :
    (os : Os) (cs : List Command) (r : Run)
    → WellFormed os r.transport
    → IsBalanced r
    → WellFormed os (steps os cs r).transport × IsBalanced (steps os cs r)
unfolding steps
steps-IsBalanced os [] r w b = (w, b)
steps-IsBalanced os (c ∷ cs) r w b =
    let (w', b') = step_lem os c r w b in steps-IsBalanced os cs (step os c r) w' b'
