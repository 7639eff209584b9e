-- ===== src/Conn/Phase.antt =====
-- The control flow of `udp_connection`: a part of the loop's body either leaves the function, with
-- its result, or goes on with a value.
use quic_web_rtc_like.Sys.{Outcome, returned, exited, out_of_fuel}
use quic_web_rtc_like.Conn.{Status, Conn}

pub data Phase (D C A : Type 0) : Type 0 where
  stop : Outcome Status → Conn D C → Phase D C A
  go : A → Phase D C A

infixl 5 ◌>>=◌
abbrev pub ◌>>=◌ : {D C A B : Type 0} → Phase D C A → (A → Phase D C B) → Phase D C B
stop o c >>= k = stop o c
go a >>= k = k a

-- The status of a call that may also end the process.
abbrev pub settle :
    {D C A : Type 0} → Outcome Status × Conn D C → (Status → Conn D C → Phase D C A) → Phase D C A
settle (returned s, c) k = k s c
settle (exited, c) k = stop exited c
settle (out_of_fuel, c) k = stop out_of_fuel c

-- The end of the function: a phase that leaves it gives its result.
abbrev pub leave :
    {D C A : Type 0} → Phase D C A → (A → Outcome Status × Conn D C) → Outcome Status × Conn D C
leave (stop o c) k = (o, c)
leave (go a) k = k a
