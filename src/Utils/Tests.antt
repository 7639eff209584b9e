-- ===== src/Utils/Tests.antt =====
-- The theorems on the command line at concrete inputs.
use quic_web_rtc_like.Base.{ℕ, ◌+◌, ◌*◌, ◌-◌, ◌≡◌, refl, true, [], ◌∷◌, Bytes, ℤ, pos, List}
use quic_web_rtc_like.Sys.{returned}
use quic_web_rtc_like.Utils.{
  usage, count_flags, verbose, positional, remote_port_of, debug_flag, verbose_flag, server_flag,
}
use quic_web_rtc_like.Utils.Line.{Line, server, typed, meaning, usage-typed}
use quic_web_rtc_like.Utils.Inverse.{usage-accepted}

-- The number that some digits write.
abbrev digits : ℕ → Bytes → ℕ
digits n [] = n
digits n (d ∷ ds) = digits (n * 10 + (d - b'0')) ds

abbrev decimal : Bytes → ℤ
decimal b = pos (digits 0 b)

-- -d -d -s 80 x 53
abbrev server_line : Line
server_line = record {
  debugs = 2;
  is_verbose = true;
  mode = server;
  local_port = b'8' ∷ b'0' ∷ [];
  host = b'x' ∷ [];
  rest = (b'5' ∷ b'3' ∷ []) ∷ [];
}

usage-typed_example :
    usage decimal true (typed true server_line) ≡ returned (meaning decimal true server_line)
usage-typed_example = usage-typed decimal true server_line

abbrev arguments : List Bytes
arguments =
    debug_flag
    ∷ debug_flag
    ∷ verbose_flag
    ∷ server_flag
    ∷ (b'8' ∷ b'0' ∷ [])
    ∷ (b'x' ∷ [])
    ∷ (b'5' ∷ b'3' ∷ [])
    ∷ []

accepts : usage decimal true arguments ≡ returned (meaning decimal true server_line)
unfolding usage count_flags verbose positional remote_port_of
accepts = refl

usage-accepted_example :
    (l : Line) × (arguments ≡ typed true l)
    × (meaning decimal true server_line ≡ meaning decimal true l)
usage-accepted_example =
    usage-accepted decimal true arguments (meaning decimal true server_line) accepts
