-- ===== src/Utils.antt =====
-- source/common/utils/src/utils.c: usage, the reading of a command line, and msleep.
pub mod Line
pub mod Inverse
mod Tests
use quic_web_rtc_like.Base.{
  ℕ, ◌+◌, ◌*◌, ◌/◌, ◌%◌, Bool, true, false, ◌||◌, List, [], ◌∷◌, Bytes, ℤ, pos, length, ltb,
  starts_with, ◌&&◌, if◌then◌else◌, Option, some, none,
}
use quic_web_rtc_like.Sys.{Outcome, returned, exited}

-- What `usage` writes through its pointers; there is no local port where `localport` is NULL.
pub record Arguments : Type 0 where
  pub debug : ℕ
  pub mode : Bytes
  pub local_port : Option ℤ
  pub remote_addr : Bytes
  pub remote_port : ℤ

abbrev pub debug_flag : Bytes
debug_flag = b'-' ∷ b'd' ∷ []

abbrev pub verbose_flag : Bytes
verbose_flag = b'-' ∷ b'd' ∷ b'd' ∷ []

abbrev pub client_flag : Bytes
client_flag = b'-' ∷ b'c' ∷ []

abbrev pub server_flag : Bytes
server_flag = b'-' ∷ b's' ∷ []

-- `strcmp(a, b) == 0`, for strings without their NUL.
abbrev pub same : Bytes → Bytes → Bool
same a b = starts_with a b && starts_with b a

-- The first loop: how many "-d" there are, and what follows them.
unfoldable pub count_flags : ℕ → List Bytes → ℕ × List Bytes
count_flags n [] = (n, [])
count_flags n (a ∷ args) =
    let rest = count_flags (n + 1) args in if same a debug_flag then rest else (n, a ∷ args)

-- "-dd" sets the level, whatever was counted before.
unfoldable pub verbose : ℕ × List Bytes → ℕ × List Bytes
verbose (n, []) = (n, [])
verbose (n, a ∷ args) = if same a verbose_flag then (2, args) else (n, a ∷ args)

-- `atoi` of the C library is a parameter.
module _ (atoi : Bytes → ℤ) where
  unfoldable pub remote_port_of : List Bytes → ℤ
  remote_port_of [] = pos 2222
  remote_port_of (p ∷ args) = atoi p

  -- The mode, the local port where it is wanted, the host, and the port if there is one. The number
  -- of arguments was not enough where a clause ends the process.
  unfoldable pub positional : Bool → ℕ → List Bytes → Outcome Arguments
  positional true n (m ∷ p ∷ host ∷ args) =
      if same m client_flag || same m server_flag
      then returned (record {
        debug = n;
        mode = m;
        local_port = some (atoi p);
        remote_addr = host;
        remote_port = remote_port_of args;
      })
      else exited
  positional true n _ = exited
  positional false n (m ∷ host ∷ args) =
      if same m client_flag || same m server_flag
      then returned (record {
        debug = n;
        mode = m;
        local_port = none;
        remote_addr = host;
        remote_port = remote_port_of args;
      })
      else exited
  positional false n _ = exited

  -- The arguments are those after the program's name.
  unfoldable pub usage : Bool → List Bytes → Outcome Arguments
  usage has_local args = let (n, rest) = verbose (count_flags 0 args) in positional has_local n rest

-- `msleep`: the seconds and nanoseconds that `nanosleep` is given, for a time that is not negative.
unfoldable pub sleep_time : ℕ → ℕ × ℕ
sleep_time ms = (ms / 1000, ms % 1000 * 1_000_000)
