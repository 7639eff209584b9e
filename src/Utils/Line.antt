-- ===== src/Utils/Line.antt =====
-- The command lines that `usage` accepts, described apart from the code that reads them.
use quic_web_rtc_like.Base.{
  ℕ, zero, suc, ◌+◌, ◌≡◌, refl, Bool, true, false, List, [], ◌∷◌, ◌++◌, Bytes, ℤ, pos, arith,
  replicate, some, none,
}
use quic_web_rtc_like.Sys.{returned}
use quic_web_rtc_like.Utils.{
  Arguments, debug_flag, verbose_flag, client_flag, server_flag, same, count_flags, verbose,
  remote_port_of, positional, usage,
}

pub data Mode : Type 0 where
  client server : Mode

-- A command line: any number of "-d", perhaps "-dd", then the mode and the rest.
pub record Line : Type 0 where
  pub debugs : ℕ
  pub is_verbose : Bool
  pub mode : Mode
  pub local_port : Bytes
  pub host : Bytes
  pub rest : List Bytes

abbrev pub flag : Mode → Bytes
flag client = client_flag
flag server = server_flag

abbrev pub dashes : Bool → List Bytes
dashes true = verbose_flag ∷ []
dashes false = []

abbrev pub port : Bool → Bytes → List Bytes
port true p = p ∷ []
port false p = []

-- The line as it is typed; the local port has a place in it only where it is wanted.
abbrev pub typed : Bool → Line → List Bytes
typed has_local l =
    replicate l.debugs debug_flag
    ++ (dashes l.is_verbose ++ flag l.mode ∷ (port has_local l.local_port ++ l.host ∷ l.rest))

-- What it asks for. The port is 2222 unless one is given, and what follows it does not count.
abbrev pub meaning : (Bytes → ℤ) → Bool → Line → Arguments
meaning atoi has_local l = record {
  debug = elim l.is_verbose [ true ↦ 2 | false ↦ l.debugs ];
  mode = flag l.mode;
  local_port = elim has_local [ true ↦ some (atoi l.local_port) | false ↦ none ];
  remote_addr = l.host;
  remote_port = elim l.rest [ [] ↦ pos 2222 | p ∷ _ ↦ atoi p ];
}

-- The flags are counted whatever follows them, if that begins with none.
count_flags-replicate :
    (k n : ℕ) (a : Bytes) (args : List Bytes)
    → same a debug_flag ≡ false
    → count_flags n (replicate k debug_flag ++ a ∷ args) ≡ (n + k, a ∷ args)
unfolding count_flags
count_flags-replicate zero n a args other = rw other (ground arith)
count_flags-replicate (suc k) n a args other =
    rw (count_flags-replicate k (n + 1) a args other) (ground arith)

-- The flags that are typed are the flags that are read.
flags-typed :
    (v : Bool) (k : ℕ) (m : Mode) (xs : List Bytes)
    → verbose (count_flags 0 (replicate k debug_flag ++ (dashes v ++ flag m ∷ xs)))
      ≡ (elim v [ true ↦ 2 | false ↦ k ], flag m ∷ xs)
unfolding verbose
flags-typed true k m xs = rw (count_flags-replicate k 0 verbose_flag (flag m ∷ xs) refl) refl
flags-typed false k client xs = rw (count_flags-replicate k 0 client_flag xs refl) (ground arith)
flags-typed false k server xs = rw (count_flags-replicate k 0 server_flag xs refl) (ground arith)

positional-typed :
    (atoi : Bytes → ℤ) (has_local : Bool) (n : ℕ) (m : Mode) (p host : Bytes) (rest : List Bytes)
    → positional atoi has_local n (flag m ∷ (port has_local p ++ host ∷ rest))
      ≡ returned (record {
        debug = n;
        mode = flag m;
        local_port = elim has_local [ true ↦ some (atoi p) | false ↦ none ];
        remote_addr = host;
        remote_port = elim rest [ [] ↦ pos 2222 | q ∷ _ ↦ atoi q ];
      })
unfolding positional remote_port_of
positional-typed atoi true n client p host [] = refl
positional-typed atoi true n client p host (q ∷ rest) = refl
positional-typed atoi true n server p host [] = refl
positional-typed atoi true n server p host (q ∷ rest) = refl
positional-typed atoi false n client p host [] = refl
positional-typed atoi false n client p host (q ∷ rest) = refl
positional-typed atoi false n server p host [] = refl
positional-typed atoi false n server p host (q ∷ rest) = refl

-- usage accepts every command line of the grammar and gives back what was typed: the level 2 after
-- -dd and otherwise the number of -d, the mode, the host, and the ports, of which the remote one
-- is 2222 unless it is given.
pub usage-typed :
    (atoi : Bytes → ℤ) (has_local : Bool) (l : Line)
    → usage atoi has_local (typed has_local l) ≡ returned (meaning atoi has_local l)
unfolding usage
usage-typed atoi has_local l =
    rw (flags-typed l.is_verbose l.debugs l.mode (port has_local l.local_port ++ l.host ∷ l.rest))
      (positional-typed atoi has_local _ l.mode l.local_port l.host l.rest)
