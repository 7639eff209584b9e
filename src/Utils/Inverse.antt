-- ===== src/Utils/Inverse.antt =====
-- What `usage` accepts is a command line of Utils/Line.
use quic_web_rtc_like.Base.{
  ℕ, suc, ◌+◌, ◌≡◌, refl, ap, ◌∙◌, Bool, true, false, inl, inr, Bool-cases, List, [], ◌∷◌, ◌++◌,
  Bytes, ℤ, pos, arith, replicate, some, none, if◌then◌else◌, ◌||◌,
}
use quic_web_rtc_like.Sys.{returned, exited}
use quic_web_rtc_like.Utils.{
  Arguments, debug_flag, verbose_flag, client_flag, server_flag, same, count_flags, verbose,
  remote_port_of, positional, usage,
}
use quic_web_rtc_like.Utils.Line.{Mode, client, server, Line, flag, dashes, port, typed, meaning}

same→≡ : (a b : Bytes) → same a b ≡ true → a ≡ b
same→≡ [] [] h = refl
same→≡ [] (y ∷ b) h = ground arith
same→≡ (x ∷ a) [] h = ground arith
same→≡ (x ∷ a) (y ∷ b) h = grind (arith, same→≡ a b)

-- What was counted was "-d" as many times.
count_flags-inverse :
    (n : ℕ) (args : List Bytes)
    → (k : ℕ) × (args ≡ replicate k debug_flag ++ (count_flags n args).1)
      × ((count_flags n args).0 ≡ n + k)
unfolding count_flags
count_flags-inverse n [] = (0, refl, omega arith)
count_flags-inverse n (a ∷ args) = elim (Bool-cases (same a debug_flag)) [
  | inl is ↦
      (let (k, e, c) = count_flags-inverse (n + 1) args in
        (suc k, ground (arith, same→≡ a debug_flag is), ground arith))
  | inr isnt ↦ (0, ground arith, ground arith)
]

verbose-inverse :
    (n : ℕ) (args : List Bytes)
    → (v : Bool) × (args ≡ dashes v ++ (verbose (n, args)).1)
      × ((verbose (n, args)).0 ≡ elim v [ true ↦ 2 | false ↦ n ])
unfolding verbose
verbose-inverse n [] = (false, refl, refl)
verbose-inverse n (a ∷ args) = elim (Bool-cases (same a verbose_flag)) [
  | inl is ↦ (true, ground (arith, same→≡ a verbose_flag is), ground arith)
  | inr isnt ↦ (false, ground arith, ground arith)
]

mode_of :
    (a : Bytes) → (same a client_flag || same a server_flag) ≡ true → (m : Mode) × (a ≡ flag m)
mode_of a h = elim (Bool-cases (same a client_flag)) [
  | inl is ↦ (client, same→≡ a client_flag is)
  | inr isnt ↦ (server, same→≡ a server_flag (ground arith))
]

-- The arguments that follow the flags, where they are accepted.
record Accepted (atoi : Bytes → ℤ) (has_local : Bool) (n : ℕ) (args : List Bytes) (r : Arguments)
    : Type 0 where
  mode : Mode
  local_port : Bytes
  host : Bytes
  rest : List Bytes
  given : args ≡ flag mode ∷ (port has_local local_port ++ host ∷ rest)
  result : r ≡ record {
    debug = n;
    mode = flag mode;
    local_port = elim has_local [ true ↦ some (atoi local_port) | false ↦ none ];
    remote_addr = host;
    remote_port = remote_port_of atoi rest;
  }

accepted_if :
    (b : Bool) (x r : Arguments)
    → (if b then returned x else exited) ≡ returned r
    → (b ≡ true) × (r ≡ x)
accepted_if true x r h = (refl, ground arith)
accepted_if false x r h = ground arith

positional-Accepted :
    (atoi : Bytes → ℤ) (has_local : Bool) (n : ℕ) (args : List Bytes) (r : Arguments)
    → positional atoi has_local n args ≡ returned r
    → Accepted atoi has_local n args r
unfolding positional
positional-Accepted atoi true n [] r h = ground arith
positional-Accepted atoi true n (m ∷ []) r h = ground arith
positional-Accepted atoi true n (m ∷ p ∷ []) r h = ground arith
positional-Accepted atoi true n (m ∷ p ∷ host ∷ rest) r h =
    let (good, result) = accepted_if _ _ r h in
    let (mode, is) = mode_of m good in
    record {
      mode = mode;
      local_port = p;
      host = host;
      rest = rest;
      given = rw is;
      result = rw (result, is);
    }
positional-Accepted atoi false n [] r h = ground arith
positional-Accepted atoi false n (m ∷ []) r h = ground arith
positional-Accepted atoi false n (m ∷ host ∷ rest) r h =
    let (good, result) = accepted_if _ _ r h in
    let (mode, is) = mode_of m good in
    record {
      mode = mode;
      local_port = [];
      host = host;
      rest = rest;
      given = rw is;
      result = rw (result, is);
    }

remote_port_lem :
    (atoi : Bytes → ℤ) (rest : List Bytes)
    → remote_port_of atoi rest ≡ elim rest [ [] ↦ pos 2222 | p ∷ _ ↦ atoi p ]
unfolding remote_port_of
remote_port_lem atoi [] = refl
remote_port_lem atoi (p ∷ rest) = refl

with_level :
    (r : Arguments) (n : ℕ) (p : ℤ)
    → r.debug ≡ n
    → r.remote_port ≡ p
    → r ≡ record r { debug = n; remote_port = p }
with_level r n p level port = ground arith

-- Every command line that usage accepts is one of the grammar of Utils/Line: some -d, perhaps a
-- -dd, a mode, the local port where it is wanted, a host and more; and what usage gives is what
-- that line means.
pub usage-accepted :
    (atoi : Bytes → ℤ) (has_local : Bool) (args : List Bytes) (r : Arguments)
    → usage atoi has_local args ≡ returned r
    → (l : Line) × (args ≡ typed has_local l) × (r ≡ meaning atoi has_local l)
unfolding usage
usage-accepted atoi has_local args r h =
    let (k, counted, n) = count_flags-inverse 0 args in
    let counts = count_flags 0 args in
    let (v, dashed, level) = verbose-inverse counts.0 counts.1 in
    let from_zero : 0 + k ≡ k = omega arith in
    let found = positional-Accepted atoi has_local _ _ r h in
    (
      record {
        debugs = k;
        is_verbose = v;
        mode = found.mode;
        local_port = found.local_port;
        host = found.host;
        rest = found.rest;
      },
      counted
          ∙ ap (λ xs. replicate k debug_flag ++ xs)
              (dashed ∙ ap (λ xs. dashes v ++ xs) found.given),
      found.result
          ∙ with_level _ _ _
              (level ∙ ap (λ (x : ℕ). elim v [ true ↦ 2 | false ↦ x ]) (n ∙ from_zero))
              (remote_port_lem atoi found.rest),
    )
