-- ===== src/Ossl/Joined.antt =====
-- What text a choice of suites gives, and that it fits its buffer.
use quic_web_rtc_like.Base.{
  ℕ, suc, ◌+◌, ◌*◌, ◌≤◌, ◌<◌, ◌≡◌, refl, true, some, List, [], ◌∷◌, ◌++◌, Bytes, length, arith,
  or_return, length-append, ap, sym, Option-cases, inl, inr, is_some,
}
use mathlib.Core.List.{append-nil, append_assoc}
use quic_web_rtc_like.Ossl.State.{Suite, Config, custom, max_suites}
use quic_web_rtc_like.Ossl.Suites.{suite_to_name, join_suites, apply_suites}

-- Every suite of the list is one that has a name.
abbrev pub AllNamed : List Suite → Type 0
AllNamed [] = Unit
AllNamed (s ∷ ss) = (is_some (suite_to_name s) ≡ true) × AllNamed ss

abbrev pub name_of : Suite → Bytes
name_of s = or_return (suite_to_name s) [] λ name. name

-- The names after the first, each behind a colon.
abbrev pub tail_text : List Suite → Bytes
tail_text [] = []
tail_text (s ∷ ss) = b':' ∷ name_of s ++ tail_text ss

-- The names in order, with colons between.
abbrev pub suite_text : List Suite → Bytes
suite_text [] = []
suite_text (s ∷ ss) = name_of s ++ tail_text ss

length-name_of : (s : Suite) → length (name_of s) ≤ 28
length-name_of s = ground arith

join_suites-tail :
    (i : ℕ) (ss : List Suite) (buf : Bytes)
    → AllNamed ss
    → length buf + 29 * length ss < 256
    → join_suites (suc i) ss buf ≡ some (buf ++ tail_text ss)
unfolding join_suites
join_suites-tail i [] buf named fits = ap some (sym (append-nil buf))
join_suites-tail i (s ∷ ss) buf named fits = elim (Option-cases (suite_to_name s)) [
  | inl unnamed ↦ ground arith
  | inr (name, e) ↦
      let size : length name ≤ 28 = ground (arith, length-name_of s) in
      let more = length-append buf (b':' ∷ name) in
      ground (
        arith,
        more,
        append_assoc buf (b':' ∷ name) (tail_text ss),
        join_suites-tail (suc i) ss (buf ++ b':' ∷ name) named.1,
      )
]

join_suites-text :
    (ss : List Suite)
    → AllNamed ss
    → length ss ≤ max_suites
    → join_suites 0 ss [] ≡ some (suite_text ss)
unfolding join_suites
join_suites-text [] named few = refl
join_suites-text (s ∷ ss) named few = elim (Option-cases (suite_to_name s)) [
  | inl unnamed ↦ ground arith
  | inr (name, e) ↦
      let size : length name ≤ 28 = ground (arith, length-name_of s) in
      ground (arith, join_suites-tail 0 ss name named.1)
]

-- A custom choice of one to five suites that all have a name never overflows its buffer: OpenSSL
-- is given the names in order with colons between them, and its answer is the result.
pub apply_suites-text :
    {Ctx : Type 0} (set : Ctx → Bytes → ℕ) (ctx : Ctx) (cfg : Config)
    → cfg.tls13_preset ≡ custom
    → AllNamed cfg.tls13_suites
    → 0 < length cfg.tls13_suites
    → length cfg.tls13_suites ≤ max_suites
    → apply_suites set (some ctx) (some cfg) ≡ set ctx (suite_text cfg.tls13_suites)
unfolding apply_suites
apply_suites-text set ctx cfg chosen named some_suite few =
    rw chosen (ground (arith, join_suites-text cfg.tls13_suites named few))
