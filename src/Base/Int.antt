-- ===== src/Base/Int.antt =====
-- Signed C integers over the native numbers. File descriptors and counts are compared only, so
-- the orders and the equality test are what the program needs.
use Prim.Native.Nat.{ℕ}
use mathlib.Core.Bool.{Bool}
use quic_web_rtc_like.Base.Tests.{ltb, leb, ◌==◌}

-- `negsuc n` is -(n + 1).
pub data ℤ : Type 0 where
  pos : ℕ → ℤ
  negsuc : ℕ → ℤ

abbrev pub minus_one : ℤ
minus_one = negsuc 0

abbrev pub ltb_ℤ : ℤ → ℤ → Bool
ltb_ℤ (pos a) (pos b) = ltb a b
ltb_ℤ (pos a) (negsuc b) = Bool.false
ltb_ℤ (negsuc a) (pos b) = Bool.true
ltb_ℤ (negsuc a) (negsuc b) = ltb b a

abbrev pub leb_ℤ : ℤ → ℤ → Bool
leb_ℤ (pos a) (pos b) = leb a b
leb_ℤ (pos a) (negsuc b) = Bool.false
leb_ℤ (negsuc a) (pos b) = Bool.true
leb_ℤ (negsuc a) (negsuc b) = leb b a

abbrev pub eqb_ℤ : ℤ → ℤ → Bool
eqb_ℤ (pos a) (pos b) = a == b
eqb_ℤ (pos a) (negsuc b) = Bool.false
eqb_ℤ (negsuc a) (pos b) = Bool.false
eqb_ℤ (negsuc a) (negsuc b) = a == b

-- The rounds of `for (i = 0; i < n; i++)`: none where `n` is negative.
abbrev pub to_ℕ : ℤ → ℕ
to_ℕ (pos n) = n
to_ℕ (negsuc n) = 0
