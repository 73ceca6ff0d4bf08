-- ===== src/Prelude/Ints.antt =====
-- Go's `int`, a 64-bit two's-complement integer, over the native numbers.
use Prim.Native.Nat.{ℕ, ◌+◌, ◌-◌, ◌%◌, ◌^◌}
use mathlib.Core.Bool.{Bool, true, false}
use sosreport_operator.Prelude.Tests.{ltb, leb, if◌then◌else◌}

-- `negsuc n` is -(n + 1).
pub data ℤ : Type 0 where
  pos : ℕ → ℤ
  negsuc : ℕ → ℤ

abbrev pub two63 : ℕ
two63 = 2 ^ 63

abbrev pub two64 : ℕ
two64 = 2 ^ 64

-- The int64 that a mathematical integer wraps to.
abbrev pub to_int64 : ℤ → ℤ
to_int64 (pos n) = let m = n % two64 in if ltb m two63 then pos m else negsuc (two64 - m - 1)
to_int64 (negsuc n) = let m = n % two64 in if ltb m two63 then negsuc m else pos (two64 - m - 1)

-- `c - n` of the mathematical integers, for a length `n`.
abbrev pub minus : ℤ → ℕ → ℤ
minus (pos c) n = if leb n c then pos (c - n) else negsuc (n - c - 1)
minus (negsuc c) n = negsuc (c + n)

-- `i >= z`
abbrev pub at_least : ℕ → ℤ → Bool
at_least i (pos z) = leb z i
at_least i (negsuc z) = true

-- `y <= x`
abbrev pub leb_ℤ : ℤ → ℤ → Bool
leb_ℤ (pos y) (pos x) = leb y x
leb_ℤ (pos y) (negsuc x) = false
leb_ℤ (negsuc y) (pos x) = true
leb_ℤ (negsuc y) (negsuc x) = leb x y
