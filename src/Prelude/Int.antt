-- ===== src/Prelude/Int.antt =====
-- Go's `int` where the code uses a negative value as a mark: `negsuc n` is -(n + 1).
use Prim.Native.Nat.{ℕ, zero, suc, ◌+◌, ◌-◌, ◌%◌, ◌^◌, ◌<◌}
use mathlib.Core.Path.{◌≡◌}
use mathlib.Core.Logic.{◌↔◌}
use mathlib.Core.Bool.{Bool, true, false}
use native.Mathlib.Omega.{arith}
use cs.Prelude.Tests.{◌==◌, ltb, if◌then◌else◌}

pub data ℤ : Type 0 where
  pos : ℕ → ℤ
  negsuc : ℕ → ℤ

abbrev pub minus_one : ℤ
minus_one = negsuc 0

infix 50 ◌==ℤ◌
abbrev pub ◌==ℤ◌ : ℤ → ℤ → Bool
pos a ==ℤ pos b = a == b
pos a ==ℤ negsuc b = false
negsuc a ==ℤ pos b = false
negsuc a ==ℤ negsuc b = a == b

-- x - 1
abbrev pub decrement : ℤ → ℤ
decrement (pos zero) = negsuc 0
decrement (pos (suc n)) = pos n
decrement (negsuc n) = negsuc (suc n)

-- x + 1
abbrev pub increment : ℤ → ℤ
increment (pos n) = pos (suc n)
increment (negsuc zero) = pos 0
increment (negsuc (suc n)) = negsuc n

-- A sum, with no bound.
abbrev pub add_unbounded : ℤ → ℤ → ℤ
add_unbounded (pos a) (pos b) = pos (a + b)
add_unbounded (pos a) (negsuc b) = if ltb b a then pos (a - suc b) else negsuc (b - a)
add_unbounded (negsuc a) (pos b) = if ltb a b then pos (b - suc a) else negsuc (a - b)
add_unbounded (negsuc a) (negsuc b) = negsuc (a + b + 1)

-- The number from 0 up to 2^64 as a 64-bit `int`.
abbrev pub as_int : ℕ → ℤ
as_int m = if ltb m (2 ^ 63) then pos m else negsuc (2 ^ 64 - 1 - m)

-- The 64-bit `int` that a number wraps around to.
abbrev pub wrap : ℤ → ℤ
wrap (pos n) = as_int (n % 2 ^ 64)
wrap (negsuc n) = as_int (2 ^ 64 - 1 - n % 2 ^ 64)

-- a + b
abbrev pub add_int : ℤ → ℤ → ℤ
add_int a b = wrap (add_unbounded a b)

pub add_int_fits : (a b : ℕ) → a + b < 2 ^ 63 → add_int (pos a) (pos b) ≡ pos (a + b)
add_int_fits a b h = ground arith

pub ==ℤ_iff : (a b : ℤ) → ((a ==ℤ b) ≡ true) ↔ (a ≡ b)
==ℤ_iff a b = ground arith
