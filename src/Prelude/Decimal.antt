-- ===== src/Prelude/Decimal.antt =====
-- Go's strconv.Itoa and strconv.Atoi on a 64-bit `int`.
use Prim.Native.Nat.{ℕ, zero, suc, ◌+◌, ◌-◌, ◌*◌, ◌/◌, ◌%◌, ◌^◌, ◌≤◌, ◌<◌}
use mathlib.Core.Path.{◌≡◌, refl, sym, ap, ◌∙◌}
use mathlib.Core.Logic.{inl, inr}
use mathlib.Core.Bool.{Bool, true, false, ◌||◌}
use mathlib.Core.List.{[], ◌∷◌}
use native.Mathlib.Omega.{arith}
use cs.Prelude.Tests.{ltb, leb, ◌==◌, if◌then◌else◌, Bool-cases}
use cs.Prelude.Int.{ℤ, pos, negsuc}
use cs.Prelude.Texts.{Text}

-- The digits of n in front of `out`, on fuel: more than n rounds are enough.
unfoldable pub digits : ℕ → ℕ → Text → Text
digits zero n out = out
digits (suc fuel) n out =
    let rest = digits fuel (n / 10) ((48 + n % 10) ∷ out) in
    if ltb n 10 then (48 + n) ∷ out else rest

-- strconv.Itoa of a number that is not negative, and of any.
unfoldable pub itoa : ℕ → Text
unfolding digits
itoa n = digits (suc n) n []

unfoldable pub itoa_int : ℤ → Text
itoa_int (pos n) = itoa n
itoa_int (negsuc n) = 45 ∷ itoa (suc n)

-- What ParseUint makes of digits behind the number n: its two errors, or a number of 64 bits.
pub data Scanned : Type 0 where
  number : ℕ → Scanned
  syntax range : Scanned

unfoldable pub scan : ℕ → Text → Scanned
scan n [] = number n
scan n (c ∷ s) =
    let rest = scan (n * 10 + (c - 48)) s in
    if ltb c 48 || ltb 57 c
    then syntax
    else if leb (2 ^ 64 / 10 + 1) n || leb (2 ^ 64) (n * 10 + (c - 48))
    then range
    else rest

unfoldable pub scan_some : Text → Scanned
unfolding scan
scan_some [] = syntax
scan_some (c ∷ s) = scan 0 (c ∷ s)

-- The value that Atoi returns, and whether its error is nil.
pub record Parsed : Type 0 where
  pub value : ℤ
  pub ok : Bool

unfoldable pub positive_int : Scanned → Parsed
positive_int (number n) =
    if ltb n (2 ^ 63)
    then record { value = pos n; ok = true }
    else record { value = pos (2 ^ 63 - 1); ok = false }
positive_int syntax = record { value = pos 0; ok = false }
positive_int range = record { value = pos (2 ^ 63 - 1); ok = false }

-- -n, for n up to 2^63.
unfoldable pub negate : ℕ → ℤ
negate zero = pos 0
negate (suc n) = negsuc n

unfoldable pub negative_int : Scanned → Parsed
unfolding negate
negative_int (number n) =
    if leb n (2 ^ 63)
    then record { value = negate n; ok = true }
    else record { value = negsuc (2 ^ 63 - 1); ok = false }
negative_int syntax = record { value = pos 0; ok = false }
negative_int range = record { value = negsuc (2 ^ 63 - 1); ok = false }

unfoldable pub atoi : Text → Parsed
unfolding scan_some positive_int negative_int
atoi [] = positive_int syntax
atoi (c ∷ s) =
    if c == 45
    then negative_int (scan_some s)
    else if c == 43
    then positive_int (scan_some s)
    else positive_int (scan_some (c ∷ s))

unfoldable pub AllDigits : Text → Type 0
AllDigits [] = Unit
AllDigits (c ∷ s) = (48 ≤ c) × (c ≤ 57) × AllDigits s

digits-AllDigits : (fuel n : ℕ) (out : Text) → AllDigits out → AllDigits (digits fuel n out)
unfolding digits AllDigits
digits-AllDigits zero n out h = h
digits-AllDigits (suc fuel) n out h =
    grind (arith, h, digits-AllDigits fuel (n / 10) ((48 + n % 10) ∷ out))

pub itoa-AllDigits : (n : ℕ) → AllDigits (itoa n)
unfolding itoa AllDigits
itoa-AllDigits n = digits-AllDigits (suc n) n [] tt

-- Reading the digits of a number of 64 bits gives the number.
scan-digits :
    (fuel n : ℕ) (out : Text) → n < fuel → n < 2 ^ 64 → scan 0 (digits fuel n out) ≡ scan n out
unfolding scan digits
scan-digits zero n out h b = absurd (omega arith)
scan-digits (suc fuel) n out h b = ground (arith, scan-digits fuel (n / 10) ((48 + n % 10) ∷ out))

-- The number that digits spell behind n, with no bound.
unfoldable pub value : ℕ → Text → ℕ
value n [] = n
value n (c ∷ s) = value (n * 10 + (c - 48)) s

value-digits : (fuel n : ℕ) (out : Text) → n < fuel → value 0 (digits fuel n out) ≡ value n out
unfolding value digits
value-digits zero n out h = absurd (omega arith)
value-digits (suc fuel) n out h = ground (arith, value-digits fuel (n / 10) ((48 + n % 10) ∷ out))

pub value-itoa : (n : ℕ) → value 0 (itoa n) ≡ n
unfolding value itoa
value-itoa n = value-digits (suc n) n [] (omega arith)

pub itoa-injective : (m n : ℕ) → itoa m ≡ itoa n → m ≡ n
itoa-injective m n e = sym (value-itoa m) ∙ ap (value 0) e ∙ value-itoa n

digits-first :
    (fuel n : ℕ) (out : Text)
    → n < fuel
    → (c : ℕ) × (s : Text) × (digits fuel n out ≡ c ∷ s) × (48 ≤ c) × (c ≤ 57)
unfolding digits
digits-first zero n out h = absurd (omega arith)
digits-first (suc fuel) n out h = elim (Bool-cases (ltb n 10)) [
  | inl e ↦ (48 + n, out, rw (e) refl, omega arith, ground arith)
  | inr e ↦
      let (c, s, q, a, b) = digits-first fuel (n / 10) ((48 + n % 10) ∷ out) (ground arith) in
      (c, s, rw (e) q, a, b)
]

atoi-digit : (c : ℕ) (s : Text) → 48 ≤ c → atoi (c ∷ s) ≡ positive_int (scan 0 (c ∷ s))
unfolding atoi
atoi-digit c s h = ground arith

number_fits : (n : ℕ) → n < 2 ^ 63 → positive_int (number n) ≡ record { value = pos n; ok = true }
unfolding positive_int
number_fits n h = ground arith

-- Atoi reads back what Itoa prints of a number that is not negative.
pub atoi-itoa : (n : ℕ) → n < 2 ^ 63 → atoi (itoa n) ≡ record { value = pos n; ok = true }
unfolding itoa scan
atoi-itoa n h =
    let (c, s, q, a, b) = digits-first (suc n) n [] (omega arith) in
    let read : scan 0 (c ∷ s) ≡ number n =
      ap (scan 0) (sym q) ∙ scan-digits (suc n) n [] (omega arith) (omega arith) in
    ap atoi q ∙ atoi-digit c s a ∙ ap positive_int read ∙ number_fits n h
