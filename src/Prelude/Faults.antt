-- ===== src/Prelude/Faults.antt =====
-- Code that may panic is in `Option`, where `none` is the panic.
use mathlib.Core.Path.{◌≡◌, refl, subst}
use mathlib.Core.Option.{Option, none, some, some-injective}
use native.Mathlib.Omega.{arith}

infixl 5 ◌>>=◌
abbrev pub ◌>>=◌ {ℓ κ} : {A : Type ℓ} {B : Type κ} → Option A → (A → Option B) → Option B
none >>= f = none
some a >>= f = f a

pub bind_same {ℓ κ} :
    {A : Type ℓ} {B : Type κ} (m : Option A) (f g : A → Option B)
    → ((a : A) → f a ≡ g a)
    → (m >>= f) ≡ (m >>= g)
bind_same none f g h = refl
bind_same (some a) f g h = h a

-- Inversion of a computation that ends well.
pub >>=-eq-some {ℓ κ} :
    {A : Type ℓ} {B : Type κ} (m : Option A) (f : A → Option B) {b : B}
    → (m >>= f) ≡ some b
    → (a : A) × (m ≡ some a) × (f a ≡ some b)
>>=-eq-some none f h = ground arith
>>=-eq-some (some a) f h = (a, refl, h)

-- The computation ends without a panic, and its result satisfies P.
abbrev pub Ends {ℓ} : {A : Type ℓ} → (A → Type 0) → Option A → Type 0
Ends P none = ⊥
Ends P (some a) = P a

pub Ends-some {ℓ} :
    {A : Type ℓ} (P : A → Type 0) {m : Option A} {a : A} → m ≡ some a → P a → Ends P m
Ends-some P e h = rw e h

pub Ends->>= {ℓ κ} :
    {A : Type ℓ} {B : Type κ} (P : A → Type 0) (Q : B → Type 0) (m : Option A) (f : A → Option B)
    → Ends P m
    → ((a : A) → P a → Ends Q (f a))
    → Ends Q (m >>= f)
Ends->>= P Q none f h k = h
Ends->>= P Q (some a) f h k = k a h

pub Ends-result {ℓ} :
    {A : Type ℓ} (P : A → Type 0) (m : Option A) → Ends P m → (a : A) × (m ≡ some a) × P a
Ends-result P none h = absurd h
Ends-result P (some a) h = (a, refl, h)

pub Ends-map {ℓ} :
    {A : Type ℓ} (P Q : A → Type 0) (m : Option A) → ((a : A) → P a → Q a) → Ends P m → Ends Q m
Ends-map P Q none k h = h
Ends-map P Q (some a) k h = k a h

-- A part of the result.
pub Ends-part {ℓ κ} :
    {A : Type ℓ} {B : Type κ} (P : B → Type 0) (m : Option A) (f : A → B)
    → Ends (λ a. P (f a)) m
    → Ends P (m >>= λ a. some (f a))
Ends-part P none f h = h
Ends-part P (some a) f h = h

pub some-eq {ℓ} : {A : Type ℓ} {a b : A} → some a ≡ some b → a ≡ b
some-eq {a = a} {b = b} e = some-injective a b e

pub part-of_some {ℓ κ} :
    {A : Type ℓ} {B : Type κ} (P : B → Type 0) (m : Option A) (f : A → B) {b : B}
    → (m >>= λ a. some (f a)) ≡ some b
    → ((a : A) → m ≡ some a → P (f a))
    → P b
part-of_some P none f e k = cc
part-of_some P (some a) f e k = subst P (some-eq e) (k a refl)
