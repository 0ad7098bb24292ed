-- ===== src/Base/Tests.antt =====
-- Boolean tests on the native numbers and on byte strings, and the conditional.
use Prim.Native.Nat.{ℕ, ◌≤◌, ◌<◌, compare, Ordering}
use Prim.Native.Char.{code}
use Prim.Native.String.{String}
use mathlib.Core.Path.{◌≡◌, refl}
use mathlib.Core.Logic.{◌↔◌, ◌⊎◌, inl, inr, ◌≢◌}
use mathlib.Core.Bool.{Bool, true, false, ◌&&◌}
use mathlib.Core.Option.{Option, none, some}
use mathlib.Core.List.{List, [], ◌∷◌}
use native.Mathlib.Omega.{arith}

abbrev pub ltb : ℕ → ℕ → Bool
ltb a b = elim (compare a b) [ Ordering.lt ↦ true | _ ↦ false ]

abbrev pub leb : ℕ → ℕ → Bool
leb a b = elim (compare a b) [ Ordering.gt ↦ false | _ ↦ true ]

infix 50 ◌==◌
abbrev pub ◌==◌ : ℕ → ℕ → Bool
a == b = elim (compare a b) [ Ordering.eq ↦ true | _ ↦ false ]

infix 1 if◌then◌else◌
abbrev pub if◌then◌else◌ {ℓ} : {A : Type ℓ} → Bool → A → A → A
if true then x else y = x
if false then x else y = y

-- To split on a computed value and keep the equation.
pub Bool-cases : (b : Bool) → (b ≡ true) ⊎ (b ≡ false)
Bool-cases true = inl refl
Bool-cases false = inr refl

pub Option-cases {ℓ} : {A : Type ℓ} (o : Option A) → (o ≡ none) ⊎ ((a : A) × (o ≡ some a))
Option-cases none = inl refl
Option-cases (some a) = inr (a, refl)

pub ltb_cases : (a b : ℕ) → (ltb a b ≡ true) × (a < b) ⊎ (ltb a b ≡ false) × (b ≤ a)
ltb_cases a b = ground arith

pub ==_cases : (a b : ℕ) → ((a == b) ≡ true) × (a ≡ b) ⊎ ((a == b) ≡ false) × (a ≢ b)
==_cases a b = ground arith

-- A Go string is the list of its bytes.
abbrev pub Bytes : Type 0
Bytes = List ℕ

abbrev pub codes : String → Bytes
codes String.[] = []
codes (String.◌∷◌ c s) = code c ∷ codes s

infix 50 ◌=b◌
abbrev pub ◌=b◌ : Bytes → Bytes → Bool
[] =b [] = true
[] =b (y ∷ ys) = false
(x ∷ xs) =b [] = false
(x ∷ xs) =b (y ∷ ys) = x == y && xs =b ys

pub =b-eq : (xs ys : Bytes) → (xs =b ys) ≡ true → xs ≡ ys
=b-eq [] [] h = refl
=b-eq [] (y ∷ ys) h = ground arith
=b-eq (x ∷ xs) [] h = ground arith
=b-eq (x ∷ xs) (y ∷ ys) h = ground (arith, =b-eq xs ys)

pub =b_refl : (xs : Bytes) → (xs =b xs) ≡ true
=b_refl [] = refl
=b_refl (x ∷ xs) = ground (arith, =b_refl xs)

pub =b_iff : (xs ys : Bytes) → ((xs =b ys) ≡ true) ↔ (xs ≡ ys)
=b_iff xs ys = (=b-eq xs ys, λ e. ground (arith, =b_refl ys))
