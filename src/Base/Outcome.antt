-- ===== src/Base/Outcome.antt =====
-- Errors as values, and actions on a state that may fail. What an action wrote before it failed
-- stays written, so the state comes back beside the error too.
use backupstore.Base.Tests.{Bytes}

-- Go's errors: one made by this program, one that a driver or library call returned, and a panic.
pub data Error : Type 0 where
  failure : Bytes → Error
  external : Bytes → Error
  panic : Error

pub data Result {ℓ} (A : Type ℓ) : Type ℓ where
  ok : A → Result A
  err : Error → Result A

abbrev pub Exec {ℓ} : Type ℓ → Type ℓ → Type ℓ
Exec W A = W → Result A × W

module _ {ℓ} {W A : Type ℓ} where
  unfoldable pub pure : A → Exec W A
  pure a w = (ok a, w)

  unfoldable pub raise : Error → Exec W A
  raise e w = (err e, w)

  unfoldable pub lift : Result A → Exec W A
  lift r w = (r, w)

  -- The result as a value: Go's `x, err := m()`, where the caller goes on after an error.
  unfoldable pub attempt : Exec W A → Exec W (Result A)
  attempt m w = (ok (m w).0, (m w).1)

  -- A call that cannot fail.
  unfoldable pub total : (W → A × W) → Exec W A
  total m w = (ok (m w).0, (m w).1)

module _ {ℓ} {W A B : Type ℓ} where
  abbrev pub proceed : Result A → (A → Exec W B) → Exec W B
  proceed (ok a) f w = f a w
  proceed (err e) f w = (err e, w)

  infixl 5 ◌>>=◌ ◌>>◌
  -- opening this opens the other actions too
  unfoldable pub ◌>>=◌ : Exec W A → (A → Exec W B) → Exec W B
  unfolding pure raise lift attempt total
  ◌>>=◌ m f w = proceed (m w).0 f (m w).1

  abbrev pub ◌>>◌ : Exec W A → Exec W B → Exec W B
  m >> n = m >>= λ _. n

  -- `if err == nil { … } else { … }`
  unfoldable pub on_result : Result A → (A → Exec W B) → (Error → Exec W B) → Exec W B
  on_result (ok a) f g = f a
  on_result (err e) f g = g e
