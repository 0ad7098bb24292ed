-- ===== src/Driver/Yields.antt =====
-- Rules for actions that always return a value: `Yields m Q`, with a postcondition on the value.
use backupstore.Base.{◌≡◌, refl, Bool, true, false, if◌then◌else◌}
use backupstore.Base.Outcome.{
  Error, Result, ok, err, Exec, pure, total, attempt, on_result, ◌>>=◌, proceed,
}
use backupstore.Driver.Runs.{Runs, OkIs}

abbrev pub IsOk : {A : Type 0} → (A → Type 0) → Result A → Type 0
IsOk Q (ok a) = Q a
IsOk Q (err e) = ⊥

pub record Yields {W A : Type 0} (m : Exec W A) (Q : A → Type 0) : Type 0 where
  pub at : (w : W) → IsOk Q (m w).0

module _ {W A : Type 0} (Q : A → Type 0) where
  pub Yields-pure : (a : A) → Q a → Yields {W = W} (pure a) Q
  unfolding pure
  Yields-pure a q = record { at = λ w. q }

  pub Yields-total : (m : W → A × W) → ((w : W) → Q (m w).0) → Yields (total m) Q
  unfolding total
  Yields-total m k = record { at = k }

  pub Yields-if :
      (b : Bool) (m n : Exec W A)
      → (b ≡ true → Yields m Q)
      → (b ≡ false → Yields n Q)
      → Yields (if b then m else n) Q
  Yields-if true m n x y = x refl
  Yields-if false m n x y = y refl

  pub Yields-attempt : (m : Exec W A) → Runs (λ w. Unit {0}) m Q → Yields (attempt m) (OkIs Q)
  unfolding attempt
  Yields-attempt m r = record { at = λ w. (r.at w tt).1 }

module _ {W A : Type 0} where
  pub Yields-tried : (m : Exec W A) → Yields (attempt m) (λ r. Unit {0})
  unfolding attempt
  Yields-tried m = record { at = λ w. tt }

module _ {W A B : Type 0} (R : A → Type 0) (Q : B → Type 0) where
  pub Yields-bind :
      (m : Exec W A) (f : A → Exec W B)
      → Yields m R
      → ((a : A) → R a → Yields (f a) Q)
      → Yields (m >>= f) Q
  unfolding ◌>>=◌
  Yields-bind m f ym yf = record { at = λ w. go (m w).0 (m w).1 (ym.at w) }
    where
      go : (r : Result A) (w : W) → IsOk R r → IsOk Q (proceed r f w).0
      go (ok a) w h = (yf a h).at w
      go (err e) w h = absurd h

  pub Yields-on_result :
      (r : Result A) (f : A → Exec W B) (g : Error → Exec W B)
      → OkIs R r
      → ((a : A) → R a → Yields (f a) Q)
      → ((e : Error) → Yields (g e) Q)
      → Yields (on_result r f g) Q
  unfolding on_result
  Yields-on_result (ok a) f g h x y = x a h
  Yields-on_result (err e) f g h x y = y e

-- A part whose value does not matter.
module _ {W A B : Type 0} (Q : B → Type 0) where
  pub Yields-after :
      (m : Exec W A) (f : A → Exec W B)
      → Yields m (λ a. Unit {0})
      → ((a : A) → Yields (f a) Q)
      → Yields (m >>= f) Q
  Yields-after m f ym yf = Yields-bind (λ a. Unit {0}) Q m f ym λ a _. yf a

  pub Yields-either :
      (r : Result A) (f : A → Exec W B) (g : Error → Exec W B)
      → ((a : A) → Yields (f a) Q)
      → ((e : Error) → Yields (g e) Q)
      → Yields (on_result r f g) Q
  unfolding on_result
  Yields-either (ok a) f g x y = x a
  Yields-either (err e) f g x y = y e
