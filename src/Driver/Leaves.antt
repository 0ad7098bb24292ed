-- ===== src/Driver/Leaves.antt =====
-- Rules for the states that an action leaves where it succeeds: `Leaves P m Q`, with a postcondition
-- on the value and the state together.
use backupstore.Base.{◌≡◌, refl, Bool, true, false, if◌then◌else◌}
use backupstore.Base.Outcome.{
  Error, Result, ok, err, Exec, pure, raise, lift, total, attempt, on_result, ◌>>=◌, proceed,
}
use backupstore.Driver.Runs.{Keeps}

abbrev pub OkLeaves : {W A : Type 0} → (A → W → Type 0) → Result A → W → Type 0
OkLeaves Q (ok a) w = Q a w
OkLeaves Q (err e) w = Unit

pub OkLeaves_of_eq :
    {W A : Type 0} (Q : A → W → Type 0) (r : Result A) (w : W)
    → ((a : A) → r ≡ ok a → Q a w)
    → OkLeaves Q r w
OkLeaves_of_eq Q (ok a) w k = k a refl
OkLeaves_of_eq Q (err e) w k = tt

pub record Leaves {W A : Type 0} (P : W → Type 0) (m : Exec W A) (Q : A → W → Type 0) : Type 0 where
  pub at : (w : W) → P w → OkLeaves Q (m w).0 (m w).1

module _ {W A : Type 0} {P : W → Type 0} (Q : A → W → Type 0) where
  pub Leaves-pure : (a : A) → ((w : W) → P w → Q a w) → Leaves P (pure a) Q
  unfolding pure
  Leaves-pure a k = record { at = k }

  pub Leaves-raise : (e : Error) → Leaves P (raise e) Q
  unfolding raise
  Leaves-raise e = record { at = λ w h. tt }

  pub Leaves-lift :
      (r : Result A) → ((a : A) (w : W) → r ≡ ok a → P w → Q a w) → Leaves P (lift r) Q
  unfolding lift
  Leaves-lift (ok a) k = record { at = λ w h. k a w refl h }
  Leaves-lift (err e) k = record { at = λ w h. tt }

  pub Leaves-total : (m : W → A × W) → ((w : W) → P w → Q (m w).0 (m w).1) → Leaves P (total m) Q
  unfolding total
  Leaves-total m k = record { at = k }

  pub Leaves-if :
      (b : Bool) (m n : Exec W A)
      → (b ≡ true → Leaves P m Q)
      → (b ≡ false → Leaves P n Q)
      → Leaves P (if b then m else n) Q
  Leaves-if true m n x y = x refl
  Leaves-if false m n x y = y refl

module _ {W A : Type 0} {P : W → Type 0} (Q : Result A → W → Type 0) where
  pub Leaves-attempt : (m : Exec W A) → ((w : W) → P w → Q (m w).0 (m w).1) → Leaves P (attempt m) Q
  unfolding attempt
  Leaves-attempt m k = record { at = k }

module _ {W A B : Type 0} {P : W → Type 0} (R : A → W → Type 0) (Q : B → W → Type 0) where
  pub Leaves-bind :
      (m : Exec W A) (f : A → Exec W B)
      → Leaves P m R
      → ((a : A) → Leaves (R a) (f a) Q)
      → Leaves P (m >>= f) Q
  unfolding ◌>>=◌
  Leaves-bind m f lm lf = record { at = λ w h. go (m w).0 (m w).1 (lm.at w h) }
    where
      go : (r : Result A) (w : W) → OkLeaves R r w → OkLeaves Q (proceed r f w).0 (proceed r f w).1
      go (ok a) w h = (lf a).at w h
      go (err e) w h = tt

module _ {W A B : Type 0} {P : W → Type 0} (Q : B → W → Type 0) where
  pub Leaves-on_result :
      (r : Result A) (f : A → Exec W B) (g : Error → Exec W B)
      → ((a : A) → r ≡ ok a → Leaves P (f a) Q)
      → ((e : Error) → r ≡ err e → Leaves P (g e) Q)
      → Leaves P (on_result r f g) Q
  unfolding on_result
  Leaves-on_result (ok a) f g x y = x a refl
  Leaves-on_result (err e) f g x y = y e refl

-- A fact that does not depend on the state.
module _ {W A : Type 0} {F : Type 0} {P : W → Type 0} (Q : A → W → Type 0) where
  pub Leaves-fact : (m : Exec W A) → (F → Leaves P m Q) → Leaves (λ w. F × P w) m Q
  Leaves-fact m k = record { at = λ w h. (k h.0).at w h.1 }

-- What an action keeps holds beside what it leaves.
module _ {W A : Type 0} {P F : W → Type 0} (Q : A → W → Type 0) where
  pub Leaves-keeping :
      (m : Exec W A) → Keeps F m → Leaves P m Q → Leaves (λ w. F w × P w) m (λ a w. F w × Q a w)
  Leaves-keeping m k l = record { at = λ w h. go (m w).0 (m w).1 (k.at w h.0) (l.at w h.1) }
    where
      go : (r : Result A) (w : W) → F w → OkLeaves Q r w → OkLeaves (λ a w. F w × Q a w) r w
      go (ok a) w f q = (f, q)
      go (err e) w f q = tt

  pub Leaves-weaken :
      (R : A → W → Type 0) (m : Exec W A)
      → ((w : W) → F w → P w)
      → ((a : A) (w : W) → Q a w → R a w)
      → Leaves P m Q
      → Leaves F m R
  Leaves-weaken R m p q l = record { at = λ w h. go (m w).0 (m w).1 (l.at w (p w h)) }
    where
      go : (r : Result A) (w : W) → OkLeaves Q r w → OkLeaves R r w
      go (ok a) w h = q a w h
      go (err e) w h = tt

module _ {W A : Type 0} {P : W → Type 0} where
  pub Leaves-of_Keeps : (m : Exec W A) → Keeps P m → Leaves P m (λ a. P)
  Leaves-of_Keeps m k = record { at = λ w h. go (m w).0 (m w).1 (k.at w h) }
    where
      go : (r : Result A) (w : W) → P w → OkLeaves (λ a. P) r w
      go (ok a) w h = h
      go (err e) w h = tt
