-- ===== src/Driver/Runs.antt =====
-- Rules for actions. `Keeps P m`: the action keeps the invariant `P`, whether it fails or not.
-- `Runs P m Q`: also, a value that it returns satisfies `Q`.
use backupstore.Base.{◌≡◌, refl, Bool, true, false, if◌then◌else◌}
use backupstore.Base.Outcome.{
  Error, Result, ok, err, Exec, pure, raise, lift, attempt, on_result, ◌>>=◌, proceed,
}

pub record Keeps {W A : Type 0} (P : W → Type 0) (m : Exec W A) : Type 0 where
  pub at : (w : W) → P w → P (m w).1

module _ {W A : Type 0} {P : W → Type 0} where
  pub Keeps-pure : (a : A) → Keeps P (pure a)
  unfolding pure
  Keeps-pure a = record { at = λ w h. h }

  pub Keeps-raise : (e : Error) → Keeps P (raise {A = A} e)
  unfolding raise
  Keeps-raise e = record { at = λ w h. h }

  pub Keeps-lift : (r : Result A) → Keeps P (lift r)
  unfolding lift
  Keeps-lift r = record { at = λ w h. h }

  pub Keeps-attempt : (m : Exec W A) → Keeps P m → Keeps P (attempt m)
  unfolding attempt
  Keeps-attempt m k = record { at = k.at }

  pub Keeps-if : (b : Bool) (m n : Exec W A) → Keeps P m → Keeps P n → Keeps P (if b then m else n)
  Keeps-if true m n x y = x
  Keeps-if false m n x y = y

module _ {W A B : Type 0} {P : W → Type 0} where
  pub Keeps-bind :
      (m : Exec W A) (f : A → Exec W B) → Keeps P m → ((a : A) → Keeps P (f a)) → Keeps P (m >>= f)
  unfolding ◌>>=◌
  Keeps-bind m f k kf = record { at = λ w h. go (m w).0 (m w).1 (k.at w h) }
    where
      go : (r : Result A) (w : W) → P w → P (proceed r f w).1
      go (ok a) w h = (kf a).at w h
      go (err e) w h = h

  pub Keeps-on_result :
      (r : Result A) (f : A → Exec W B) (g : Error → Exec W B)
      → ((a : A) → Keeps P (f a))
      → ((e : Error) → Keeps P (g e))
      → Keeps P (on_result r f g)
  unfolding on_result
  Keeps-on_result (ok a) f g kf kg = kf a
  Keeps-on_result (err e) f g kf kg = kg e

pub ruleset keeps_rules =
    (Keeps-pure, Keeps-raise, Keeps-lift, Keeps-attempt, Keeps-if, Keeps-bind, Keeps-on_result)

abbrev pub OkIs : {A : Type 0} → (A → Type 0) → Result A → Type 0
OkIs Q (ok a) = Q a
OkIs Q (err e) = Unit

pub OkIs_of_eq :
    {A : Type 0} (Q : A → Type 0) (r : Result A) → ((a : A) → r ≡ ok a → Q a) → OkIs Q r
OkIs_of_eq Q (ok a) k = k a refl
OkIs_of_eq Q (err e) k = tt

pub record Runs {W A : Type 0} (P : W → Type 0) (m : Exec W A) (Q : A → Type 0) : Type 0 where
  pub at : (w : W) → P w → P (m w).1 × OkIs Q (m w).0

module _ {W A : Type 0} {P : W → Type 0} (Q : A → Type 0) where
  pub Runs-pure : (a : A) → Q a → Runs P (pure a) Q
  unfolding pure
  Runs-pure a q = record { at = λ w h. (h, q) }

  pub Runs-lift : (r : Result A) → OkIs Q r → Runs P (lift r) Q
  unfolding lift
  Runs-lift r q = record { at = λ w h. (h, q) }

  pub Runs-raise : (e : Error) → Runs P (raise e) Q
  unfolding raise
  Runs-raise e = record { at = λ w h. (h, tt) }

  pub Runs-if :
      (b : Bool) (m n : Exec W A)
      → (b ≡ true → Runs P m Q)
      → (b ≡ false → Runs P n Q)
      → Runs P (if b then m else n) Q
  Runs-if true m n x y = x refl
  Runs-if false m n x y = y refl

  pub Runs-attempt : (m : Exec W A) → Runs P m Q → Runs P (attempt m) (OkIs Q)
  unfolding attempt
  Runs-attempt m r = record { at = r.at }

  pub Keeps-of_Runs : (m : Exec W A) → Runs P m Q → Keeps P m
  Keeps-of_Runs m r = record { at = λ w h. (r.at w h).0 }

module _ {W A : Type 0} {P : W → Type 0} (Q R : A → Type 0) where
  pub Runs-weaken : (m : Exec W A) → Runs P m Q → ((a : A) → Q a → R a) → Runs P m R
  Runs-weaken m r f = record { at = λ w h. ((r.at w h).0, go (m w).0 (r.at w h).1) }
    where
      go : (x : Result A) → OkIs Q x → OkIs R x
      go (ok a) q = f a q
      go (err e) q = tt

module _ {W A B : Type 0} {P : W → Type 0} (Q : A → Type 0) (R : B → Type 0) where
  pub Runs-bind :
      (m : Exec W A) (f : A → Exec W B)
      → Runs P m Q
      → ((a : A) → Q a → Runs P (f a) R)
      → Runs P (m >>= f) R
  unfolding ◌>>=◌
  Runs-bind m f rm rf = record { at = λ w h. go (m w).0 (m w).1 (rm.at w h).0 (rm.at w h).1 }
    where
      go : (r : Result A) (w : W) → P w → OkIs Q r → P (proceed r f w).1 × OkIs R (proceed r f w).0
      go (ok a) w h q = (rf a q).at w h
      go (err e) w h q = (h, tt)

  pub Runs-on_result :
      (r : Result A) (f : A → Exec W B) (g : Error → Exec W B)
      → OkIs Q r
      → ((a : A) → Q a → Runs P (f a) R)
      → ((e : Error) → Runs P (g e) R)
      → Runs P (on_result r f g) R
  unfolding on_result
  Runs-on_result (ok a) f g q rf rg = rf a q
  Runs-on_result (err e) f g q rf rg = rg e

-- An action of which only the invariant matters, before one whose value does.
module _ {W A B : Type 0} {P : W → Type 0} (R : B → Type 0) where
  pub Runs-after :
      (m : Exec W A) (f : A → Exec W B)
      → Keeps P m
      → ((a : A) → Runs P (f a) R)
      → Runs P (m >>= f) R
  unfolding ◌>>=◌
  Runs-after m f k rf = record { at = λ w h. go (m w).0 (m w).1 (k.at w h) }
    where
      go : (r : Result A) (w : W) → P w → P (proceed r f w).1 × OkIs R (proceed r f w).0
      go (ok a) w h = (rf a).at w h
      go (err e) w h = (h, tt)

-- An action that leads from one invariant to another.
pub record Leads {W A : Type 0} (P P' : W → Type 0) (m : Exec W A) : Type 0 where
  pub at : (w : W) → P w → P' (m w).1

module _ {W A B : Type 0} {P P' : W → Type 0} where
  pub Leads-bind :
      (Q : A → Type 0) (m : Exec W A) (f : A → Exec W B)
      → ((w : W) → P w → P' w)
      → Runs P m Q
      → ((a : A) → Q a → Leads P P' (f a))
      → Leads P P' (m >>= f)
  unfolding ◌>>=◌
  Leads-bind Q m f drop r k = record { at = λ w h. go (m w).0 (m w).1 (r.at w h).0 (r.at w h).1 }
    where
      go : (r : Result A) (w : W) → P w → OkIs Q r → P' (proceed r f w).1
      go (ok a) w h q = (k a q).at w h
      go (err e) w h q = drop w h

  pub Leads-then :
      (m : Exec W A) (f : A → Exec W B)
      → Leads P P' m
      → ((a : A) → Keeps P' (f a))
      → Leads P P' (m >>= f)
  unfolding ◌>>=◌
  Leads-then m f l k = record { at = λ w h. go (m w).0 (m w).1 (l.at w h) }
    where
      go : (r : Result A) (w : W) → P' w → P' (proceed r f w).1
      go (ok a) w h = (k a).at w h
      go (err e) w h = h

  pub Leads-on_result :
      (r : Result A) (f : A → Exec W B) (g : Error → Exec W B)
      → ((a : A) → Leads P P' (f a))
      → ((e : Error) → Leads P P' (g e))
      → Leads P P' (on_result r f g)
  unfolding on_result
  Leads-on_result (ok a) f g kf kg = kf a
  Leads-on_result (err e) f g kf kg = kg e

module _ {W A : Type 0} {P P' : W → Type 0} where
  pub Leads-of_Keeps : (m : Exec W A) → ((w : W) → P w → P' w) → Keeps P' m → Leads P P' m
  Leads-of_Keeps m drop k = record { at = λ w h. k.at w (drop w h) }

  pub Leads-attempt : (m : Exec W A) → Leads P P' m → Leads P P' (attempt m)
  unfolding attempt
  Leads-attempt m l = record { at = l.at }
