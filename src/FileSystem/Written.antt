-- ===== src/FileSystem/Written.antt =====
-- A write of fsops/fsops.go is atomic: the data goes to another file, which is then renamed.
use backupstore.Base.{arith, ◌≡◌, ◌≢◌, ◌∙◌, refl, Option, some, [], ◌∷◌, ◌++◌, Bytes, ℕ}
use backupstore.Base.Outcome.{
  Error, Result, ok, err, Exec, raise, attempt, total, on_result, ◌>>=◌, ◌>>◌, proceed,
}
use backupstore.Driver.{FilePath}
use backupstore.FileSystem.{FileSystem, with_suffix, temporary, prepare_path, copy_and_close, write}

-- What the code relies on of the host's files: `content w p` is the content of the file `p`.
pub record FileLaws {W : Type 0} (fs : FileSystem W) : Type 0 where
  pub content : W → FilePath → Option Bytes
  pub local_apart : (p q : FilePath) → p ≢ q → fs.local_path p ≢ fs.local_path q
  pub now_same : (q : FilePath) (w : W) → content (fs.now w).1 q ≡ content w q
  -- Directories are made, and no file.
  pub mkdir_same : (p q : FilePath) (w : W) → content (fs.mkdir_all p w).1 q ≡ content w q
  pub create_other : (p q : FilePath) (w : W) → p ≢ q → content (fs.create p w).1 q ≡ content w q
  pub create_ok :
      (p : FilePath) (w : W) → (fs.create p w).0 ≡ ok tt → content (fs.create p w).1 p ≡ some []
  pub copy_other :
      (p q : FilePath) (b : Bytes) (w : W) → p ≢ q → content (fs.copy p b w).1 q ≡ content w q
  -- The copy to an empty file, where it does not fail.
  pub copy_ok :
      (p : FilePath) (b : Bytes) (w : W)
      → content w p ≡ some []
      → (fs.copy p b w).0 ≡ ok tt
      → content (fs.copy p b w).1 p ≡ some b
  pub close_same : (p q : FilePath) (w : W) → content (fs.close p w).1 q ≡ content w q
  -- A rename that fails changes nothing.
  pub rename_ok :
      (p q : FilePath) (w : W)
      → (fs.rename p q w).0 ≡ ok tt
      → content (fs.rename p q w).1 q ≡ content w p
  pub rename_err :
      (p q r : FilePath) (e : Error) (w : W)
      → (fs.rename p q w).0 ≡ err e
      → content (fs.rename p q w).1 r ≡ content w r

-- `Ends P m Q E`: from `P` the action leads to `Q` where it returns a value, and else to `E`.
abbrev pub Ended : {W A : Type 0} → (W → Type 0) → (W → Type 0) → Result A → W → Type 0
Ended Q E (ok a) w = Q w
Ended Q E (err e) w = E w

Ended_of_eq :
    {W A : Type 0} (Q E : W → Type 0) (r : Result A) (w : W)
    → ((a : A) → r ≡ ok a → Q w)
    → ((e : Error) → r ≡ err e → E w)
    → Ended Q E r w
Ended_of_eq Q E (ok a) w x y = x a refl
Ended_of_eq Q E (err e) w x y = y e refl

pub record Ends {W A : Type 0} (P : W → Type 0) (m : Exec W A) (Q E : W → Type 0) : Type 0 where
  pub at : (w : W) → P w → Ended Q E (m w).0 (m w).1

module _ {W A B : Type 0} {P : W → Type 0} (R Q E : W → Type 0) where
  Ends-bind :
      (m : Exec W A) (f : A → Exec W B)
      → Ends P m R E
      → ((a : A) → Ends R (f a) Q E)
      → Ends P (m >>= f) Q E
  unfolding ◌>>=◌
  Ends-bind m f em ef = record { at = λ w h. go (m w).0 (m w).1 (em.at w h) }
    where
      go : (r : Result A) (w : W) → Ended R E r w → Ended Q E (proceed r f w).0 (proceed r f w).1
      go (ok a) w h = (ef a).at w h
      go (err e) w h = h

append-longer : (a : Bytes) (c : ℕ) (s : Bytes) → a ++ c ∷ s ≢ a
append-longer [] c s e = ground arith
append-longer (x ∷ a) c s e = ground (arith, append-longer a c s)

with_suffix-apart : (c : ℕ) (s : Bytes) (p : FilePath) → with_suffix (c ∷ s) p ≢ p
unfolding with_suffix
with_suffix-apart c s [] e = ground arith
with_suffix-apart c s (a ∷ []) e = ground (arith, append-longer a c s)
with_suffix-apart c s (a ∷ b ∷ p) e = ground (arith, with_suffix-apart c s (b ∷ p))

module _ {W : Type 0} (fs : FileSystem W) (laws : FileLaws fs) (dst : FilePath) (b : Bytes) where
  open fs use {local_path}
  open laws use {content}

  abbrev pub IsNew : W → Type 0
  IsNew w = content w (local_path dst) ≡ some b

  module _ (old : Option Bytes) where
    abbrev pub IsOld : W → Type 0
    IsOld w = content w (local_path dst) ≡ old

    -- The other file has some content, and the written one its old one.
    abbrev Beside : FilePath → Bytes → W → Type 0
    Beside tmp c w = IsOld w × (content w tmp ≡ some c)

    module _ (tmp : FilePath) (apart : tmp ≢ local_path dst) where
      Ends-create : Ends IsOld (fs.create tmp) (Beside tmp []) IsOld
      Ends-create = record {
        at = λ w h.
            Ended_of_eq (Beside tmp []) IsOld _ _
              (λ u e. (laws.create_other tmp _ w apart ∙ h, laws.create_ok tmp w e))
              (λ x e. laws.create_other tmp _ w apart ∙ h);
      }

      Ends-close : Ends (Beside tmp b) (fs.close tmp) (Beside tmp b) IsOld
      Ends-close = record {
        at = λ w h.
            Ended_of_eq (Beside tmp b) IsOld _ _
              (λ u e. (laws.close_same tmp _ w ∙ h.0, laws.close_same tmp tmp w ∙ h.1))
              (λ x e. laws.close_same tmp _ w ∙ h.0);
      }

      Ends-abandon :
          (x : Error)
          → Ends IsOld (attempt (fs.close tmp) >> raise {A = Unit {0}} x) (Beside tmp b) IsOld
      unfolding attempt raise ◌>>=◌
      Ends-abandon x = record { at = λ w h. laws.close_same tmp _ w ∙ h }

      Ends-copied :
          (r : Result (Unit {0}))
          → Ends
              (Ended (Beside tmp b) IsOld r)
              (on_result r
                (λ _. fs.close tmp)
                (λ e. attempt (fs.close tmp) >> raise {A = Unit {0}} e))
              (Beside tmp b)
              IsOld
      unfolding on_result
      Ends-copied (ok u) = Ends-close
      Ends-copied (err e) = Ends-abandon e

      Ends-copy_and_close : Ends (Beside tmp []) (copy_and_close fs tmp b) (Beside tmp b) IsOld
      unfolding copy_and_close attempt ◌>>=◌
      Ends-copy_and_close = record {
        at = λ w h. (Ends-copied (fs.copy tmp b w).0).at (fs.copy tmp b w).1 (
            Ended_of_eq (Beside tmp b) IsOld _ _
              (λ u e. (laws.copy_other tmp _ b w apart ∙ h.0, laws.copy_ok tmp b w h.1 e))
              (λ x e. laws.copy_other tmp _ b w apart ∙ h.0));
      }

      Ends-rename : Ends (Beside tmp b) (fs.rename tmp (local_path dst)) IsNew IsOld
      Ends-rename = record {
        at = λ w h.
            Ended_of_eq IsNew IsOld _ _ (λ u e. laws.rename_ok tmp _ w e ∙ h.1)
              (λ x e. laws.rename_err tmp _ _ x w e ∙ h.0);
      }

    -- A write either returns a value and has set the file to the data, or fails and leaves the file as
    -- it was: when the host's files do as documented.
    pub write-Ends : Ends IsOld (write fs dst b) IsNew IsOld
    unfolding write prepare_path temporary total
    write-Ends =
        Ends-bind IsOld IsNew IsOld _ _ (record { at = λ w h. laws.now_same _ w ∙ h })
          λ now.
            Ends-bind IsOld IsNew IsOld _ _
              (record {
                at = λ w h.
                    Ended_of_eq IsOld IsOld _ _ (λ u e. laws.mkdir_same _ _ w ∙ h)
                      (λ x e. laws.mkdir_same _ _ w ∙ h);
              })
              λ _.
                Ends-bind (Beside (tmp now) []) IsNew IsOld _ _ (Ends-create (tmp now) (apart now))
                  λ _.
                    Ends-bind (Beside (tmp now) b) IsNew IsOld _ _
                      (Ends-copy_and_close (tmp now) (apart now))
                      λ _. Ends-rename (tmp now) (apart now)
      where
        tmp : ℕ → FilePath
        tmp now = local_path (temporary fs now dst)

        apart : (now : ℕ) → tmp now ≢ local_path dst
        apart now = laws.local_apart _ _ (with_suffix-apart _ _ dst)
