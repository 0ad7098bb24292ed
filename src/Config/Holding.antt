-- ===== src/Config/Holding.antt =====
-- Files whose content stays the same under calls that do not touch them (driver.go).
use backupstore.Base.{ℕ, ◌≡◌, ◌∙◌, false, Option, List, [], ◌∷◌, Bytes, All}
use backupstore.Base.Outcome.{total}
use backupstore.Driver.{FilePath, is_above}
use backupstore.Driver.Laws.{DriverLaws}
use backupstore.Driver.Runs.{Keeps}
use backupstore.Config.Store.{Env}
use backupstore.Config.Keeps.{Guarded, Writable}

-- The clock and the pause change no file.
pub record HostLaws {W : Type 0} (env : Env W) (laws : DriverLaws env.driver) : Type 0 where
  pub now_same : (q : FilePath) (w : W) → laws.content (env.now w).1 q ≡ laws.content w q
  pub sleep_same :
      (n : ℕ) (q : FilePath) (w : W) → laws.content (env.sleep n w) q ≡ laws.content w q

module _ {W : Type 0} (env : Env W) (laws : DriverLaws env.driver) (host : HostLaws env laws) where
  open env use {driver, site}
  open laws use {content}

  -- The files have the given contents.
  abbrev pub Holding : List (FilePath × Option Bytes) → W → Type 0
  Holding files w = All (λ f. content w f.0 ≡ f.1) files

  pub Holding-same :
      (files : List (FilePath × Option Bytes)) (w w' : W)
      → ((q : FilePath) → content w' q ≡ content w q)
      → Holding files w
      → Holding files w'
  Holding-same [] w w' k h = tt
  Holding-same (f ∷ files) w w' k h = (k f.0 ∙ h.0, Holding-same files w w' k h.1)

  pub Guarded-Holding : (files : List (FilePath × Option Bytes)) → Guarded env (Holding files)
  unfolding total
  Guarded-Holding files = record {
    read = λ p. record { at = λ w. Holding-same files _ _ (λ q. laws.read_same p q w) };
    list = λ p. record { at = λ w. Holding-same files _ _ (λ q. laws.list_same p q w) };
    file_exists =
        λ p. record { at = λ w. Holding-same files _ _ (λ q. laws.file_exists_same p q w) };
    file_time = λ p. record { at = λ w. Holding-same files _ _ (λ q. laws.file_time_same p q w) };
    now = record { at = λ w. Holding-same files _ _ (λ q. host.now_same q w) };
    sleep = λ n. record { at = λ w. Holding-same files _ _ (λ q. host.sleep_same n q w) };
  }

  -- The path is above none of the files.
  abbrev pub IsApart : FilePath → List (FilePath × Option Bytes) → Type 0
  IsApart p files = All (λ f. is_above p f.0 ≡ false) files

  pub Keeps-remove :
      (p : FilePath) (files : List (FilePath × Option Bytes))
      → IsApart p files
      → Keeps (Holding files) (driver.remove p)
  Keeps-remove p files a = record { at = λ w. go files a w }
    where
      go :
          (fs : List (FilePath × Option Bytes))
          → IsApart p fs
          → (w : W) → Holding fs w
          → Holding fs (driver.remove p w).1
      go [] a w h = tt
      go (f ∷ fs) a w h = (laws.remove_other p f.0 w a.0 ∙ h.0, go fs a.1 w h.1)

  pub Keeps-write :
      (p : FilePath) (files : List (FilePath × Option Bytes))
      → IsApart p files
      → Writable env (Holding files) p
  Keeps-write p files a b = record { at = λ w. go files a w }
    where
      go :
          (fs : List (FilePath × Option Bytes))
          → IsApart p fs
          → (w : W) → Holding fs w
          → Holding fs (driver.write p b w).1
      go [] a w h = tt
      go (f ∷ fs) a w h = (laws.write_other p f.0 b w a.0 ∙ h.0, go fs a.1 w h.1)
