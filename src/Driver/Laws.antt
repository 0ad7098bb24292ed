-- ===== src/Driver/Laws.antt =====
-- What the code relies on of a driver: the contract stated in driver.go, over the files of the
-- store. `content w p` is the content of the file `p`.
use backupstore.Base.{true, false, Option, none, some, List, ◌∷◌, ◌++◌, Bytes, ◌≡◌, Has}
use backupstore.Base.Outcome.{ok}
use backupstore.Driver.{FilePath, Driver, is_above}

pub record DriverLaws {W : Type 0} (d : Driver W) : Type 0 where
  pub content : W → FilePath → Option Bytes
  -- `remove` is "rm -rf": it touches nothing outside the path, and a success leaves nothing there;
  -- it makes no file.
  pub remove_other :
      (p q : FilePath) (w : W) → is_above p q ≡ false → content (d.remove p w).1 q ≡ content w q
  pub remove_ok :
      (p q : FilePath) (w : W)
      → is_above p q ≡ true
      → (d.remove p w).0 ≡ ok tt
      → content (d.remove p w).1 q ≡ none
  pub remove_none :
      (p q : FilePath) (w : W) → content w q ≡ none → content (d.remove p w).1 q ≡ none
  -- `write` touches nothing but its file, which a success sets.
  pub write_other :
      (p q : FilePath) (b : Bytes) (w : W)
      → is_above p q ≡ false
      → content (d.write p b w).1 q ≡ content w q
  pub write_ok :
      (p : FilePath) (b : Bytes) (w : W)
      → (d.write p b w).0 ≡ ok tt
      → content (d.write p b w).1 p ≡ some b
  -- The other calls change no file.
  pub file_exists_same : (p q : FilePath) (w : W) → content (d.file_exists p w).1 q ≡ content w q
  pub file_time_same : (p q : FilePath) (w : W) → content (d.file_time p w).1 q ≡ content w q
  pub read_same : (p q : FilePath) (w : W) → content (d.read p w).1 q ≡ content w q
  pub list_same : (p q : FilePath) (w : W) → content (d.list p w).1 q ≡ content w q
  -- A file that exists has a content.
  pub file_exists_ok :
      (p : FilePath) (w : W) → (d.file_exists p w).0 ≡ true → (b : Bytes) × (content w p ≡ some b)
  -- What a successful `read` returns is the file; a successful `list` names the files and directories
  -- of the directory.
  pub read_ok : (p : FilePath) (b : Bytes) (w : W) → (d.read p w).0 ≡ ok b → content w p ≡ some b
  pub list_ok :
      (p rest : FilePath) (n b : Bytes) (names : List Bytes) (w : W)
      → (d.list p w).0 ≡ ok names
      → content w (p ++ n ∷ rest) ≡ some b
      → Has n names
