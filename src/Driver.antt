-- ===== src/Driver.antt =====
-- driver.go: the interface of a backup store driver, over the state of the store and of the host.
--
-- A path is the list of its components: filepath.Join of clean components appends them, and a
-- trailing "/" adds none. Every call is an action, so a call that reads may find a changed store.
pub mod Runs
pub mod Leaves
pub mod Yields
pub mod Registry
pub mod Laws
use backupstore.Base.{ℕ, Bool, true, false, ◌&&◌, List, [], ◌∷◌, Bytes, ◌=b◌, ◌≡◌}
use backupstore.Base.Outcome.{Exec, Result, ok}

abbrev pub FilePath : Type 0
FilePath = List Bytes

-- `p` is `q` or a directory above it.
unfoldable pub is_above : FilePath → FilePath → Bool
is_above [] q = true
is_above (a ∷ p) [] = false
is_above (a ∷ p) (b ∷ q) = a =b b && is_above p q

-- `upload` and `download` take a path of the host's file system, as bytes.
pub record Driver (W : Type 0) : Type 0 where
  pub kind : Bytes
  pub get_url : Bytes
  pub file_exists : FilePath → W → Bool × W
  pub file_size : FilePath → W → ℕ × W
  pub file_time : FilePath → W → ℕ × W
  pub remove : FilePath → Exec W (Unit {0})
  pub read : FilePath → Exec W Bytes
  pub write : FilePath → Bytes → Exec W (Unit {0})
  pub list : FilePath → Exec W (List Bytes)
  pub upload : Bytes → FilePath → Exec W (Unit {0})
  pub download : FilePath → Bytes → Exec W (Unit {0})
