-- ===== src/FileSystem.antt =====
-- fsops/fsops.go: the driver operations over a directory of the host.
pub mod Written
use backupstore.Base.{
  ℕ, zero, suc, ◌==◌, Bool, true, false, ◌||◌, Option, none, some, List, [], ◌∷◌, ◌++◌, Bytes,
  if◌then◌else◌, codes,
}
use backupstore.Base.Outcome.{on_result, Error, Exec, pure, raise, attempt, total, ◌>>=◌, ◌>>◌}
use backupstore.Driver.{FilePath}
use backupstore.Integrity.{error_text, contains_text}
use backupstore.Util.Names.{has_suffix}
use backupstore.SystemBackup.Urls.{join_slash}

pub record FileStat : Type 0 where
  pub size : ℕ
  pub is_dir : Bool
  pub mod_time : ℕ

-- What the code calls of package os and of commands, by the paths of the host: `stat` is none for an
-- error, `copy` writes to the file that `create` opened, `execute_ls` is the output of `ls -1`, and
-- `copy_from_host` and `copy_to_host` are `cp`. `local_path` is FileSystemOps.LocalPath, `format_int`
-- strconv.FormatInt, and `trim_space` strings.TrimSpace.
pub record FileSystem (W : Type 0) : Type 0 where
  pub local_path : FilePath → FilePath
  pub base : Bytes
  pub now : W → ℕ × W
  pub format_int : ℕ → Bytes
  pub trim_space : Bytes → Bytes
  pub stat : FilePath → W → Option FileStat × W
  pub mkdir_all : FilePath → Exec W (Unit {0})
  pub create : FilePath → Exec W (Unit {0})
  pub copy : FilePath → Bytes → Exec W (Unit {0})
  pub close : FilePath → Exec W (Unit {0})
  pub rename : FilePath → FilePath → Exec W (Unit {0})
  pub remove_all : FilePath → Exec W (Unit {0})
  pub remove : FilePath → Exec W (Unit {0})
  pub open_read : FilePath → Exec W Bytes
  pub execute_ls : FilePath → Exec W Bytes
  pub copy_from_host : Bytes → FilePath → Exec W (Unit {0})
  pub copy_to_host : FilePath → Bytes → Exec W (Unit {0})
  pub execute_mv : FilePath → FilePath → Exec W (Unit {0})

-- filepath.Dir
unfoldable pub dir : FilePath → FilePath
dir [] = []
dir (a ∷ []) = []
dir (a ∷ b ∷ p) = a ∷ dir (b ∷ p)

-- A suffix of the path as a string.
unfoldable pub with_suffix : Bytes → FilePath → FilePath
with_suffix s [] = s ∷ []
with_suffix s (a ∷ []) = (a ++ s) ∷ []
with_suffix s (a ∷ b ∷ p) = a ∷ with_suffix s (b ∷ p)

abbrev pub split_line : ℕ → List Bytes → List Bytes
split_line c [] = (c ∷ []) ∷ []
split_line c (p ∷ ps) = if c == 10 then [] ∷ p ∷ ps else (c ∷ p) ∷ ps

-- strings.Split at "\n"
unfoldable pub split_lines : Bytes → List Bytes
split_lines [] = [] ∷ []
split_lines (c ∷ s) = split_line c (split_lines s)

-- MaxCleanupLevel
abbrev pub max_cleanup_level : ℕ
max_cleanup_level = 10

module _ {W : Type 0} (fs : FileSystem W) where
  open fs use {local_path, base}

  unfoldable pub prepare_path : FilePath → Exec W (Unit {0})
  prepare_path file = fs.mkdir_all (dir (local_path file))

  abbrev size_of : Option FileStat → Option ℕ
  size_of none = none
  size_of (some st) = if st.is_dir then none else some st.size

  -- The size; -1 is none.
  unfoldable pub file_size : FilePath → Exec W (Option ℕ)
  file_size file_path = do st ← total (fs.stat (local_path file_path)); pure (size_of st)

  abbrev is_size : Option ℕ → Bool
  is_size none = false
  is_size (some n) = true

  unfoldable pub file_exists : FilePath → Exec W Bool
  file_exists file_path = do size ← file_size file_path; pure (is_size size)

  abbrev time_of : Option FileStat → Option ℕ
  time_of none = none
  time_of (some st) = if st.is_dir then none else some st.mod_time

  -- The modification time; the zero time is none.
  unfoldable pub file_time : FilePath → Exec W (Option ℕ)
  file_time file_path = do st ← total (fs.stat (local_path file_path)); pure (time_of st)

  -- The cleanup of the directories above, at most `levels` of them.
  unfoldable pub clean_up : ℕ → FilePath → Exec W (Unit {0})
  clean_up zero path = pure tt
  clean_up (suc levels) path = if has_suffix (join_slash (dir path)) base then pure tt else (do
    removed ← attempt (fs.remove (dir path))
    on_result removed (λ _. clean_up levels (dir path)) (λ e. pure tt))

  unfoldable pub remove : FilePath → Exec W (Unit {0})
  remove path = do fs.remove_all (local_path path); clean_up max_cleanup_level (local_path path)

  unfoldable pub read : FilePath → Exec W Bytes
  read src = fs.open_read (local_path src)

  unfoldable pub temporary : ℕ → FilePath → FilePath
  temporary now dst = with_suffix (codes ".tmp" ++ codes "." ++ fs.format_int now) dst

  -- An error of the copy closes the file.
  unfoldable pub copy_and_close : FilePath → Bytes → Exec W (Unit {0})
  copy_and_close file content = do
    copied ← attempt (fs.copy file content)
    on_result copied (λ _. fs.close file) (λ e. (do attempt (fs.close file); raise e))

  unfoldable pub write : FilePath → Bytes → Exec W (Unit {0})
  write dst content = do
    now ← total fs.now
    let tmp_file = local_path (temporary now dst)
    prepare_path dst
    fs.create tmp_file
    copy_and_close tmp_file content
    fs.rename tmp_file (local_path dst)

  -- A directory that is not there, or cannot be opened, is an empty list.
  abbrev is_missing : Error → Bool
  is_missing e =
      contains_text (error_text e) (codes "No such file or directory")
      || contains_text (error_text e) (codes "cannot open directory")

  abbrev lines_of : Bytes → List Bytes
  lines_of [] = []
  lines_of (c ∷ s) = split_lines (fs.trim_space (c ∷ s))

  unfoldable pub list : FilePath → Exec W (List Bytes)
  list path = do
    out ← attempt (fs.execute_ls (local_path path))
    on_result out (λ out. pure (lines_of out)) (λ e. if is_missing e then pure [] else raise e)

  unfoldable pub upload : Bytes → FilePath → Exec W (Unit {0})
  upload src dst = do
    now ← total fs.now
    let tmp_dst = temporary now dst
    found ← file_exists tmp_dst
    if found then (do attempt (remove tmp_dst); pure tt) else pure tt
    prepare_path dst
    fs.copy_from_host src (local_path tmp_dst)
    fs.execute_mv (local_path tmp_dst) (local_path dst)

  unfoldable pub download : FilePath → Bytes → Exec W (Unit {0})
  download src dst = fs.copy_to_host (local_path src) dst
