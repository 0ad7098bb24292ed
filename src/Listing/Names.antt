-- ===== src/Listing/Names.antt =====
-- The names of the volumes in a store (getVolumeNames and volumeFolderExists of config.go). The
-- directories are listed one after the other, and no listing runs into the time limit of a task. The
-- tasks of the second level share a variable for their errors, which another task may set between a
-- task's listing and its check.
pub mod Complete
use backupstore.Base.{
  Option, none, some, Bool, false, ◌||◌, List, [], ◌∷◌, ◌++◌, Bytes, ◌=b◌, codes, map,
}
use backupstore.Base.Outcome.{Result, ok, err, Error, failure, Exec, pure, raise, attempt, ◌>>=◌}
use backupstore.Driver.{FilePath}
use backupstore.Config.Store.{Env}
use backupstore.Integrity.{error_text, wrap}

-- The entries that were found, each with its directory, and the texts of the errors.
pub record Listed : Type 0 where
  pub entries : List (FilePath × Bytes)
  pub errors : List Bytes

-- strings.Join(errs, "\n")
unfoldable pub join_lines : List Bytes → Bytes
join_lines [] = []
join_lines (s ∷ []) = s
join_lines (s ∷ t ∷ ss) = s ++ (10 ∷ join_lines (t ∷ ss))

unfoldable pub has_name : Bytes → List Bytes → Bool
has_name name [] = false
has_name name (n ∷ names) = name =b n || has_name name names

-- What the check of the task of a path reads, by the task's own error, in the order in which the tasks
-- happen to run.
abbrev pub Schedule : Type 0
Schedule = FilePath → Option Error → Option Error

-- Each task reads its own error.
abbrev pub own_error : Schedule
own_error path e = e

abbrev pub task_error : Result (List Bytes) → Option Error
task_error (ok names) = none
task_error (err e) = some e

abbrev pub task_names : Result (List Bytes) → List Bytes
task_names (ok names) = names
task_names (err e) = []

module _ {W : Type 0} (env : Env W) where
  open env use {driver, site}

  -- A task that reads an error adds its text, and the others go on all the same.
  unfoldable pub list_each : Schedule → List FilePath → Exec W Listed
  list_each seen [] = pure (record { entries = []; errors = [] })
  list_each seen (path ∷ paths) = do
    listed ← attempt (driver.list path)
    rest ← list_each seen paths
    elim (seen path (task_error listed)) [
      | none ↦
          pure (record rest {
            entries = map (λ name. (path, name)) (task_names listed) ++ rest.entries;
          })
      | some e ↦ pure (record rest {
        errors = error_text (wrap (codes "failed to list second level dirs") e) ∷ rest.errors;
      })
    ]

  unfoldable pub get_volume_names : Schedule → Exec W (List Bytes)
  get_volume_names seen = do
    let base = site.base ++ codes "volumes" ∷ []
    lv1_dirs ← driver.list base
    lv1 ← list_each own_error (map (λ dir. base ++ dir ∷ []) lv1_dirs)
    lv2 ← list_each seen (map (λ entry. entry.0 ++ entry.1 ∷ []) lv1.entries)
    elim (lv1.errors ++ lv2.errors) [
      | [] ↦ pure (map (λ entry. entry.1) lv2.entries)
      | e ∷ errors ↦ raise (failure (join_lines (e ∷ errors)))
    ]

  unfoldable pub volume_folder_exists : Schedule → Bytes → Exec W Bool
  volume_folder_exists seen volume_name = do
    volume_names ← get_volume_names seen
    pure (has_name volume_name volume_names)
