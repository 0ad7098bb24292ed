-- ===== src/SystemBackup/Urls.antt =====
-- GetSystemBackupURL and ParseSystemBackupURL of systembackup/system_backup.go. The base directory is
-- one path component, as SetBackupstoreBase's callers give it.
use backupstore.Base.{
  ℕ, not, List, [], ◌∷◌, ◌++◌, Bytes, if◌then◌else◌, ◌=b◌, codes, ◌==◌, ltb, length, Option, none,
  some,
}
use backupstore.Base.Outcome.{Result, ok, err, failure}
use backupstore.Driver.{FilePath}
use backupstore.Config.Paths.{Site}
use backupstore.Integrity.{contains_text}
use backupstore.Url.{UrlLib}

abbrev pub system_backup_directory : Bytes
system_backup_directory = codes "system-backups"

unfoldable pub get_system_backup_uri : Site → Bytes → Bytes → FilePath
get_system_backup_uri site name longhorn_version =
    site.base ++ (system_backup_directory ∷ longhorn_version ∷ name ∷ [])

-- strings.Join(parts, "/") and strings.Split(s, "/").
unfoldable pub join_slash : List Bytes → Bytes
join_slash [] = []
join_slash (p ∷ []) = p
join_slash (p ∷ q ∷ ps) = p ++ (b'/' ∷ join_slash (q ∷ ps))

-- A character before the parts: it begins a part when it is "/", and else belongs to the first.
abbrev pub split_step : ℕ → List Bytes → List Bytes
split_step c [] = (c ∷ []) ∷ []
split_step c (p ∷ ps) = if c == b'/' then [] ∷ p ∷ ps else (c ∷ p) ∷ ps

unfoldable pub split_slash : Bytes → List Bytes
split_slash [] = [] ∷ []
split_slash (c ∷ s) = split_step c (split_slash s)

pub record ParsedUrl : Type 0 where
  pub backup_target : Bytes
  pub version : Bytes
  pub name : Bytes

-- The last four of the parts, after the parts before them: base, directory, version and name.
pub record Tail : Type 0 where
  pub before : List Bytes
  pub base : Bytes
  pub sub_dir : Bytes
  pub version : Bytes
  pub name : Bytes

-- `none` for fewer than four parts.
unfoldable pub last_four : List Bytes → Option Tail
last_four [] = none
last_four (p ∷ ps) = elim (last_four ps) [
  | some t ↦ some (record t { before = p ∷ t.before })
  | none ↦ of_four p ps
]
  where
    of_four : Bytes → List Bytes → Option Tail
    of_four b (s ∷ v ∷ n ∷ []) =
        some (record { before = []; base = b; sub_dir = s; version = v; name = n })
    of_four b _ = none

module _ (lib : UrlLib) (base : Bytes) (join_path : Bytes → List Bytes → Bytes) where
  -- `join_path` is filepath.Join of a path and components.
  unfoldable pub get_system_backup_url : Bytes → Bytes → Bytes → Result Bytes
  get_system_backup_url name longhorn_version backup_target = elim (lib.parse backup_target) [
    | err e ↦ err e
    | ok u ↦
        if name =b []
        then err (failure (codes "missing system backup name"))
        else if longhorn_version =b []
        then err (failure (codes "missing Longhorn version"))
        else ok (
            lib.print (record u {
              path =
                  join_path u.path (base ∷ system_backup_directory ∷ longhorn_version ∷ name ∷ []);
            }))
  ]

  -- Fewer than five parts are an error, so there is a part before the last four.
  unfoldable pub parse_system_backup_url : Bytes → Result ParsedUrl
  parse_system_backup_url url = elim (lib.parse url) [
    | err e ↦ err e
    | ok u ↦ elim (last_four (split_slash u.path)) [
      | none ↦ err (failure (codes "invalid system backup URI"))
      | some t ↦
          let target = lib.print (record u { path = join_slash t.before }) in
          if ltb (length t.before) 1
          then err (failure (codes "invalid system backup URI"))
          else if not (t.sub_dir =b system_backup_directory)
          then err (failure (codes "invalid system backup URL subdirectory"))
          else if not (t.base =b base)
          then err (failure (codes "invalid system backup URL backupstore directory"))
          else ok (record {
            backup_target =
                if contains_text target (codes "@") then target ++ b'/' ∷ [] else target;
            version = t.version;
            name = t.name;
          })
    ]
  ]
