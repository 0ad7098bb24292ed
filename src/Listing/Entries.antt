-- ===== src/Listing/Entries.antt =====
-- What List of list.go returns.
use backupstore.Base.{ap, refl, Has, some, map, Bytes, List, Bool, ◌≡◌, ◌∷◌, [], arith}
use backupstore.Base.Outcome.{Result, on_result, pure, ok, err, raise, failure}
use backupstore.Config.Store.{Env, volume_exists}
use backupstore.Config.Keeps.{Guarded, Keeps-get_backup_names}
use backupstore.Config.Holding.{HostLaws, Holding, Guarded-Holding}
use backupstore.Config.Paths.{get_volume_file_path}
use backupstore.Driver.Laws.{DriverLaws}
use backupstore.Driver.Runs.{
  Keeps, Keeps-attempt, Runs, Runs-bind, Runs-pure, Runs-raise, Runs-after, keeps_rules,
}
use backupstore.Integrity.{error_text}
use backupstore.Listing.{ListedVolume, add_list_volume, add_list_volumes, list_at}
use backupstore.Listing.Names.{Schedule, join_lines}
use backupstore.Listing.Names.Complete.{LosesNone, get_volume_names-Has}

abbrev name_of : Bytes × ListedVolume → Bytes
name_of entry = entry.0

module _ {W : Type 0} (env : Env W) {P : W → Type 0} (guarded : Guarded env P) where
  Keeps-volume_exists : (name : Bytes) → Keeps P (volume_exists env name)
  unfolding volume_exists
  Keeps-volume_exists name = guarded.file_exists _

  Keeps-add_list_volume :
      (name : Bytes) (volume_only : Bool) → Keeps P (add_list_volume env name volume_only)
  unfolding add_list_volume
  Keeps-add_list_volume name volume_only =
      search (keeps_rules, Keeps-volume_exists, Keeps-get_backup_names env guarded) depth 12

  -- Where no error was recorded, there is an entry for each name, in their order.
  abbrev AreListed : List Bytes → List (Bytes × ListedVolume) × List Bytes → Type 0
  AreListed names resp = resp.1 ≡ [] → map name_of resp.0 ≡ names

  Runs-add_list_volumes :
      (names : List Bytes) (volume_only : Bool)
      → Runs P (add_list_volumes env names volume_only) (AreListed names)
  unfolding add_list_volumes on_result pure
  Runs-add_list_volumes [] volume_only = Runs-pure (AreListed []) _ (λ e. refl)
  Runs-add_list_volumes (name ∷ names) volume_only =
      Runs-after (AreListed (name ∷ names)) _ _
        (Keeps-attempt _ (Keeps-add_list_volume name volume_only))
        λ info.
          Runs-bind (AreListed names) (AreListed (name ∷ names)) _ _
            (Runs-add_list_volumes names volume_only) λ rest k. entry info rest k
    where
      entry :
          (info : Result ListedVolume) (rest : List (Bytes × ListedVolume) × List Bytes)
          → AreListed names rest
          → Runs P
              (on_result info
                (λ info. pure ((name, info) ∷ rest.0, rest.1))
                (λ e. pure (rest.0, error_text e ∷ rest.1)))
              (AreListed (name ∷ names))
      entry (ok i) rest k =
          Runs-pure (AreListed (name ∷ names)) _ (λ e. ap (λ names. name ∷ names) (k e))
      entry (err x) rest k = Runs-pure (AreListed (name ∷ names)) _ (λ e. absurd (ground arith))

module _ {W : Type 0} (env : Env W) (laws : DriverLaws env.driver) (host : HostLaws env laws)
    (volume_name content : Bytes) where
  abbrev P : W → Type 0
  P = Holding env laws host ((get_volume_file_path env.site volume_name, some content) ∷ [])

  guarded : Guarded env P
  guarded =
      Guarded-Holding env laws host ((get_volume_file_path env.site volume_name, some content) ∷ [])

  abbrev pub IsListed : List (Bytes × ListedVolume) → Type 0
  IsListed entries = Has volume_name (map name_of entries)

  -- Where List of all volumes returns no error, it has an entry for every volume of which the store
  -- holds the configuration: when the driver keeps its contract, and no task of the listing passes over
  -- its own error because another task has set the one that they share.
  pub list_at-IsListed :
      (seen : Schedule)
      → LosesNone seen
      → (volume_only : Bool) → Runs P (list_at env seen [] volume_only) IsListed
  unfolding list_at
  list_at-IsListed seen kept volume_only =
      Runs-bind (Has volume_name) IsListed _ _
        (get_volume_names-Has env laws host volume_name content seen kept)
        λ names h.
          Runs-bind (AreListed env guarded names) IsListed _ _
            (Runs-add_list_volumes env guarded names volume_only)
            λ resp k. listed names h resp k resp.1 refl
    where
      listed :
          (names : List Bytes)
          → Has volume_name names
          → (resp : List (Bytes × ListedVolume) × List Bytes) → AreListed env guarded names resp
          → (errors : List Bytes) → resp.1 ≡ errors
          → Runs P
              (elim errors [
                | [] ↦ pure resp.0
                | e ∷ errors ↦ raise (failure (join_lines (e ∷ errors)))
              ])
              IsListed
      listed names h resp k [] e = Runs-pure IsListed _ (rw (k e) h)
      listed names h resp k (x ∷ errors) e = Runs-raise IsListed _
