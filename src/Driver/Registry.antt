-- ===== src/Driver/Registry.antt =====
-- The registry of the drivers (driver.go): the initializers by the scheme of the URL.
use backupstore.Base.{Option, none, some, List, [], ◌∷◌, Bytes, if◌then◌else◌, ◌=b◌, codes}
use backupstore.Base.Outcome.{◌>>=◌, Result, ok, err, failure, Exec, lift}
use backupstore.Driver.{Driver}
use backupstore.Url.{UrlLib}

abbrev pub InitFunc : Type 0 → Type 0
InitFunc W = Bytes → Exec W (Driver W)

abbrev pub Registry : Type 0 → Type 0
Registry W = List (Bytes × InitFunc W)

module _ {W : Type 0} where
  -- `initializers[kind]`
  unfoldable pub initializer : Bytes → Registry W → Option (InitFunc W)
  initializer kind [] = none
  initializer kind (e ∷ reg) =
      let rest = initializer kind reg in if e.0 =b kind then some e.1 else rest

  -- `initializers[kind] = initFunc` for a new kind, and `delete(initializers, kind)`.
  unfoldable pub register_driver : Bytes → InitFunc W → Registry W → Result (Registry W)
  unfolding initializer
  register_driver kind init reg = elim (initializer kind reg) [
    | some _ ↦ err (failure (codes "has already been registered"))
    | none ↦ ok ((kind, init) ∷ reg)
  ]

  remove_key : Bytes → Registry W → Registry W
  remove_key kind [] = []
  remove_key kind (e ∷ reg) =
      let rest = remove_key kind reg in if e.0 =b kind then rest else e ∷ rest

  unfoldable pub unregister_driver : Bytes → Registry W → Result (Registry W)
  unfolding initializer remove_key
  unregister_driver kind reg = elim (initializer kind reg) [
    | none ↦ err (failure (codes "has not been registered"))
    | some _ ↦ ok (remove_key kind reg)
  ]

  unfoldable pub driver_for : UrlLib → Registry W → Bytes → Result (InitFunc W)
  unfolding initializer
  driver_for lib reg dest_url =
      if dest_url =b []
      then err (failure (codes "destination URL hasn't been specified"))
      else elim (lib.parse dest_url) [
        | err e ↦ err e
        | ok u ↦ elim (initializer u.scheme reg) [
          | none ↦ err (failure (codes "driver is not supported"))
          | some init ↦ ok init
        ]
      ]

  unfoldable pub get_backup_store_driver : UrlLib → Registry W → InitFunc W
  unfolding driver_for
  get_backup_store_driver lib reg dest_url = do
    init ← lift (driver_for lib reg dest_url)
    init dest_url
