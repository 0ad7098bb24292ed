-- ===== src/Listing/Names/Complete.antt =====
-- getVolumeNames of config.go names every volume in the store.
use mathlib.Core.List.{append_assoc}
use backupstore.Base.{
  Option, none, ◌≢◌, ◌≡◌, ◌∙◌, refl, sym, ap, true, some, List, [], ◌∷◌, ◌++◌, arith, Bytes, Has,
  inl, inr, ◌⊎◌, =b_refl, codes, map, take, drop,
}
use backupstore.Base.Outcome.{Error, Result, Exec, err, failure, ok, pure, raise, attempt}
use backupstore.Driver.{FilePath}
use backupstore.Driver.Laws.{DriverLaws}
use backupstore.Driver.Runs.{
  Runs, OkIs, OkIs_of_eq, Runs-bind, Runs-pure, Runs-raise, Runs-weaken, Keeps-pure, Keeps-bind,
  Keeps-attempt, Keeps,
}
use backupstore.Config.Paths.{get_volume_file_path, get_volume_path, get_checksum}
use backupstore.Config.Store.{Env}
use backupstore.Config.Keeps.{Guarded}
use backupstore.Config.Holding.{HostLaws, Holding, Guarded-Holding}
use backupstore.Integrity.{error_text, wrap}
use backupstore.Listing.Names.{
  Schedule, own_error, task_error, task_names, Listed, has_name, list_each, get_volume_names,
  volume_folder_exists, join_lines,
}

Has-append_left : {A : Type 0} (a : A) (xs ys : List A) → Has a xs → Has a (xs ++ ys)
Has-append_left a [] ys h = absurd h
Has-append_left a (x ∷ xs) ys (inl e) = inl e
Has-append_left a (x ∷ xs) ys (inr h) = inr (Has-append_left a xs ys h)

Has-append_right : {A : Type 0} (a : A) (xs ys : List A) → Has a ys → Has a (xs ++ ys)
Has-append_right a [] ys h = h
Has-append_right a (x ∷ xs) ys h = inr (Has-append_right a xs ys h)

Has-map : {A B : Type 0} (f : A → B) (a : A) (xs : List A) → Has a xs → Has (f a) (map f xs)
Has-map f a [] h = absurd h
Has-map f a (x ∷ xs) (inl e) = inl (ap f e)
Has-map f a (x ∷ xs) (inr h) = inr (Has-map f a xs h)

nil_of_append : {A : Type 0} (xs ys : List A) → xs ++ ys ≡ [] → (xs ≡ []) × (ys ≡ [])
nil_of_append [] ys h = (refl, h)
nil_of_append (x ∷ xs) ys h = absurd (ground arith)

nil_cases : {A : Type 0} (xs : List A) → (xs ≡ []) ⊎ (xs ≢ [])
nil_cases [] = inl refl
nil_cases (x ∷ xs) = inr (λ e. ground arith)

has_name-Has : (name : Bytes) (names : List Bytes) → Has name names → has_name name names ≡ true
unfolding has_name
has_name-Has name [] h = absurd h
has_name-Has name (n ∷ names) (inl e) = rw e (ground (arith, =b_refl name))
has_name-Has name (n ∷ names) (inr h) = ground (arith, has_name-Has name names h)

-- No task passes over its own error.
abbrev pub LosesNone : Schedule → Type 0
LosesNone seen = (path : FilePath) (e : Error) → seen path (some e) ≢ none

-- The volume has a configuration.
module _ {W : Type 0} (env : Env W) (laws : DriverLaws env.driver) (host : HostLaws env laws)
    (volume_name content : Bytes) where
  open env use {driver, site}

  abbrev P : W → Type 0
  P = Holding env laws host ((get_volume_file_path site volume_name, some content) ∷ [])

  guarded : Guarded env P
  guarded =
      Guarded-Holding env laws host ((get_volume_file_path site volume_name, some content) ∷ [])

  -- Either an error was recorded, or the entry that leads to the volume was found.
  abbrev Finds : FilePath → Bytes → Listed → Type 0
  Finds path name listed = (listed.errors ≡ []) → Has (path, name) listed.entries

  -- What a task adds, by the error that it reads.
  abbrev task : FilePath → Result (List Bytes) → Listed → Option Error → Exec W Listed
  task p r rest none =
      pure (record rest { entries = map (λ name. (p, name)) (task_names r) ++ rest.entries })
  task p r rest (some e) = pure (record rest {
    errors = error_text (wrap (codes "failed to list second level dirs") e) ∷ rest.errors;
  })

  Keeps-task :
      (p : FilePath) (r : Result (List Bytes)) (rest : Listed) (o : Option Error)
      → Keeps P (task p r rest o)
  Keeps-task p r rest none = Keeps-pure _
  Keeps-task p r rest (some e) = Keeps-pure _

  Keeps-list_each : (seen : Schedule) (paths : List FilePath) → Keeps P (list_each env seen paths)
  unfolding list_each
  Keeps-list_each seen [] = Keeps-pure _
  Keeps-list_each seen (p ∷ paths) = Keeps-bind _ _ (Keeps-attempt _ (guarded.list p)) λ r.
      Keeps-bind _ _ (Keeps-list_each seen paths)
        λ rest. Keeps-task p r rest (seen p (task_error r))

  Runs-list_each :
      (seen : Schedule)
      → LosesNone seen
      → (path : FilePath) (name : Bytes) (rest : FilePath) (paths : List FilePath)
      → path ++ name ∷ rest ≡ get_volume_file_path site volume_name
      → Has path paths
      → Runs P (list_each env seen paths) (Finds path name)
  unfolding list_each attempt
  Runs-list_each seen kept path name rest [] e h = absurd h
  Runs-list_each seen kept path name rest (p ∷ paths) e h =
      Runs-bind (OkIs (Listing h)) (Finds path name) _ _ (listed h) λ r q.
        Runs-bind (Rest h) (Finds path name) _ _
          (others_of h (Runs-list_each seen kept path name rest paths e))
          λ others k. finish h others k r q (seen p (task_error r)) refl
    where
      Listing : Has path (p ∷ paths) → List Bytes → Type 0
      Listing (inl same) names = Has name names
      Listing (inr later) names = Unit {0}

      Rest : Has path (p ∷ paths) → Listed → Type 0
      Rest (inl same) l = Unit {0}
      Rest (inr later) l = Finds path name l

      Has-map_at :
          (p : FilePath)
          → p ≡ path
          → (names : List Bytes) → Has name names
          → Has {A = FilePath × Bytes} (path, name) (map (λ n. (p, n)) names)
      Has-map_at p same [] m = absurd m
      Has-map_at p same (x ∷ names) (inl e) = inl (λ i. (same i, e i))
      Has-map_at p same (x ∷ names) (inr m) = inr (Has-map_at p same names m)

      named :
          (h : Has path (p ∷ paths)) (names : List Bytes) (w : W)
          → P w
          → (driver.list p w).0 ≡ ok names
          → Listing h names
      named (inl same) names w x f =
          laws.list_ok path rest name content names w (rw same at f) (ap (laws.content w) e ∙ x.0)
      named (inr later) names w x f = tt

      listed : (h : Has path (p ∷ paths)) → Runs P (attempt (driver.list p)) (OkIs (Listing h))
      listed h = record {
        at = λ w x.
            ((guarded.list p).at w x, OkIs_of_eq (Listing h) _ (λ names f. named h names w x f));
      }

      others_of :
          (h : Has path (p ∷ paths))
          → (Has path paths → Runs P (list_each env seen paths) (Finds path name))
          → Runs P (list_each env seen paths) (Rest h)
      others_of (inl same) ih = record {
        at = λ w x.
            ((Keeps-list_each seen paths).at w x, OkIs_of_eq (Rest (inl same)) _ (λ _ _. tt));
      }
      others_of (inr later) ih = ih later

      found :
          (h : Has path (p ∷ paths)) (names : List Bytes) (others : Listed)
          → Listing h names
          → Rest h others
          → Finds path name
              (record others { entries = map (λ name. (p, name)) names ++ others.entries })
      found (inl same) names others m k f =
          Has-append_left (path, name) (map (λ n. (p, n)) names) others.entries
            (Has-map_at p same names m)
      found (inr later) names others m k f =
          Has-append_right (path, name) (map (λ n. (p, n)) names) others.entries (k f)

      finish :
          (h : Has path (p ∷ paths)) (others : Listed)
          → Rest h others
          → (r : Result (List Bytes)) → OkIs (Listing h) r
          → (o : Option Error) → seen p (task_error r) ≡ o
          → Runs P (task p r others o) (Finds path name)
      finish h others k (ok names) m none e =
          Runs-pure (Finds path name) _ (found h names others m k)
      finish h others k (err x) m none e = absurd (kept p x e)
      finish h others k r m (some x) e = Runs-pure (Finds path name) _ (λ f. absurd (ground arith))

  abbrev base : FilePath
  base = site.base ++ codes "volumes" ∷ []

  abbrev first_dir : Bytes
  first_dir = take 2 (get_checksum site volume_name)

  abbrev second_dir : Bytes
  second_dir = drop 2 (take 4 (get_checksum site volume_name))

  abbrev first_path : FilePath
  first_path = base ++ first_dir ∷ []

  abbrev second_path : FilePath
  second_path = first_path ++ second_dir ∷ []

  config_path :
      base ++ (first_dir ∷ second_dir ∷ volume_name ∷ codes "volume.cfg" ∷ [])
      ≡ get_volume_file_path site volume_name
  unfolding get_volume_file_path get_volume_path
  config_path = append_assoc site.base _ _ ∙ sym (append_assoc site.base _ _)

  first_config :
      first_path ++ (second_dir ∷ volume_name ∷ codes "volume.cfg" ∷ [])
      ≡ get_volume_file_path site volume_name
  first_config = append_assoc base _ _ ∙ config_path

  second_config :
      second_path ++ (volume_name ∷ codes "volume.cfg" ∷ []) ≡ get_volume_file_path site volume_name
  second_config = append_assoc first_path _ _ ∙ first_config

  -- Where the first level was listed without an error, the second one finds the volume.
  abbrev Second : Listed → Listed → Type 0
  Second lv1 lv2 = lv1.errors ≡ [] → Finds second_path volume_name lv2

  Runs-Second :
      (seen : Schedule)
      → LosesNone seen
      → (lv1 : Listed) → Finds first_path second_dir lv1
      → Runs P
          (list_each env seen (map (λ entry. entry.0 ++ entry.1 ∷ []) lv1.entries))
          (Second lv1)
  Runs-Second seen kept lv1 k = elim (nil_cases lv1.errors) [
    | inl e ↦
        Runs-weaken (Finds second_path volume_name) (Second lv1) _
          (Runs-list_each seen kept second_path volume_name (codes "volume.cfg" ∷ []) _
            second_config
            (Has-map (λ (entry : FilePath × Bytes). entry.0 ++ entry.1 ∷ [])
              (first_path, second_dir) lv1.entries (k e)))
          (λ lv2 f _. f)
    | inr ne ↦ record {
      at = λ w x.
          ((Keeps-list_each seen _).at w x, OkIs_of_eq (Second lv1) _ (λ lv2 _ e. absurd (ne e)));
    }
  ]

  -- Where getVolumeNames returns no error, it has named every volume of which the store holds the
  -- configuration: when the driver keeps its contract, and no task of a directory passes over its own
  -- error because another task has set the one that they share.
  pub get_volume_names-Has :
      (seen : Schedule) → LosesNone seen → Runs P (get_volume_names env seen) (Has volume_name)
  unfolding get_volume_names
  get_volume_names-Has seen kept =
      Runs-bind (Has first_dir) (Has volume_name) _ _
        (record {
          at = λ w x. (
            (guarded.list base).at w x,
            OkIs_of_eq (Has first_dir) _ (λ names e.
                laws.list_ok base _ first_dir content names w e
                  (ap (laws.content w) config_path ∙ x.0)),
          );
        })
        λ dirs m.
          Runs-bind (Finds first_path second_dir) (Has volume_name) _ _
            (Runs-list_each own_error (λ p e c. ground arith) first_path second_dir _ _ first_config
              (Has-map (λ (dir : Bytes). base ++ dir ∷ []) first_dir dirs m))
            λ lv1 k.
              Runs-bind (Second lv1) (Has volume_name) _ _ (Runs-Second seen kept lv1 k)
                λ lv2 f. named lv1 lv2 f (lv1.errors ++ lv2.errors) refl
    where
      named :
          (lv1 lv2 : Listed)
          → Second lv1 lv2
          → (errors : List Bytes) → lv1.errors ++ lv2.errors ≡ errors
          → Runs P
              (elim errors [
                | [] ↦ pure (map (λ entry. entry.1) lv2.entries)
                | e ∷ errors ↦ raise (failure (join_lines (e ∷ errors)))
              ])
              (Has volume_name)
      named lv1 lv2 f [] e =
          let (e1, e2) = nil_of_append lv1.errors lv2.errors e in
          Runs-pure (Has volume_name) _ (
            Has-map (λ (entry : FilePath × Bytes). entry.1) (second_path, volume_name) lv2.entries
              (f e1 e2))
      named lv1 lv2 f (x ∷ errors) e = Runs-raise (Has volume_name) _

  -- So the folder of such a volume is found, or the listing has failed.
  pub volume_folder_exists-true :
      (seen : Schedule)
      → LosesNone seen
      → Runs P (volume_folder_exists env seen volume_name) (λ b. b ≡ true)
  unfolding volume_folder_exists
  volume_folder_exists-true seen kept =
      Runs-bind (Has volume_name) (λ b. b ≡ true) _ _ (get_volume_names-Has seen kept)
        λ names h. Runs-pure (λ b. b ≡ true) _ (has_name-Has volume_name names h)
