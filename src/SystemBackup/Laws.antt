-- ===== src/SystemBackup/Laws.antt =====
-- ParseSystemBackupURL undoes GetSystemBackupURL (systembackup/system_backup.go), and a download is
-- checked.
use backupstore.Base.{
  ==_cases, inl, inr, ℕ, ◌≡◌, ◌∙◌, ◌≢◌, refl, sym, ap, Bool, true, not, ◌&&◌, List, [], ◌∷◌, ◌++◌,
  arith, Bytes, codes, ◌==◌, All, if◌then◌else◌,
}
use backupstore.Base.Outcome.{ok}
use backupstore.Url.{Url, UrlLib}
use backupstore.SystemBackup.Urls.{system_backup_directory, join_slash, split_slash}
use backupstore.Integrity.{contains_text}

abbrev pub no_slash : Bytes → Bool
no_slash [] = true
no_slash (c ∷ s) = not (c == b'/') && no_slash s

-- A string without "/".
abbrev pub IsComponent : Bytes → Type 0
IsComponent s = no_slash s ≡ true

-- A name that filepath.Clean leaves as it is, in a path.
pub record IsName (s : Bytes) : Type 0 where
  pub component : IsComponent s
  pub not_empty : s ≢ []
  pub not_here : s ≢ codes "."
  pub not_above : s ≢ codes ".."

-- The path of a target: none, beside a host; "/"; or a clean directory.
pub data TargetPath : Type 0 where
  bare root : TargetPath
  directory : Bytes → List Bytes → TargetPath

abbrev pub absolute : List Bytes → Bytes
absolute names = b'/' ∷ join_slash names

abbrev pub path_of : TargetPath → Bytes
path_of bare = []
path_of root = codes "/"
path_of (directory n ns) = absolute (n ∷ ns)

-- What the path begins a path below it with.
abbrev pub below : TargetPath → List Bytes
below bare = []
below root = []
below (directory n ns) = n ∷ ns

abbrev pub IsTarget : TargetPath → Url → Type 0
IsTarget bare u = (u.path ≡ []) × (u.host ≢ [])
IsTarget root u = u.path ≡ codes "/"
IsTarget (directory n ns) u = (u.path ≡ absolute (n ∷ ns)) × All IsName (n ∷ ns)

-- What the program relies on of filepath.Join and net/url here. Names are joined to a clean path with
-- one "/" before each, but for the first after an empty path. A URL whose path was replaced by a clean
-- absolute one parses to itself; where it was replaced by names, beside a host, a "/" comes first.
pub record PathLaws (lib : UrlLib) (join_path : Bytes → List Bytes → Bytes) : Type 0 where
  pub join_bare :
      (q : Bytes) (qs : List Bytes)
      → All IsName (q ∷ qs)
      → join_path [] (q ∷ qs) ≡ join_slash (q ∷ qs)
  pub join_root :
      (q : Bytes) (qs : List Bytes)
      → All IsName (q ∷ qs)
      → join_path (codes "/") (q ∷ qs) ≡ absolute (q ∷ qs)
  pub join_directory :
      (n q : Bytes) (ns qs : List Bytes)
      → All IsName (n ∷ ns)
      → All IsName (q ∷ qs)
      → join_path (absolute (n ∷ ns)) (q ∷ qs) ≡ absolute (n ∷ ns ++ q ∷ qs)
  pub parse_absolute :
      (s : Bytes) (u : Url) (t : TargetPath) (q : Bytes) (qs : List Bytes)
      → lib.parse s ≡ ok u
      → IsTarget t u
      → All IsName (q ∷ qs)
      → lib.parse (lib.print (record u { path = absolute (q ∷ qs) }))
        ≡ ok (record u { path = absolute (q ∷ qs) })
  pub parse_relative :
      (s : Bytes) (u : Url) (q : Bytes) (qs : List Bytes)
      → lib.parse s ≡ ok u
      → u.host ≢ []
      → All IsName (q ∷ qs)
      → lib.parse (lib.print (record u { path = join_slash (q ∷ qs) }))
        ≡ ok (record u { path = absolute (q ∷ qs) })

split-cons : (s : Bytes) → (p : Bytes) × (ps : List Bytes) × (split_slash s ≡ p ∷ ps)
unfolding split_slash
split-cons [] = ([], [], refl)
split-cons (c ∷ s) =
    let (p, ps, e) = split-cons s in
    elim (==_cases c b'/') [
      | inl h ↦ ([], p ∷ ps, ground (arith, e, h))
      | inr h ↦ (c ∷ p, ps, ground (arith, e, h))
    ]

join-step :
    (c : ℕ) (p : Bytes) (ps : List Bytes) → join_slash ((c ∷ p) ∷ ps) ≡ c ∷ join_slash (p ∷ ps)
unfolding join_slash
join-step c p [] = refl
join-step c p (q ∷ ps) = refl

join-split : (s : Bytes) → join_slash (split_slash s) ≡ s
unfolding join_slash split_slash
join-split [] = refl
join-split (c ∷ s) =
    let (p, ps, e) = split-cons s in
    let ih : join_slash (p ∷ ps) ≡ s = ap join_slash (sym e) ∙ join-split s in
    rw e (elim (==_cases c b'/') [
      | inl h ↦ rw h.0 (ground (arith, ih, h.1))
      | inr h ↦ rw h.0 (join-step c p ps ∙ ap (λ t. c ∷ t) ih)
    ])

-- The target's path without a "/" at its end.
abbrev pub target_path : TargetPath → Bytes
target_path bare = []
target_path root = []
target_path (directory n ns) = absolute (n ∷ ns)

module _ (lib : UrlLib) (base : Bytes) (join_path : Bytes → List Bytes → Bytes)
    (laws : PathLaws lib join_path) (t : TargetPath) (u : Url) (target : IsTarget t u) where
  abbrev names : Bytes → Bytes → List Bytes
  names version name = base ∷ system_backup_directory ∷ version ∷ name ∷ []

  abbrev joined : Bytes → Bytes → Bytes
  joined version name = join_path u.path (names version name)

  -- The target as URL.String prints it without a "/" at the end of its path, which comes after it when
  -- it has a "@".
  abbrev pub printed_target : Bytes
  printed_target =
      let s = lib.print (record u { path = target_path t }) in
      if contains_text s (codes "@") then s ++ b'/' ∷ [] else s
