-- ===== src/Tests/Memory.antt =====
-- A driver whose store is a list of files in memory: it keeps the contract of driver.go.
pub mod Deletion
mod Uploading
mod Backup
mod Removing
mod Single
mod Imaging
use backupstore.Base.{
  ◌≡◌, refl, Bool, true, false, ◌&&◌, Option, none, some, List, [], ◌∷◌, ◌++◌, arith, Bytes, Has,
  codes, if◌then◌else◌, ◌=b◌, =b_iff, =b_refl,
}
use backupstore.Base.Outcome.{Result, ok, err, panic}
use backupstore.Driver.{FilePath, Driver, is_above}
use backupstore.Driver.Laws.{DriverLaws}

abbrev pub Store : Type 0
Store = List (FilePath × Bytes)

abbrev same : FilePath → FilePath → Bool
same p q = is_above p q && is_above q p

unfoldable pub stored : Store → FilePath → Option Bytes
stored [] q = none
stored (f ∷ fs) q = if same f.0 q then some f.1 else stored fs q

unfoldable pub erase : FilePath → Store → Store
erase p [] = []
erase p (f ∷ fs) = if is_above p f.0 then erase p fs else f ∷ erase p fs

-- The name of the entry of directory `p` that holds the file `q`.
unfoldable pub entry : FilePath → FilePath → Option Bytes
entry [] [] = none
entry [] (b ∷ q) = some b
entry (a ∷ p) [] = none
entry (a ∷ p) (b ∷ q) = if a =b b then entry p q else none

unfoldable pub entries : FilePath → Store → List Bytes
entries p [] = []
entries p (f ∷ fs) = elim (entry p f.0) [ none ↦ entries p fs | some n ↦ n ∷ entries p fs ]

unfoldable pub result_of : Option Bytes → Result Bytes
result_of none = err panic
result_of (some b) = ok b

abbrev is_some : Option Bytes → Bool
is_some none = false
is_some (some b) = true

-- An upload stores the path of the host's file in place of its content.
abbrev pub memory : Driver Store
memory = record {
  kind = [];
  get_url = [];
  file_exists = λ p w. (is_some (stored w p), w);
  file_size = λ p w. (0, w);
  file_time = λ p w. (0, w);
  remove = λ p w. (ok tt, erase p w);
  read = λ p w. (result_of (stored w p), w);
  write = λ p b w. (ok tt, (p, b) ∷ w);
  list = λ p w. (ok (entries p w), w);
  upload = λ p q w. (ok tt, (q, p) ∷ w);
  download = λ p q w. (ok tt, (codes "host" ∷ q ∷ [], []) ∷ w);
}

is_above_refl : (p : FilePath) → is_above p p ≡ true
unfolding is_above
is_above_refl [] = refl
is_above_refl (a ∷ p) = ground (arith, =b_refl a, is_above_refl p)

is_above_trans :
    (p q r : FilePath) → is_above p q ≡ true → is_above q r ≡ true → is_above p r ≡ true
unfolding is_above
is_above_trans [] q r h k = refl
is_above_trans (a ∷ p) [] r h k = ground arith
is_above_trans (a ∷ p) (b ∷ q) [] h k = ground arith
is_above_trans (a ∷ p) (b ∷ q) (c ∷ r) h k =
    ground (arith, =b_iff a b, =b_iff b c, =b_iff a c, is_above_trans p q r)

stored-erase_other :
    (p q : FilePath) (w : Store) → is_above p q ≡ false → stored (erase p w) q ≡ stored w q
unfolding stored erase
stored-erase_other p q [] h = refl
stored-erase_other p q (f ∷ fs) h =
    ground (arith, is_above_trans p f.0 q, stored-erase_other p q fs)

stored-erase : (p q : FilePath) (w : Store) → is_above p q ≡ true → stored (erase p w) q ≡ none
unfolding stored erase
stored-erase p q [] h = refl
stored-erase p q (f ∷ fs) h = ground (arith, is_above_trans p q f.0, stored-erase p q fs)

entry-file :
    (p rest q : FilePath) (n : Bytes) → is_above (p ++ n ∷ rest) q ≡ true → entry p q ≡ some n
unfolding is_above entry
entry-file [] rest [] n h = ground arith
entry-file [] rest (b ∷ q) n h = ground (arith, =b_iff n b)
entry-file (a ∷ p) rest [] n h = ground arith
entry-file (a ∷ p) rest (b ∷ q) n h = ground (arith, entry-file p rest q n)

stored-erase-none : (p q : FilePath) (w : Store) → stored w q ≡ none → stored (erase p w) q ≡ none
unfolding stored erase
stored-erase-none p q [] h = refl
stored-erase-none p q (f ∷ fs) h = ground (arith, stored-erase-none p q fs)

entries-Has :
    (p rest : FilePath) (n b : Bytes) (w : Store)
    → stored w (p ++ n ∷ rest) ≡ some b
    → Has n (entries p w)
unfolding stored entries
entries-Has p rest n b [] h = ground arith
entries-Has p rest n b (f ∷ fs) h =
    ground (arith, entry-file p rest f.0 n, entries-Has p rest n b fs)

is_some-content : (o : Option Bytes) → is_some o ≡ true → (b : Bytes) × (o ≡ some b)
is_some-content none h = absurd (ground arith)
is_some-content (some b) h = (b, refl)

pub memory_laws : DriverLaws memory
unfolding stored result_of
memory_laws = record {
  content = stored;
  remove_other = λ p q w h. stored-erase_other p q w h;
  remove_ok = λ p q w h e. stored-erase p q w h;
  write_other = λ p q b w h. ground arith;
  write_ok = λ p b w e. ground (arith, is_above_refl p);
  file_exists_same = λ p q w. refl;
  file_time_same = λ p q w. refl;
  read_same = λ p q w. refl;
  list_same = λ p q w. refl;
  file_exists_ok = λ p w h. is_some-content (stored w p) h;
  read_ok = λ p b w e. ground arith;
  list_ok = λ p rest n b names w e h. ground (arith, entries-Has p rest n b w h);
  remove_none = λ p q w h. stored-erase-none p q w h;
}
