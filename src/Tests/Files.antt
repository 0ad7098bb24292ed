-- ===== src/Tests/Files.antt =====
-- A file system in memory, and a write of fsops/fsops.go in it.
use backupstore.Base.{
  arith, ◌≡◌, ◌≢◌, refl, Bool, true, false, ◌&&◌, Option, none, some, [], ◌∷◌, Bytes, codes,
  if◌then◌else◌, ◌=b◌, =b-eq, =b_refl,
}
use backupstore.Base.Outcome.{ok, err, panic, Error, Result}
use backupstore.Driver.{FilePath}
use backupstore.FileSystem.{FileSystem, write}
use backupstore.FileSystem.Written.{FileLaws, Ends, IsOld, IsNew, write-Ends}

abbrev Files : Type 0
Files = FilePath → Option Bytes

unfoldable pub equal : FilePath → FilePath → Bool
equal [] [] = true
equal [] (b ∷ q) = false
equal (a ∷ p) [] = false
equal (a ∷ p) (b ∷ q) = a =b b && equal p q

equal_refl : (p : FilePath) → equal p p ≡ true
unfolding equal
equal_refl [] = refl
equal_refl (a ∷ p) = ground (arith, =b_refl a, equal_refl p)

equal-eq : (p q : FilePath) → equal p q ≡ true → p ≡ q
unfolding equal
equal-eq [] [] h = refl
equal-eq [] (b ∷ q) h = absurd (ground arith)
equal-eq (a ∷ p) [] h = absurd (ground arith)
equal-eq (a ∷ p) (b ∷ q) h = ground (arith, =b-eq a b, equal-eq p q)

abbrev put : FilePath → Bytes → Files → Files
put p b w q = if equal p q then some b else w q

put_other : (p q : FilePath) (b : Bytes) (w : Files) → p ≢ q → put p b w q ≡ w q
put_other p q b w ne =
    elim (equal p q) as (λ x. equal p q ≡ x → put p b w q ≡ w q) [
      | true ↦ λ e. absurd (ne (equal-eq p q e))
      | false ↦ λ e. ground arith
    ]
      refl

put_at : (p : FilePath) (b : Bytes) (w : Files) → put p b w p ≡ some b
put_at p b w = ground (arith, equal_refl p)

abbrev rename_result : Option Bytes → Result (Unit {0})
rename_result none = err panic
rename_result (some b) = ok tt

abbrev renamed : FilePath → Files → Option Bytes → Files
renamed q w none = w
renamed q w (some b) = put q b w

abbrev files : FileSystem Files
files = record {
  local_path = λ p. codes "mnt" ∷ p;
  base = codes "backupstore";
  now = λ w. (1, w);
  format_int = λ n. n ∷ [];
  trim_space = λ s. s;
  stat = λ p w. (none, w);
  mkdir_all = λ p w. (ok tt, w);
  create = λ p w. (ok tt, put p [] w);
  copy = λ p b w. (ok tt, put p b w);
  close = λ p w. (ok tt, w);
  rename = λ p q w. (rename_result (w p), renamed q w (w p));
  remove_all = λ p w. (ok tt, w);
  remove = λ p w. (ok tt, w);
  open_read = λ p w. (elim (w p) [ none ↦ err panic | some b ↦ ok b ], w);
  execute_ls = λ p w. (ok [], w);
  copy_from_host = λ s p w. (ok tt, put p s w);
  copy_to_host = λ p d w. (ok tt, w);
  execute_mv = λ p q w. (ok tt, elim (w p) [ none ↦ w | some b ↦ put q b w ]);
}

rename_set :
    (p q : FilePath) (w : Files) → (files.rename p q w).0 ≡ ok tt → (files.rename p q w).1 q ≡ w p
rename_set p q w e = at (w p) e
  where
    at : (c : Option Bytes) → rename_result c ≡ ok tt → renamed q w c q ≡ c
    at none e = absurd (ground arith)
    at (some b) e = put_at q b w

rename_same :
    (p q r : FilePath) (x : Error) (w : Files)
    → (files.rename p q w).0 ≡ err x
    → (files.rename p q w).1 r ≡ w r
rename_same p q r x w e = at (w p) e
  where
    at : (c : Option Bytes) → rename_result c ≡ err x → renamed q w c r ≡ w r
    at none e = refl
    at (some b) e = absurd (ground arith)

local_apart : (p q : FilePath) → p ≢ q → files.local_path p ≢ files.local_path q
local_apart p q ne e = ne (ground arith)

abbrev file_laws : FileLaws files
file_laws = record {
  content = λ w p. w p;
  local_apart = local_apart;
  now_same = λ q w. refl;
  mkdir_same = λ p q w. refl;
  create_other = λ p q w. put_other p q [] w;
  create_ok = λ p w e. put_at p [] w;
  copy_other = λ p q b w. put_other p q b w;
  copy_ok = λ p b w h e. put_at p b w;
  close_same = λ p q w. refl;
  rename_ok = rename_set;
  rename_err = rename_same;
}

write-Ends_example :
    Ends
      (IsOld files file_laws (codes "volume.cfg" ∷ []) (1 ∷ []) (some (2 ∷ [])))
      (write files (codes "volume.cfg" ∷ []) (1 ∷ []))
      (IsNew files file_laws (codes "volume.cfg" ∷ []) (1 ∷ []))
      (IsOld files file_laws (codes "volume.cfg" ∷ []) (1 ∷ []) (some (2 ∷ [])))
write-Ends_example = write-Ends files file_laws (codes "volume.cfg" ∷ []) (1 ∷ []) (some (2 ∷ []))
