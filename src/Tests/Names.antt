-- ===== src/Tests/Names.antt =====
-- Runs of ExtractNames and UnorderedEqual.
use backupstore.Base.{◌≡◌, refl, true, List, [], ◌∷◌, Bytes, codes, inl, inr, Has, All}
use backupstore.Util.Names.{validate_name, extract_names}
use backupstore.Util.Names.Extract.{extract_names-Has, extract_names-valid}
use backupstore.Util.Unordered.{unordered_equal}

abbrev prefix : Bytes
prefix = codes "backup_"

abbrev suffix : Bytes
suffix = codes ".cfg"

abbrev name : Bytes
name = codes "backup-1"

name_valid : validate_name name ≡ true
unfolding validate_name
name_valid = refl

abbrev listing : List Bytes
listing = codes "tmp" ∷ codes "backup_backup-1.cfg" ∷ codes "backup_..cfg" ∷ []

extract_names-Has_example : Has name (extract_names listing prefix suffix)
extract_names-Has_example =
    extract_names-Has prefix name suffix listing refl name_valid (inr (inl refl))

extract_names-valid_example :
    All (λ n. validate_name n ≡ true) (extract_names listing prefix suffix)
extract_names-valid_example = extract_names-valid prefix suffix listing

extract_names_test : extract_names listing prefix suffix ≡ name ∷ []
unfolding extract_names
extract_names_test = refl

-- The test passes over how often a name occurs.
unordered_equal_test :
    unordered_equal (codes "a" ∷ codes "b" ∷ []) (codes "a" ∷ codes "a" ∷ []) ≡ true
unfolding unordered_equal
unordered_equal_test = refl
