-- ===== src/Util/Names/Extract.antt =====
-- ExtractNames of util/util.go takes back what the file names were made of.
use backupstore.Base.{
  none, ◌-◌, ◌≡◌, refl, true, false, some, [], ◌∷◌, ◌++◌, arith, ◌==◌, Bytes, =b_iff, ap, length,
  take, drop, length-append, List, All, Has, inl, Option, inr,
}
use mathlib.Core.List.{append_assoc}
use backupstore.Util.Names.{
  validate_name, has_prefix, has_suffix, trim_prefix, trim_suffix, trim_left_slash, extract_name,
  extract_name_lem, extract_names,
}

has_prefix-append : (p s : Bytes) → has_prefix (p ++ s) p ≡ true
unfolding has_prefix
has_prefix-append [] [] = refl
has_prefix-append [] (x ∷ s) = refl
has_prefix-append (c ∷ p) s = ground (arith, has_prefix-append p s)

drop-append : (p s : Bytes) → drop (length p) (p ++ s) ≡ s
drop-append [] s = refl
drop-append (c ∷ p) s = drop-append p s

take-append : (p s : Bytes) → take (length p) (p ++ s) ≡ p
take-append [] s = refl
take-append (c ∷ p) s = ap (◌∷◌ c) (take-append p s)

-- A file name of which ExtractNames drops no leading "/".
abbrev pub NoSlash : Bytes → Type 0
NoSlash [] = Unit {0}
NoSlash (c ∷ s) = (c == b'/') ≡ false

length_sub : (p s : Bytes) → length (p ++ s) - length s ≡ length p
length_sub p s = omega (arith, length-append p s)

has_suffix-append : (p s : Bytes) → has_suffix (p ++ s) s ≡ true
unfolding has_suffix
has_suffix-append p s =
    rw (length_sub p s, drop-append p s) (ground (arith, length-append p s, =b_iff s s))

trim_suffix-append : (p s : Bytes) → trim_suffix (p ++ s) s ≡ p
unfolding trim_suffix
trim_suffix-append p s = ground (arith, has_suffix-append p s, length_sub p s, take-append p s)

trim_left_slash-NoSlash : (s : Bytes) → NoSlash s → trim_left_slash s ≡ s
unfolding trim_left_slash
trim_left_slash-NoSlash [] h = refl
trim_left_slash-NoSlash (c ∷ s) h = rw h

NoSlash-valid : (name rest : Bytes) → validate_name name ≡ true → NoSlash (name ++ rest)
unfolding validate_name
NoSlash-valid [] rest h = absurd (ground arith)
NoSlash-valid (c ∷ []) rest h = absurd (ground arith)
NoSlash-valid (c ∷ d ∷ name) rest h = ground arith

NoSlash-prefix :
    (prefix name rest : Bytes)
    → NoSlash prefix
    → validate_name name ≡ true
    → NoSlash (prefix ++ (name ++ rest))
NoSlash-prefix [] name rest n v = NoSlash-valid name rest v
NoSlash-prefix (c ∷ prefix) name rest n v = n

trim_prefix-append : (p s : Bytes) → trim_prefix (p ++ s) p ≡ s
unfolding trim_prefix
trim_prefix-append p s = ground (arith, has_prefix-append p s, drop-append p s)

has_suffix-end : (p n s : Bytes) → has_suffix (p ++ (n ++ s)) s ≡ true
has_suffix-end p n s = rw (← append_assoc p n s) (has_suffix-append (p ++ n) s)

-- The name of a file `prefix name suffix` is extracted again, if it is valid and the prefix does
-- not begin with a slash.
pub extract_name-of :
    (prefix name suffix : Bytes)
    → NoSlash prefix
    → validate_name name ≡ true
    → extract_name prefix suffix (prefix ++ (name ++ suffix)) ≡ some name
extract_name-of prefix name suffix n v = rw extract_name_lem (
    rw
      (
        trim_left_slash-NoSlash (prefix ++ (name ++ suffix))
            (NoSlash-prefix prefix name suffix n v),
        has_prefix-append prefix (name ++ suffix),
        has_suffix-end prefix name suffix,
        trim_prefix-append prefix (name ++ suffix),
        trim_suffix-append name suffix,
        v,
      )
      refl)

-- A listed file with such a name gives the name back among the extracted ones.
pub extract_names-Has :
    (prefix name suffix : Bytes) (files : List Bytes)
    → NoSlash prefix
    → validate_name name ≡ true
    → Has (prefix ++ (name ++ suffix)) files
    → Has name (extract_names files prefix suffix)
unfolding extract_names
extract_names-Has prefix name suffix [] n v h = absurd h
extract_names-Has prefix name suffix (f ∷ files) n v (inl e) =
    rw (e) (rw (extract_name-of prefix name suffix n v, extract_names) (inl refl))
extract_names-Has prefix name suffix (f ∷ files) n v (inr h) =
    keep (extract_name prefix suffix f) (extract_names-Has prefix name suffix files n v h)
  where
    keep :
        (o : Option Bytes)
        → Has name (extract_names files prefix suffix)
        → Has name (elim o [
          | none ↦ extract_names files prefix suffix
          | some x ↦ x ∷ extract_names files prefix suffix
        ])
    keep none r = r
    keep (some x) r = inr r

extract_name-valid :
    (prefix suffix f name : Bytes)
    → extract_name prefix suffix f ≡ some name
    → validate_name name ≡ true
extract_name-valid prefix suffix f name h = ground (arith, extract_name_lem prefix suffix f)

-- Every extracted name is valid.
pub extract_names-valid :
    (prefix suffix : Bytes) (files : List Bytes)
    → All (λ name. validate_name name ≡ true) (extract_names files prefix suffix)
unfolding extract_names
extract_names-valid prefix suffix [] = tt
extract_names-valid prefix suffix (f ∷ files) =
    add (extract_name prefix suffix f) (extract_name-valid prefix suffix f)
      (extract_names-valid prefix suffix files)
  where
    add :
        (o : Option Bytes)
        → ((name : Bytes) → o ≡ some name → validate_name name ≡ true)
        → All (λ name. validate_name name ≡ true) (extract_names files prefix suffix)
        → All
            (λ name. validate_name name ≡ true)
            (elim o [
              | none ↦ extract_names files prefix suffix
              | some x ↦ x ∷ extract_names files prefix suffix
            ])
    add none v r = r
    add (some x) v r = (v x refl, r)
