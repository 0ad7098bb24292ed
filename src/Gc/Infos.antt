-- ===== src/Gc/Infos.antt =====
-- BlockInfo of deltablock.go, and the map from checksums to infos as a list with one entry for
-- each checksum.
use backupstore.Base.{
  ℕ, ◌+◌, ◌≡◌, ◌<◌, Bool, true, false, not, ◌&&◌, List, [], ◌∷◌, arith, Bytes, if◌then◌else◌, ◌=b◌,
  =b_iff, ltb, inl, inr, ◌⊎◌,
}
use backupstore.Base.Outcome.{Result, ok, err}
use backupstore.Driver.{FilePath}
use backupstore.Blocks.Mapping.{BlockMapping}

-- The empty path stands for "".
pub record BlockInfo : Type 0 where
  pub checksum : Bytes
  pub path : FilePath
  pub refcount : ℕ

-- The infos of a map are not nil.
unfoldable pub is_block_present : BlockInfo → Bool
is_block_present blk = elim blk.path [ [] ↦ false | a ∷ p ↦ true ]

unfoldable pub is_block_referenced : BlockInfo → Bool
is_block_referenced blk = ltb 0 blk.refcount

unfoldable pub is_block_safe_to_delete : BlockInfo → Bool
unfolding is_block_present is_block_referenced
is_block_safe_to_delete blk = is_block_present blk && not (is_block_referenced blk)

-- `blockInfos[key] = info`
unfoldable pub put_info : BlockInfo → List BlockInfo → List BlockInfo
put_info info [] = info ∷ []
put_info info (i ∷ infos) =
    if i.checksum =b info.checksum then info ∷ infos else i ∷ put_info info infos

-- The infos of the listed blocks, with the paths that `path_of` gives; the path of a short name is a
-- panic.
unfoldable pub init_infos :
    (Bytes → Result FilePath) → List Bytes → List BlockInfo → Result (List BlockInfo)
unfolding put_info
init_infos path_of [] infos = ok infos
init_infos path_of (name ∷ names) infos = elim (path_of name) [
  | err e ↦ err e
  | ok path ↦
      init_infos path_of names
        (put_info (record { checksum = name; path = path; refcount = 0 }) infos)
]

-- One round of checkBlockReferenceCount: an unknown block gets an info with no path.
unfoldable pub count_reference : Bytes → List BlockInfo → List BlockInfo
count_reference checksum [] = record { checksum = checksum; path = []; refcount = 1 } ∷ []
count_reference checksum (i ∷ infos) =
    if i.checksum =b checksum
    then record i { refcount = i.refcount + 1 } ∷ infos
    else i ∷ count_reference checksum infos

unfoldable pub check_block_reference_count : List BlockInfo → List BlockMapping → List BlockInfo
unfolding count_reference
check_block_reference_count infos [] = infos
check_block_reference_count infos (b ∷ blocks) =
    check_block_reference_count (count_reference b.block_checksum infos) blocks

-- There is an info for the block, with a reference.
abbrev pub IsReferenced : Bytes → List BlockInfo → Type 0
IsReferenced c [] = ⊥
IsReferenced c (i ∷ infos) = if i.checksum =b c then 0 < i.refcount else IsReferenced c infos

count_reference-IsReferenced_self :
    (c : Bytes) (infos : List BlockInfo) → IsReferenced c (count_reference c infos)
unfolding count_reference
count_reference-IsReferenced_self c [] = ground (arith, =b_iff c c)
count_reference-IsReferenced_self c (i ∷ infos) =
    ground (arith, =b_iff c c, count_reference-IsReferenced_self c infos)

count_reference-IsReferenced :
    (c d : Bytes) (infos : List BlockInfo)
    → IsReferenced c infos
    → IsReferenced c (count_reference d infos)
unfolding count_reference
count_reference-IsReferenced c d [] h = absurd h
count_reference-IsReferenced c d (i ∷ infos) h =
    ground (arith, count_reference-IsReferenced c d infos)

pub check-IsReferenced :
    (c : Bytes) (infos : List BlockInfo) (blocks : List BlockMapping)
    → IsReferenced c infos
    → IsReferenced c (check_block_reference_count infos blocks)
unfolding check_block_reference_count
check-IsReferenced c infos [] h = h
check-IsReferenced c infos (b ∷ blocks) h =
    check-IsReferenced c (count_reference b.block_checksum infos) blocks
      (count_reference-IsReferenced c b.block_checksum infos h)

-- Some block of the list has the checksum.
abbrev pub RefersTo : Bytes → List BlockMapping → Type 0
RefersTo c [] = ⊥
RefersTo c (b ∷ blocks) = (b.block_checksum ≡ c) ⊎ RefersTo c blocks

pub check-RefersTo :
    (c : Bytes) (infos : List BlockInfo) (blocks : List BlockMapping)
    → RefersTo c blocks
    → IsReferenced c (check_block_reference_count infos blocks)
unfolding check_block_reference_count
check-RefersTo c infos [] h = absurd h
check-RefersTo c infos (b ∷ blocks) (inl e) = rw e (
    check-IsReferenced c (count_reference c infos) blocks
      (count_reference-IsReferenced_self c infos))
check-RefersTo c infos (b ∷ blocks) (inr h) =
    check-RefersTo c (count_reference b.block_checksum infos) blocks h
