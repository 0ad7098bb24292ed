-- ===== src/Gc/Entries.antt =====
-- The map of block infos of DeleteDeltaBlockBackup (deltablock.go) has one entry for a checksum, and
-- every present block has the path of its checksum.
use backupstore.Base.{
  ℕ, ◌+◌, ◌≡◌, ◌<◌, ◌≤◌, refl, false, List, [], ◌∷◌, arith, Bytes, if◌then◌else◌, ◌=b◌, =b_iff, All,
  inl, inr, Bool-cases, ◌⊎◌,
}
use backupstore.Base.Outcome.{Result, ok, err}
use backupstore.Driver.{FilePath}
use backupstore.Blocks.Mapping.{BlockMapping}
use backupstore.Gc.Infos.{
  BlockInfo, IsReferenced, put_info, init_infos, count_reference, check_block_reference_count,
}

pub entries : Bytes → List BlockInfo → ℕ
entries c [] = 0
entries c (i ∷ infos) = (if i.checksum =b c then 1 else 0) + entries c infos

entries-count_ne :
    (c d : Bytes) (infos : List BlockInfo)
    → (d =b c) ≡ false
    → entries c (count_reference d infos) ≡ entries c infos
unfolding entries count_reference
entries-count_ne c d [] h = ground (arith)
entries-count_ne c d (i ∷ infos) h = ground (arith, entries-count_ne c d infos)

entries-count_le :
    (c d : Bytes) (infos : List BlockInfo)
    → entries c infos ≤ 1
    → entries c (count_reference d infos) ≤ 1
unfolding entries count_reference
entries-count_le c d [] h = ground arith
entries-count_le c d (i ∷ infos) h = ground (
  arith,
  entries-count_ne c d infos,
  entries-count_le c d infos,
  =b_iff i.checksum c,
  =b_iff i.checksum d,
  =b_iff d c,
)

entries-put_ne :
    (c : Bytes) (j : BlockInfo) (infos : List BlockInfo)
    → (j.checksum =b c) ≡ false
    → entries c (put_info j infos) ≡ entries c infos
unfolding entries put_info
entries-put_ne c j [] h = ground arith
entries-put_ne c j (i ∷ infos) h = ground (
  arith,
  entries-put_ne c j infos,
  =b_iff i.checksum c,
  =b_iff i.checksum j.checksum,
  =b_iff j.checksum c,
)

entries-put_le :
    (c : Bytes) (j : BlockInfo) (infos : List BlockInfo)
    → entries c infos ≤ 1
    → entries c (put_info j infos) ≤ 1
unfolding entries put_info
entries-put_le c j [] h = ground arith
entries-put_le c j (i ∷ infos) h = ground (
  arith,
  entries-put_ne c j infos,
  entries-put_le c j infos,
  =b_iff i.checksum c,
  =b_iff i.checksum j.checksum,
  =b_iff j.checksum c,
)

module _ (path_of : Bytes → Result FilePath) where
  -- The path of an info is empty, or that of its checksum.
  abbrev pub IsLocated : BlockInfo → Type 0
  IsLocated i = (i.path ≡ []) ⊎ (path_of i.checksum ≡ ok i.path)

  -- What holds of the infos while DeleteDeltaBlockBackup counts.
  pub record WellFormed (c : Bytes) (infos : List BlockInfo) : Type 0 where
    pub once : entries c infos ≤ 1
    pub located : All IsLocated infos

  pub WellFormed-nil : (c : Bytes) → WellFormed c []
  unfolding entries
  WellFormed-nil c = record { once = omega arith; located = tt }

  count-IsLocated :
      (d : Bytes) (infos : List BlockInfo)
      → All IsLocated infos
      → All IsLocated (count_reference d infos)
  unfolding count_reference
  count-IsLocated d [] h = (inl refl, tt)
  count-IsLocated d (i ∷ infos) h = ground (arith, h.0, h.1, count-IsLocated d infos h.1)

  put-IsLocated :
      (j : BlockInfo) (infos : List BlockInfo)
      → IsLocated j
      → All IsLocated infos
      → All IsLocated (put_info j infos)
  unfolding put_info
  put-IsLocated j [] hj h = (hj, tt)
  put-IsLocated j (i ∷ infos) hj h = ground (arith, h.0, h.1, put-IsLocated j infos hj h.1)

  pub check-WellFormed :
      (c : Bytes) (infos : List BlockInfo) (blocks : List BlockMapping)
      → WellFormed c infos
      → WellFormed c (check_block_reference_count infos blocks)
  unfolding check_block_reference_count
  check-WellFormed c infos [] h = h
  check-WellFormed c infos (b ∷ blocks) h =
      check-WellFormed c (count_reference b.block_checksum infos) blocks (record {
        once = entries-count_le c b.block_checksum infos h.once;
        located = count-IsLocated b.block_checksum infos h.located;
      })

  pub init-WellFormed :
      (c : Bytes) (names : List Bytes) (infos out : List BlockInfo)
      → WellFormed c infos
      → init_infos path_of names infos ≡ ok out
      → WellFormed c out
  unfolding init_infos
  init-WellFormed c [] infos out h e = let same : infos ≡ out = ground arith in rw same at h
  init-WellFormed c (name ∷ names) infos out h e =
      go (path_of name) refl e (λ next. init-WellFormed c names next out)
    where
      entry : FilePath → BlockInfo
      entry path = record { checksum = name; path = path; refcount = 0 }

      go :
          (r : Result FilePath)
          → path_of name ≡ r
          → (elim r as (λ _. Result (List BlockInfo)) [
            | err x ↦ err x
            | ok path ↦ init_infos path_of names (put_info (entry path) infos)
          ])
            ≡ ok out
          → ((next : List BlockInfo)
              → WellFormed c next
              → init_infos path_of names next ≡ ok out
              → WellFormed c out)
          → WellFormed c out
      go (err x) f e k = absurd (ground arith)
      go (ok path) f e k =
          k (put_info (entry path) infos)
            (record {
              once = entries-put_le c (entry path) infos h.once;
              located = put-IsLocated (entry path) infos (inr f) h.located;
            })
            e

none_left :
    (c : Bytes) (infos : List BlockInfo)
    → entries c infos ≡ 0
    → All (λ i. ((i.checksum =b c) ≡ false) ⊎ (0 < i.refcount)) infos
unfolding entries
none_left c [] h = tt
none_left c (i ∷ infos) h = elim (Bool-cases (i.checksum =b c)) [
  | inl t ↦ absurd (ground arith)
  | inr t ↦ (inl t, none_left c infos (ground arith))
]

pub All-kept :
    (c : Bytes) (infos : List BlockInfo)
    → entries c infos ≤ 1
    → IsReferenced c infos
    → All (λ i. ((i.checksum =b c) ≡ false) ⊎ (0 < i.refcount)) infos
unfolding entries
All-kept c [] h r = tt
All-kept c (i ∷ infos) h r = elim (Bool-cases (i.checksum =b c)) [
  | inl t ↦ (inr (ground arith), none_left c infos (ground arith))
  | inr t ↦ (inl t, All-kept c infos (ground arith) (rw t at r))
]
