-- ===== src/Upload/Refers.antt =====
-- Sorting and merging the block lists (deltablock.go) brings in no block.
use backupstore.Base.{
  ℕ, zero, suc, ◌+◌, ◌/◌, ◌≡◌, ◌≢◌, refl, sym, List, [], ◌∷◌, ◌++◌, arith, Bytes, Has, inl, inr,
  ◌⊎◌, set, replicate,
}
use backupstore.Base.Outcome.{Result, ok, err}
use backupstore.Blocks.Mapping.{BlockMapping}
use backupstore.Blocks.Merge.{merge_blocks}
use backupstore.Blocks.Sort.{sort_backup_blocks, fill_slots, collect_slots}
use backupstore.Gc.Infos.{RefersTo}

pub RefersTo-append :
    (c : Bytes) (xs ys : List BlockMapping) → RefersTo c (xs ++ ys) → RefersTo c xs ⊎ RefersTo c ys
RefersTo-append c [] ys h = inr h
RefersTo-append c (x ∷ xs) ys (inl e) = inl (inl e)
RefersTo-append c (x ∷ xs) ys (inr h) = elim (RefersTo-append c xs ys h) [
  | inl k ↦ inl (inr k)
  | inr k ↦ inr k
]

pub RefersTo-left : (c : Bytes) (xs ys : List BlockMapping) → RefersTo c xs → RefersTo c (xs ++ ys)
RefersTo-left c [] ys h = absurd h
RefersTo-left c (x ∷ xs) ys (inl e) = inl e
RefersTo-left c (x ∷ xs) ys (inr h) = inr (RefersTo-left c xs ys h)

pub RefersTo-right : (c : Bytes) (xs ys : List BlockMapping) → RefersTo c ys → RefersTo c (xs ++ ys)
RefersTo-right c [] ys h = h
RefersTo-right c (x ∷ xs) ys h = inr (RefersTo-right c xs ys h)

pub RefersTo-merge :
    (c : Bytes) (ds ls : List BlockMapping)
    → RefersTo c (merge_blocks ds ls)
    → RefersTo c ds ⊎ RefersTo c ls
unfolding merge_blocks
RefersTo-merge c [] ls h = inr h
RefersTo-merge c (d ∷ ds) [] h = inl h
RefersTo-merge c (d ∷ ds) (l ∷ ls) h =
    ground
      (arith, RefersTo-merge c ds ls, RefersTo-merge c ds (l ∷ ls), RefersTo-merge c (d ∷ ds) ls)

Has-set : (c v : Bytes) (xs : List Bytes) (i : ℕ) → Has c (set xs i v) → (v ≡ c) ⊎ Has c xs
Has-set c v [] i h = absurd h
Has-set c v (x ∷ xs) zero (inl e) = inl e
Has-set c v (x ∷ xs) zero (inr h) = inr (inr h)
Has-set c v (x ∷ xs) (suc i) (inl e) = inr (inl e)
Has-set c v (x ∷ xs) (suc i) (inr h) = elim (Has-set c v xs i h) [
  | inl e ↦ inl e
  | inr k ↦ inr (inr k)
]

Has-replicate : (c : Bytes) (n : ℕ) → Has c (replicate n []) → c ≡ []
Has-replicate c zero h = absurd h
Has-replicate c (suc n) (inl e) = sym e
Has-replicate c (suc n) (inr h) = Has-replicate c n h

Has-fill :
    (b : ℕ) (c : Bytes) (bs : List BlockMapping) (slots out : List Bytes)
    → fill_slots b bs slots ≡ ok out
    → Has c out
    → RefersTo c bs ⊎ Has c slots
unfolding fill_slots
Has-fill b c [] slots out e h = ground (arith)
Has-fill b c (d ∷ bs) slots out e h = ground (
  arith,
  Has-fill b c bs (set slots (d.offset / b) d.block_checksum) out,
  Has-set c d.block_checksum slots (d.offset / b),
)

Has-collect :
    (b i : ℕ) (c : Bytes) (slots : List Bytes)
    → RefersTo c (collect_slots b i slots)
    → (c ≢ []) × Has c slots
unfolding collect_slots
Has-collect b i c [] h = absurd h
Has-collect b i c ([] ∷ slots) h = let (n, k) = Has-collect b (i + 1) c slots h in (n, inr k)
Has-collect b i c ((x ∷ d) ∷ slots) (inl e) = (λ z. ground (arith, e, z), inl e)
Has-collect b i c ((x ∷ d) ∷ slots) (inr h) =
    let (n, k) = Has-collect b (i + 1) c slots h in (n, inr k)

pub RefersTo-sort :
    (c : Bytes) (bs : List BlockMapping) (volume_size b : ℕ) (out : List BlockMapping)
    → sort_backup_blocks bs volume_size b ≡ ok out
    → RefersTo c out
    → RefersTo c bs
unfolding sort_backup_blocks
RefersTo-sort c bs volume_size b out e h = go _ refl
  where
    go :
        (r : Result (List Bytes))
        → fill_slots b bs (replicate (volume_size / b) []) ≡ r
        → RefersTo c bs
    go (ok slots) f =
        let same : out ≡ collect_slots b 0 slots = ground arith in
        let (n, k) = Has-collect b 0 c slots (rw same at h) in
        elim (Has-fill b c bs (replicate (volume_size / b) []) slots f k) [
          | inl r ↦ r
          | inr r ↦ absurd (n (Has-replicate c (volume_size / b) r))
        ]
    go (err x) f = absurd (ground arith)
