-- ===== src/Blocks/Restore/Plan.antt =====
-- Which block a restore (deltablock.go) writes at an offset, in whatever order the workers write.
use mathlib.Core.List.{Permᴰ}
use backupstore.Base.{
  ℕ, ◌+◌, ◌≤◌, ◌<◌, ◌≡◌, refl, true, false, Option, none, some, List, [], ◌∷◌, arith, ◌==◌, Bytes,
  if◌then◌else◌, ◌=b◌, ◌∙◌,
}
use backupstore.Blocks.Mapping.{BlockMapping, lookup, Ascending, lookup_below, Ascending-mono}
use backupstore.Blocks.Restore.{Block, populate_full, populate_incremental}

unfoldable pub plan_at : ℕ → List Block → Option Block
plan_at o [] = none
plan_at o (b ∷ bs) = if b.offset == o then some b else plan_at o bs

unfoldable pub count_at : ℕ → List Block → ℕ
count_at o [] = 0
count_at o (b ∷ bs) = (if b.offset == o then 1 else 0) + count_at o bs

pub count_at-perm : (o : ℕ) {p q : List Block} → Permᴰ p q → count_at o p ≡ count_at o q
unfolding count_at
count_at-perm o Permᴰ.nil = refl
count_at-perm o (Permᴰ.cons e r) = ground (arith, count_at-perm o r)
count_at-perm o (Permᴰ.swap e f) = ground arith
count_at-perm o (Permᴰ.trans r s) = count_at-perm o r ∙ count_at-perm o s

pub plan_at-count_zero : (o : ℕ) (p : List Block) → count_at o p ≡ 0 → plan_at o p ≡ none
unfolding plan_at count_at
plan_at-count_zero o [] h = refl
plan_at-count_zero o (b ∷ bs) h = ground (arith, plan_at-count_zero o bs)

-- Where no two blocks share the offset, the order does not matter.
pub plan_at-perm :
    (o : ℕ) {p q : List Block} → Permᴰ p q → count_at o p ≤ 1 → plan_at o p ≡ plan_at o q
unfolding plan_at count_at
plan_at-perm o Permᴰ.nil h = refl
plan_at-perm o (Permᴰ.cons e r) h = ground (arith, plan_at-perm o r)
plan_at-perm o (Permᴰ.swap e f) h = ground arith
plan_at-perm o (Permᴰ.trans {l₁ = p} {l₂ = q} r s) h =
    plan_at-perm o r h ∙ plan_at-perm o s (omega (arith, count_at-perm o r))

count_at-incremental_below :
    (m : Bytes) (n o : ℕ) (bs ls : List BlockMapping)
    → Ascending n bs
    → Ascending n ls
    → o < n
    → count_at o (populate_incremental m bs ls) ≡ 0
unfolding count_at populate_incremental
count_at-incremental_below m n o [] [] hb hl h = refl
count_at-incremental_below m n o [] (l ∷ ls) hb hl h =
    ground (arith, count_at-incremental_below m (l.offset + 1) o [] ls)
count_at-incremental_below m n o (b ∷ bs) [] hb hl h =
    ground (arith, count_at-incremental_below m (b.offset + 1) o bs [])
count_at-incremental_below m n o (b ∷ bs) (l ∷ ls) hb hl h = ground (
  arith,
  count_at-incremental_below m (b.offset + 1) o bs ls,
  count_at-incremental_below m (b.offset + 1) o bs (l ∷ ls),
  count_at-incremental_below m (l.offset + 1) o (b ∷ bs) ls,
  Ascending-mono (b.offset + 1) (l.offset + 1) ls,
)

pub count_at-incremental :
    (m : Bytes) (n o : ℕ) (bs ls : List BlockMapping)
    → Ascending n bs
    → Ascending n ls
    → count_at o (populate_incremental m bs ls) ≤ 1
unfolding count_at populate_incremental
count_at-incremental m n o [] [] hb hl = omega arith
count_at-incremental m n o [] (l ∷ ls) hb hl = ground (
  arith,
  count_at-incremental m (l.offset + 1) o [] ls,
  count_at-incremental_below m (l.offset + 1) o [] ls,
)
count_at-incremental m n o (b ∷ bs) [] hb hl = ground (
  arith,
  count_at-incremental m (b.offset + 1) o bs [],
  count_at-incremental_below m (b.offset + 1) o bs [],
)
count_at-incremental m n o (b ∷ bs) (l ∷ ls) hb hl = ground (
  arith,
  count_at-incremental m (b.offset + 1) o bs ls,
  count_at-incremental m (b.offset + 1) o bs (l ∷ ls),
  count_at-incremental m (l.offset + 1) o (b ∷ bs) ls,
  count_at-incremental_below m (b.offset + 1) o bs ls,
  count_at-incremental_below m (b.offset + 1) o bs (l ∷ ls),
  count_at-incremental_below m (l.offset + 1) o (b ∷ bs) ls,
  Ascending-mono (b.offset + 1) (l.offset + 1) ls,
)

-- What an incremental restore writes at an offset, from the checksums of the new and the last
-- backup there.
abbrev pub change : Bytes → ℕ → Option Bytes → Option Bytes → Option Block
change m o none none = none
change m o none (some d) =
    some (record { offset = o; block_checksum = []; compression_method = []; is_zero_block = true })
change m o (some c) none =
    some (record { offset = o; block_checksum = c; compression_method = m; is_zero_block = false })
change m o (some c) (some d) =
    if c =b d
    then none
    else some
        (record { offset = o; block_checksum = c; compression_method = m; is_zero_block = false })

pub plan_at-incremental :
    (m : Bytes) (n o : ℕ) (bs ls : List BlockMapping)
    → Ascending n bs
    → Ascending n ls
    → plan_at o (populate_incremental m bs ls) ≡ change m o (lookup o bs) (lookup o ls)
unfolding plan_at populate_incremental lookup
plan_at-incremental m n o [] [] hb hl = refl
plan_at-incremental m n o [] (l ∷ ls) hb hl =
    ground (arith, plan_at-incremental m (l.offset + 1) o [] ls)
plan_at-incremental m n o (b ∷ bs) [] hb hl =
    ground (arith, plan_at-incremental m (b.offset + 1) o bs [])
plan_at-incremental m n o (b ∷ bs) (l ∷ ls) hb hl = ground (
  arith,
  plan_at-incremental m (b.offset + 1) o bs ls,
  plan_at-incremental m (b.offset + 1) o bs (l ∷ ls),
  plan_at-incremental m (l.offset + 1) o (b ∷ bs) ls,
  lookup_below (b.offset + 1) o bs,
  lookup_below (l.offset + 1) o ls,
  Ascending-mono (b.offset + 1) (l.offset + 1) ls,
)

pub plan_at-full :
    (m : Bytes) (o : ℕ) (bs : List BlockMapping)
    → plan_at o (populate_full m bs) ≡ change m o (lookup o bs) none
unfolding plan_at populate_full lookup
plan_at-full m o [] = refl
plan_at-full m o (b ∷ bs) = ground (arith, plan_at-full m o bs)

count_at-full_below :
    (m : Bytes) (n o : ℕ) (bs : List BlockMapping)
    → Ascending n bs
    → o < n
    → count_at o (populate_full m bs) ≡ 0
unfolding count_at populate_full
count_at-full_below m n o [] h lt = refl
count_at-full_below m n o (b ∷ bs) h lt = ground (arith, count_at-full_below m (b.offset + 1) o bs)

pub count_at-full :
    (m : Bytes) (n o : ℕ) (bs : List BlockMapping)
    → Ascending n bs
    → count_at o (populate_full m bs) ≤ 1
unfolding count_at populate_full
count_at-full m n o [] h = omega arith
count_at-full m n o (b ∷ bs) h =
    ground (arith, count_at-full m (b.offset + 1) o bs, count_at-full_below m (b.offset + 1) o bs)
