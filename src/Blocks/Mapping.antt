-- ===== src/Blocks/Mapping.antt =====
-- BlockMapping of deltablock.go, and the two readings of a block list that the proofs use: the
-- checksum at an offset, and strictly ascending offsets.
use backupstore.Base.{
  ℕ, ◌+◌, ◌≤◌, ◌<◌, ◌≡◌, refl, Option, none, some, List, [], ◌∷◌, Bytes, arith, ◌==◌, if◌then◌else◌,
}

-- Offsets are non-negative.
pub record BlockMapping : Type 0 where
  pub offset : ℕ
  pub block_checksum : Bytes

-- The checksum of the first block at an offset.
unfoldable pub lookup : ℕ → List BlockMapping → Option Bytes
lookup o [] = none
lookup o (b ∷ bs) = if b.offset == o then some b.block_checksum else lookup o bs

-- Offsets ascend strictly, from `n` on.
abbrev pub Ascending : ℕ → List BlockMapping → Type 0
Ascending n [] = Unit {0}
Ascending n (b ∷ bs) = (n ≤ b.offset) × Ascending (b.offset + 1) bs

pub lookup_below : (n o : ℕ) (bs : List BlockMapping) → Ascending n bs → o < n → lookup o bs ≡ none
unfolding lookup
lookup_below n o [] h lt = refl
lookup_below n o (b ∷ bs) h lt = ground (arith, lookup_below (b.offset + 1) o bs)

pub Ascending-mono : (m n : ℕ) (bs : List BlockMapping) → m ≤ n → Ascending n bs → Ascending m bs
Ascending-mono m n [] le h = tt
Ascending-mono m n (b ∷ bs) le h = (omega arith, h.1)
