-- ===== src/Blocks/Sort/Slots.antt =====
-- The slots of sortBackupBlocks (deltablock.go): filled from the blocks, and collected.
use backupstore.Base.{
  ℕ, zero, suc, ◌+◌, ◌*◌, ◌/◌, ◌%◌, ◌<◌, ◌≡◌, ◌≢◌, refl, Option, none, some, List, [], ◌∷◌, arith,
  ltb, ◌==◌, if◌then◌else◌, Bytes, set, length, replicate, get_elem?, All, inl, inr, Bool-cases,
}
use backupstore.Base.Outcome.{ok}
use backupstore.Blocks.Merge.{or_else}
use backupstore.Blocks.Mapping.{BlockMapping, lookup, Ascending, lookup_below, Ascending-mono}
use backupstore.Blocks.Sort.{fill_slots, collect_slots}

pub collect-Ascending :
    (b i : ℕ) (slots : List Bytes) → 0 < b → Ascending (i * b) (collect_slots b i slots)
unfolding collect_slots
collect-Ascending b i [] h = tt
collect-Ascending b i ([] ∷ slots) h =
    Ascending-mono (i * b) ((i + 1) * b) _ (grind arith) (collect-Ascending b (i + 1) slots h)
collect-Ascending b i ((x ∷ c) ∷ slots) h = (
  omega arith,
  Ascending-mono (i * b + 1) ((i + 1) * b) _ (grind arith) (collect-Ascending b (i + 1) slots h),
)

-- The checksum in a slot, if the slot is in use.
abbrev pub in_use : Option Bytes → Option Bytes
in_use none = none
in_use (some []) = none
in_use (some (x ∷ c)) = some (x ∷ c)

slot_ne : (b i j k : ℕ) → 0 < b → i + suc j ≡ k → i * b ≢ k * b
slot_ne b i j k h e p = grind arith

pub lookup-collect :
    (b i j k : ℕ) (slots : List Bytes)
    → 0 < b
    → i + j ≡ k
    → lookup (k * b) (collect_slots b i slots) ≡ in_use (get_elem? slots j)
unfolding collect_slots lookup
lookup-collect b i j k [] h e = refl
lookup-collect b i zero k ([] ∷ slots) h e =
    lookup_below ((i + 1) * b) (k * b) _ (collect-Ascending b (i + 1) slots h) (grind arith)
lookup-collect b i zero k ((x ∷ c) ∷ slots) h e =
    let e' : i ≡ k = omega arith in rw e' (ground arith)
lookup-collect b i (suc j) k ([] ∷ slots) h e = lookup-collect b (i + 1) j k slots h (omega arith)
lookup-collect b i (suc j) k ((x ∷ c) ∷ slots) h e =
    ground (arith, slot_ne b i j k h e, lookup-collect b (i + 1) j k slots h)

get_elem?-set {ℓ} :
    {A : Type ℓ} (xs : List A) (i k : ℕ) (v : A)
    → i < length xs
    → get_elem? (set xs i v) k ≡ (if i == k then some v else get_elem? xs k)
get_elem?-set [] i k v h = elim h [ ]
get_elem?-set (x ∷ xs) zero zero v h = refl
get_elem?-set (x ∷ xs) zero (suc k) v h = ground arith
get_elem?-set (x ∷ xs) (suc i) zero v h = ground arith
get_elem?-set (x ∷ xs) (suc i) (suc k) v h = ground (arith, get_elem?-set xs i k v)

-- The checksum of the last block at an offset.
pub last_lookup : ℕ → List BlockMapping → Option Bytes
last_lookup o [] = none
last_lookup o (b ∷ bs) =
    or_else (last_lookup o bs) (if b.offset == o then some b.block_checksum else none)

-- A block at a multiple of the block size, with a checksum.
abbrev pub IsAligned : ℕ → BlockMapping → Type 0
IsAligned block_size b = (b.offset % block_size ≡ 0) × (b.block_checksum ≢ [])

-- An aligned offset is in slot `k` exactly when it is `k` blocks.
slot_test : (o b k : ℕ) → 0 < b → o % b ≡ 0 → (o / b == k) ≡ (o == k * b)
slot_test o b k h e = grind arith

pub get_elem?-fill :
    (b k : ℕ) (blocks : List BlockMapping) (slots out : List Bytes)
    → 0 < b
    → All (IsAligned b) blocks
    → fill_slots b blocks slots ≡ ok out
    → get_elem? out k ≡ or_else (last_lookup (k * b) blocks) (get_elem? slots k)
unfolding fill_slots last_lookup
get_elem?-fill b k [] slots out h a e = ground arith
get_elem?-fill b k (d ∷ ds) slots out h a e =
    elim (Bool-cases (ltb (d.offset / b) (length slots))) [
      | inl inside ↦ ground (
        arith,
        slot_test d.offset b k h a.0.0,
        get_elem?-set slots (d.offset / b) k d.block_checksum,
        get_elem?-fill b k ds (set slots (d.offset / b) d.block_checksum) out h a.1,
      )
      | inr outside ↦ ground arith
    ]

-- The collected offsets are multiples of the block size.
multiple : (i b o : ℕ) → 0 < b → o % b ≢ 0 → i * b ≢ o
multiple i b o h e p = grind arith

pub lookup-collect_none :
    (b i o : ℕ) (slots : List Bytes) → 0 < b → o % b ≢ 0 → lookup o (collect_slots b i slots) ≡ none
unfolding collect_slots lookup
lookup-collect_none b i o [] h e = refl
lookup-collect_none b i o ([] ∷ slots) h e = lookup-collect_none b (i + 1) o slots h e
lookup-collect_none b i o ((x ∷ c) ∷ slots) h e =
    ground (arith, multiple i b o h e, lookup-collect_none b (i + 1) o slots h e)

pub last_lookup-aligned :
    (b o : ℕ) (blocks : List BlockMapping)
    → All (IsAligned b) blocks
    → o % b ≢ 0
    → last_lookup o blocks ≡ none
unfolding last_lookup
last_lookup-aligned b o [] a e = refl
last_lookup-aligned b o (d ∷ ds) a e = ground (arith, last_lookup-aligned b o ds a.1 e)

-- The checksum of an aligned block is not empty.
pub in_use-last_lookup :
    (b o : ℕ) (blocks : List BlockMapping)
    → All (IsAligned b) blocks
    → in_use (last_lookup o blocks) ≡ last_lookup o blocks
unfolding last_lookup
in_use-last_lookup b o [] a = refl
in_use-last_lookup b o (d ∷ ds) a = ground (arith, in_use-last_lookup b o ds a.1)

pub get_elem?-replicate : (n k : ℕ) → in_use (get_elem? (replicate n []) k) ≡ none
get_elem?-replicate zero k = refl
get_elem?-replicate (suc n) zero = refl
get_elem?-replicate (suc n) (suc k) = get_elem?-replicate n k

pub in_use-or_else :
    (o p : Option Bytes) → in_use o ≡ o → in_use p ≡ none → in_use (or_else o p) ≡ o
in_use-or_else none p e h = h
in_use-or_else (some c) p e h = e
