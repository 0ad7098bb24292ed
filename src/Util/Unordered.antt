-- ===== src/Util/Unordered.antt =====
-- UnorderedEqual of util/util.go.
use backupstore.Base.{
  ◌≡◌, Bool, true, false, ◌&&◌, ◌||◌, List, [], ◌∷◌, arith, ◌==◌, Bytes, if◌then◌else◌, ◌=b◌,
  =b_iff, length, Has, ◌↔◌,
}

-- Membership in the map `known`, whose keys are the names of the list.
abbrev pub contains : List Bytes → Bytes → Bool
contains [] v = false
contains (k ∷ ks) v = k =b v || contains ks v

-- The second loop.
all_known : List Bytes → List Bytes → Bool
all_known known [] = true
all_known known (v ∷ ys) = contains known v && all_known known ys

unfoldable pub unordered_equal : List Bytes → List Bytes → Bool
unfolding all_known
unordered_equal x y = if length x == length y then all_known x y else false

pub contains_iff : (v : Bytes) (ks : List Bytes) → (contains ks v ≡ true) ↔ Has v ks
contains_iff v [] = (λ h. ground arith, λ h. absurd h)
contains_iff v (k ∷ ks) = (
  λ h. ground (arith, =b_iff k v, (contains_iff v ks).0),
  λ h. ground (arith, =b_iff k v, (contains_iff v ks).1),
)
