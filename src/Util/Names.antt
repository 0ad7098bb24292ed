-- ===== src/Util/Names.antt =====
-- ValidateName and ExtractNames of util/util.go, over the bytes of a string.
pub mod Extract
use backupstore.Base.{
  ℕ, zero, suc, ◌+◌, ◌-◌, ◌≤◌, ◌<◌, ◌≡◌, refl, Bool, true, false, not, ◌&&◌, ◌||◌, Option, none,
  some, List, [], ◌∷◌, ◌++◌, arith, ltb, leb, ◌==◌, Bytes, if◌then◌else◌, ◌=b◌, =b_iff, map, ◌∙◌,
  ap, All, sym, codes, length, take, drop, length-append, inl, inr, Bool-cases, Has, ◌↔◌,
}

-- [a-zA-Z0-9]
is_alnum : ℕ → Bool
is_alnum c = leb b'a' c && leb c b'z' || leb b'A' c && leb c b'Z' || leb b'0' c && leb c b'9'

-- [a-zA-Z0-9_.-]
is_name_char : ℕ → Bool
unfolding is_alnum
is_name_char c = is_alnum c || c == b'_' || c == b'.' || c == b'-'

all_name_chars : Bytes → Bool
all_name_chars [] = true
all_name_chars (c ∷ cs) = is_name_char c && all_name_chars cs

-- ^[a-zA-Z0-9][a-zA-Z0-9_.-]+$
unfoldable pub validate_name : Bytes → Bool
unfolding is_alnum is_name_char all_name_chars
validate_name (c ∷ d ∷ cs) = is_alnum c && all_name_chars (d ∷ cs)
validate_name _ = false

-- strings.HasPrefix, HasSuffix, TrimPrefix, TrimSuffix and TrimLeft(s, "/").
unfoldable pub has_prefix : Bytes → Bytes → Bool
has_prefix s [] = true
has_prefix [] (p ∷ ps) = false
has_prefix (c ∷ s) (p ∷ ps) = c == p && has_prefix s ps

unfoldable pub has_suffix : Bytes → Bytes → Bool
has_suffix s suffix = leb (length suffix) (length s) && drop (length s - length suffix) s =b suffix

unfoldable pub trim_prefix : Bytes → Bytes → Bytes
unfolding has_prefix
trim_prefix s prefix = if has_prefix s prefix then drop (length prefix) s else s

unfoldable pub trim_suffix : Bytes → Bytes → Bytes
unfolding has_suffix
trim_suffix s suffix = if has_suffix s suffix then take (length s - length suffix) s else s

unfoldable pub trim_left_slash : Bytes → Bytes
trim_left_slash [] = []
trim_left_slash (c ∷ s) = if c == b'/' then trim_left_slash s else c ∷ s

-- One round of the loop of ExtractNames; `none` is `continue`.
unfoldable pub extract_name : Bytes → Bytes → Bytes → Option Bytes
unfolding validate_name has_prefix has_suffix trim_prefix trim_suffix trim_left_slash
extract_name prefix suffix f =
    let f = trim_left_slash f in
    if not (has_prefix f prefix) || not (has_suffix f suffix)
    then none
    else let name = trim_suffix (trim_prefix f prefix) suffix in
      if validate_name name then some name else none

extract_name_lem :
    (prefix suffix f : Bytes)
    → extract_name prefix suffix f ≡ (
        if not (has_prefix (trim_left_slash f) prefix)
          || not (has_suffix (trim_left_slash f) suffix)
        then none
        else if validate_name (trim_suffix (trim_prefix (trim_left_slash f) prefix) suffix)
        then some (trim_suffix (trim_prefix (trim_left_slash f) prefix) suffix)
        else none)
unfolding extract_name
extract_name_lem prefix suffix f = refl

unfoldable pub extract_names : List Bytes → Bytes → Bytes → List Bytes
unfolding extract_name
extract_names [] prefix suffix = []
extract_names (f ∷ names) prefix suffix =
    let rest = extract_names names prefix suffix in
    elim (extract_name prefix suffix f) [ none ↦ rest | some name ↦ name ∷ rest ]
