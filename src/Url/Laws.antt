-- ===== src/Url/Laws.antt =====
-- DecodeBackupURL (backupstore.go) reads back what EncodeBackupURL wrote.
use backupstore.Base.{
  ◌≡◌, ◌∙◌, refl, true, false, [], ◌∷◌, arith, Bytes, ◌=b◌, =b_iff, =b_refl, codes, inl, inr, ◌⊎◌,
  Bool-cases,
}
use backupstore.Base.Outcome.{ok}
use backupstore.Util.Names.{validate_name}
use backupstore.Url.{
  Values, get, add, Url, UrlLib, UrlLaws, query_of, backup_values, encode_backup_url, without_names,
  decode_backup_url,
}

-- The key has no value.
abbrev pub Lacks : Bytes → Values → Type 0
Lacks key [] = Unit {0}
Lacks key (e ∷ v) = ((e.0 =b key) ≡ false) × Lacks key v

get-add_self : (v : Values) (key value : Bytes) → Lacks key v → get (add v key value) key ≡ value
unfolding get add
get-add_self [] key value h = ground (arith, =b_refl key)
get-add_self (e ∷ v) key value h = ground (arith, get-add_self v key value h.1)

get-add_other :
    (v : Values) (key other value : Bytes)
    → (other =b key) ≡ false
    → get (add v other value) key ≡ get v key
unfolding get add
get-add_other [] key other value h = ground arith
get-add_other (e ∷ v) key other value h = ground (arith, get-add_other v key other value h)

get-Lacks : (v : Values) (key : Bytes) → Lacks key v → get v key ≡ []
unfolding get
get-Lacks [] key h = refl
get-Lacks (e ∷ v) key h = ground (arith, get-Lacks v key h.1)

Lacks-add :
    (v : Values) (key other value : Bytes)
    → (other =b key) ≡ false
    → Lacks key v
    → Lacks key (add v other value)
unfolding add
Lacks-add [] key other value h l = (h, tt)
Lacks-add (e ∷ v) key other value h l = (l.0, Lacks-add v key other value h l.1)

get_volume :
    (b n : Bytes) (v : Values)
    → Lacks (codes "volume") v
    → get (backup_values b n v) (codes "volume") ≡ n
get_volume b n v h = elim (Bool-cases (b =b [])) [
  | inl t ↦ rw t (get-add_self v (codes "volume") n h)
  | inr t ↦ rw t (
      get-add_other (add v (codes "volume") n) (codes "volume") (codes "backup") b refl
      ∙ get-add_self v (codes "volume") n h)
]

get_backup :
    (b n : Bytes) (v : Values)
    → Lacks (codes "backup") v
    → get (backup_values b n v) (codes "backup") ≡ b
get_backup b n v h = elim (Bool-cases (b =b [])) [
  | inl t ↦ rw t (
      get-add_other v (codes "backup") (codes "volume") n refl
      ∙ get-Lacks v (codes "backup") h
      ∙ ground (arith, =b_iff b []))
  | inr t ↦ rw t (
      get-add_self (add v (codes "volume") n) (codes "backup") b
        (Lacks-add v (codes "backup") (codes "volume") n refl h))
]

module _ (lib : UrlLib) (laws : UrlLaws lib) where
  -- The names come back from an encoded URL: for a valid volume name, a backup name that is valid or
  -- empty, and a destination that parses and whose query has neither a volume nor a backup, given
  -- that net/url reads back a URL whose query it encoded.
  pub decode-encode :
      (backup_name volume_name dest_url : Bytes) (u : Url)
      → validate_name volume_name ≡ true
      → (backup_name ≡ []) ⊎ (validate_name backup_name ≡ true)
      → lib.parse dest_url ≡ ok u
      → Lacks (codes "volume") (query_of lib u)
      → Lacks (codes "backup") (query_of lib u)
      → (dest : Bytes) × (decode_backup_url lib
            (encode_backup_url lib backup_name volume_name dest_url)
          ≡ ok (record { backup_name = backup_name; volume_name = volume_name; dest_url = dest }))
  unfolding decode_backup_url encode_backup_url
  decode-encode b n d u hn hb hp lv lb =
      let q = backup_values b n (query_of lib u) in
      let v = (lib.parse_query (lib.encode q)).0 in
      let e = laws.parse_encode q (codes "volume") ∙ get_volume b n (query_of lib u) lv in
      let f = laws.parse_encode q (codes "backup") ∙ get_backup b n (query_of lib u) lb in
      (
        without_names lib (record u { raw_query = lib.encode q }) v,
        rw (encode_backup_url, hp)
            (rw (decode_backup_url, laws.parse_print d u q hp) (ground (arith, e, f, =b_iff b []))),
      )
