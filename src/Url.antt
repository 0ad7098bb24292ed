-- ===== src/Url.antt =====
-- EncodeBackupURL and DecodeBackupURL of backupstore.go, over net/url.
pub mod Laws
use backupstore.Base.{
  Bool, true, false, not, ◌&&◌, ◌||◌, List, [], ◌∷◌, ◌++◌, Bytes, if◌then◌else◌, ◌=b◌, codes, ◌≡◌,
}
use backupstore.Base.Outcome.{Result, ok, err, failure}
use backupstore.Util.Names.{validate_name}

-- url.Values: the pairs, those of a key in their order.
abbrev pub Values : Type 0
Values = List (Bytes × Bytes)

-- Values.Get, Add and Del; a key that is missing has "".
unfoldable pub get : Values → Bytes → Bytes
get [] key = []
get (e ∷ v) key = let rest = get v key in if e.0 =b key then e.1 else rest

unfoldable pub add : Values → Bytes → Bytes → Values
add v key value = v ++ (key, value) ∷ []

unfoldable pub del : Values → Bytes → Values
del [] key = []
del (e ∷ v) key = let rest = del v key in if e.0 =b key then rest else e ∷ rest

-- The parts of url.URL that the program reads or sets; `user` is empty without a user.
pub record Url : Type 0 where
  pub scheme : Bytes
  pub user : Bytes
  pub host : Bytes
  pub path : Bytes
  pub raw_query : Bytes

-- url.Parse, URL.String, url.ParseQuery (with whether all of it parsed) and Values.Encode.
pub record UrlLib : Type 0 where
  pub parse : Bytes → Result Url
  pub print : Url → Bytes
  pub parse_query : Bytes → Values × Bool
  pub encode : Values → Bytes

-- A URL whose query was replaced by an encoded one parses to itself, and an encoded query gives back
-- the values of every key.
pub record UrlLaws (lib : UrlLib) : Type 0 where
  pub parse_print :
      (s : Bytes) (u : Url) (v : Values)
      → lib.parse s ≡ ok u
      → lib.parse (lib.print (record u { raw_query = lib.encode v }))
        ≡ ok (record u { raw_query = lib.encode v })
  pub parse_encode :
      (v : Values) (key : Bytes) → get (lib.parse_query (lib.encode v)).0 key ≡ get v key

-- What DecodeBackupURL returns.
pub record Decoded : Type 0 where
  pub backup_name : Bytes
  pub volume_name : Bytes
  pub dest_url : Bytes

abbrev pub backup_values : Bytes → Bytes → Values → Values
backup_values backup_name volume_name v =
    let v = add v (codes "volume") volume_name in
    if backup_name =b [] then v else add v (codes "backup") backup_name

module _ (lib : UrlLib) where
  -- The query of the destination; one that does not parse counts as empty.
  abbrev pub query_of : Url → Values
  query_of u = let parsed = lib.parse_query u.raw_query in if parsed.1 then parsed.0 else []

  unfoldable pub encode_backup_url : Bytes → Bytes → Bytes → Bytes
  unfolding add
  encode_backup_url backup_name volume_name dest_url = elim (lib.parse dest_url) [
    | err e ↦ []
    | ok u ↦
        lib.print
          (record u { raw_query = lib.encode (backup_values backup_name volume_name (query_of u)) })
  ]

  -- The URL without the names, after they were read from its values.
  abbrev pub without_names : Url → Values → Bytes
  without_names u v =
      lib.print
        (record u { raw_query = lib.encode (del (del v (codes "volume")) (codes "backup")) })

  unfoldable pub decode_backup_url : Bytes → Result Decoded
  unfolding get del
  decode_backup_url backup_url = elim (lib.parse backup_url) [
    | err e ↦ err e
    | ok u ↦
        let v = (lib.parse_query u.raw_query).0 in
        if not (validate_name (get v (codes "volume")))
        then err (failure (codes "invalid volume name parsed"))
        else if not (get v (codes "backup") =b []) && not (validate_name (get v (codes "backup")))
        then err (failure (codes "invalid backup name parsed"))
        else ok (record {
          backup_name = get v (codes "backup");
          volume_name = get v (codes "volume");
          dest_url = without_names u v;
        })
  ]
