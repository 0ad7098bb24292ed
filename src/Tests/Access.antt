-- ===== src/Tests/Access.antt =====
-- URL libraries for the tests, and the store in memory behind a URL, and the round trip of backup URLs.
use backupstore.Base.{
  inr, ℕ, zero, suc, ◌≡◌, ◌∙◌, ap, refl, true, List, [], ◌∷◌, arith, Bytes, codes,
}
use backupstore.Base.Outcome.{ok}
use backupstore.Util.Names.{validate_name}
use backupstore.Url.{Url, UrlLib, UrlLaws, Values, get, encode_backup_url, decode_backup_url}
use backupstore.Url.Laws.{decode-encode}
use backupstore.Driver.Registry.{InitFunc}
use backupstore.Access.{Access}
use backupstore.Tests.Memory.{Store, memory}
use backupstore.Tests.Memory.Deletion.{env}

abbrev pub empty_url : Url
empty_url = record { scheme = codes "mem"; user = []; host = []; path = []; raw_query = [] }

-- Each name and value of a query ends with 0.
abbrev enc : Bytes → Bytes → Bytes
enc [] t = 0 ∷ t
enc (c ∷ s) t = suc c ∷ enc s t

abbrev encode : Values → Bytes
encode [] = []
encode (e ∷ v) = enc e.0 (enc e.1 (encode v))

abbrev cons_first : ℕ → List Bytes → List Bytes
cons_first c [] = []
cons_first c (s ∷ ts) = (c ∷ s) ∷ ts

unfoldable pub tokens : Bytes → List Bytes
tokens [] = []
tokens (zero ∷ s) = [] ∷ tokens s
tokens (suc c ∷ s) = cons_first c (tokens s)

unfoldable pub pairs : List Bytes → Values
pairs [] = []
pairs (k ∷ []) = []
pairs (k ∷ x ∷ ts) = (k, x) ∷ pairs ts

tokens-enc : (s t : Bytes) → tokens (enc s t) ≡ s ∷ tokens t
unfolding tokens
tokens-enc [] t = refl
tokens-enc (c ∷ s) t = ap (cons_first c) (tokens-enc s t)

pairs-encode : (v : Values) → pairs (tokens (encode v)) ≡ v
unfolding tokens pairs
pairs-encode [] = refl
pairs-encode (e ∷ v) =
    ap pairs (tokens-enc e.0 (enc e.1 (encode v)) ∙ ap (λ t. e.0 ∷ t) (tokens-enc e.1 (encode v)))
    ∙ ap (λ t. (e.0, e.1) ∷ t) (pairs-encode v)

-- A URL that is its query.
abbrev query_lib : UrlLib
query_lib = record {
  parse = λ s. ok (record empty_url { raw_query = s });
  print = λ u. u.raw_query;
  parse_query = λ s. (pairs (tokens s), true);
  encode = encode;
}

query_laws : UrlLaws query_lib
query_laws = record {
  parse_print = λ s u v e. ground arith;
  parse_encode = λ v key. ap (λ t. get t key) (pairs-encode v);
}

-- A URL that is its path.
abbrev pub path_lib : UrlLib
path_lib = record query_lib { parse = λ s. ok (record empty_url { path = s }); print = λ u. u.path }

abbrev open_memory : InitFunc Store
open_memory = λ url w. (ok memory, w)

abbrev pub access : Access Store
access = record { lib = query_lib; registry = (codes "mem", open_memory) ∷ []; env = env }

abbrev target : Bytes
target = encode ((codes "region", codes "r1") ∷ [])

names_valid : (validate_name (codes "b1") ≡ true) × (validate_name (codes "vol") ≡ true)
unfolding validate_name
names_valid = (refl, refl)

decode-encode_example :
    (dest : Bytes) × (decode_backup_url query_lib
        (encode_backup_url query_lib (codes "b1") (codes "vol") target)
      ≡ ok (record { backup_name = codes "b1"; volume_name = codes "vol"; dest_url = dest }))
unfolding tokens pairs
decode-encode_example =
    decode-encode query_lib query_laws (codes "b1") (codes "vol") target
      (record empty_url { raw_query = target }) names_valid.1 (inr names_valid.0) refl (refl, tt)
      (refl, tt)
