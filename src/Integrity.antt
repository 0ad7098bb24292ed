-- ===== src/Integrity.antt =====
-- Reading a block back: DecompressAndVerify (util/util.go) and its fallback (util.go). The readers
-- for gzip and lz4 are parameters.
pub mod Laws
use backupstore.Base.{
  Bool, true, false, ◌&&◌, ◌||◌, List, [], ◌∷◌, ◌++◌, Bytes, if◌then◌else◌, ◌=b◌, codes,
}
use backupstore.Base.Outcome.{
  on_result, Error, failure, external, panic, Result, ok, err, Exec, pure, raise, attempt, ◌>>=◌,
}
use backupstore.Driver.{FilePath, Driver}
use backupstore.Config.Paths.{Site, get_checksum}
use backupstore.Util.Names.{has_prefix}

-- err.Error(), strings.Contains and errors.Wrap.
abbrev pub error_text : Error → Bytes
error_text (failure t) = t
error_text (external t) = t
error_text panic = []

unfoldable pub contains_text : Bytes → Bytes → Bool
contains_text [] t = has_prefix [] t
contains_text (c ∷ s) t = has_prefix (c ∷ s) t || contains_text s t

abbrev pub wrap : Bytes → Error → Error
wrap message (failure t) = failure (message ++ (codes ": " ++ t))
wrap message (external t) = external (message ++ (codes ": " ++ t))
wrap message panic = panic

-- A reader is what io.ReadAll gives of it. gzip.NewReader may fail before that.
pub record Readers : Type 0 where
  pub gzip : Bytes → Result (Result Bytes)
  pub lz4 : Bytes → Result Bytes

-- The other method, when the error is that of the wrong one; "" when there is none.
unfoldable pub alternative_decompression : Error → Bytes
unfolding contains_text
alternative_decompression e =
    if contains_text (error_text e) (codes "gzip: invalid header")
    then codes "lz4"
    else if contains_text (error_text e) (codes "lz4: bad magic number")
    then codes "gzip"
    else []

module _ (readers : Readers) (site : Site) where
  unfoldable pub new_decompression_reader : Bytes → Bytes → Result (Result Bytes)
  new_decompression_reader method r =
      if method =b codes "none"
      then ok (ok r)
      else if method =b codes "gzip"
      then readers.gzip r
      else if method =b codes "lz4"
      then ok (readers.lz4 r)
      else err (failure (codes "unsupported decompression method"))

  unfoldable pub decompress_and_verify : Bytes → Bytes → Bytes → Result Bytes
  unfolding new_decompression_reader
  decompress_and_verify method src checksum = elim (new_decompression_reader method src) [
    | err e ↦ err (wrap (codes "failed to create decompression reader") e)
    | ok (err e) ↦ err (wrap (codes "failed to read decompressed data") e)
    | ok (ok block) ↦
        if get_checksum site block =b checksum
        then ok block
        else err (failure (codes "checksum verification failed for block"))
  ]

  unfoldable pub decompress_and_verify_with_fallback :
      {W : Type 0} → Driver W → FilePath → Bytes → Bytes → Exec W Bytes
  decompress_and_verify_with_fallback driver blk_file decompression checksum = do
    src ← driver.read blk_file
    on_result (decompress_and_verify decompression src checksum) (λ block. pure block)
        (λ e.
          if alternative_decompression e =b []
          then raise (wrap (codes "decompression verification failed for block") e)
          else (do
            retried ← driver.read blk_file
            on_result (decompress_and_verify (alternative_decompression e) retried checksum)
                (λ block. pure block)
                (λ f. raise (wrap (codes "fallback decompression also failed for block") f))))
