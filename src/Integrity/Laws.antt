-- ===== src/Integrity/Laws.antt =====
-- What the reading of a block (util.go, util/util.go) returns.
use backupstore.Base.{codes, ◌≡◌, refl, [], arith, Bytes, ◌=b◌, =b_iff, =b_refl}
use backupstore.Base.Outcome.{Error, external, Result, ok, err, Exec, pure, ◌>>=◌, on_result}
use backupstore.Driver.{FilePath, Driver}
use backupstore.Driver.Runs.{Runs, OkIs_of_eq, Runs-bind, Runs-pure, Runs-if, Runs-raise}
use backupstore.Config.Paths.{Site, get_checksum}
use backupstore.Util.Names.{has_prefix}
use backupstore.Integrity.{
  contains_text, Readers, new_decompression_reader, decompress_and_verify,
  alternative_decompression, decompress_and_verify_with_fallback,
}

-- What was returned without an error is returned; the other case is its own.
Runs-on_result_of :
    {W : Type 0} {P : W → Type 0} (Q : Bytes → Type 0) {g : Error → Exec W Bytes} (r : Result Bytes)
    → ((a : Bytes) → r ≡ ok a → Q a)
    → ((e : Error) → Runs P (g e) Q)
    → Runs P (on_result r (λ block. pure block) g) Q
unfolding on_result
Runs-on_result_of Q (ok a) k f = Runs-pure Q a (k a refl)
Runs-on_result_of Q (err e) k f = f e

module _ (readers : Readers) (site : Site) where
  verify-checksum :
      (method src checksum block : Bytes)
      → decompress_and_verify readers site method src checksum ≡ ok block
      → get_checksum site block ≡ checksum
  unfolding decompress_and_verify
  verify-checksum method src checksum block h =
      ground (arith, =b_iff (get_checksum site block) checksum)

  verify-ok :
      (method src block : Bytes)
      → new_decompression_reader readers site method src ≡ ok (ok block)
      → decompress_and_verify readers site method src (get_checksum site block) ≡ ok block
  unfolding decompress_and_verify
  verify-ok method src block h =
      rw (decompress_and_verify, h) (ground (arith, =b_refl (get_checksum site block)))

  module _ {W : Type 0} (driver : Driver W) (blk_file : FilePath) where
    Runs-checksum :
        (decompression checksum : Bytes)
        → Runs
            (λ _. Unit {0})
            (decompress_and_verify_with_fallback readers site driver blk_file decompression
              checksum)
            (λ block. get_checksum site block ≡ checksum)
    unfolding decompress_and_verify_with_fallback
    Runs-checksum decompression checksum =
        Runs-bind (λ _. Unit {0}) Q _ _ read
          λ src _. Runs-on_result_of Q _ (verify-checksum decompression src checksum) λ e.
            Runs-if Q (alternative_decompression e =b []) _ _ (λ _. Runs-raise Q _)
              (λ _.
                Runs-bind (λ _. Unit {0}) Q _ _ read
                  λ retried _.
                    Runs-on_result_of Q _
                      (verify-checksum (alternative_decompression e) retried checksum)
                      λ f. Runs-raise Q _)
      where
        Q : Bytes → Type 0
        Q block = get_checksum site block ≡ checksum

        read : Runs (λ _. Unit {0}) (driver.read blk_file) (λ _. Unit {0})
        read = record { at = λ w h. (tt, OkIs_of_eq _ _ (λ _ _. tt)) }

    -- A block that is read has the checksum that was asked for, whichever method decompressed it and
    -- whatever the driver returned.
    pub fallback-checksum :
        (decompression checksum block : Bytes) (w : W)
        → (decompress_and_verify_with_fallback readers site driver blk_file decompression checksum
            w).0
          ≡ ok block
        → get_checksum site block ≡ checksum
    fallback-checksum decompression checksum block w h =
        rw h at ((Runs-checksum decompression checksum).at w tt).1

    -- The file was compressed by the other method than the one that is asked for: the reader of this
    -- one refuses its header, and the other reader gives the block.
    pub data IsOther (src block : Bytes) : Bytes → Type 0 where
      lz4_file :
          readers.gzip src ≡ err (external (codes "gzip: invalid header"))
          → readers.lz4 src ≡ ok block
          → IsOther src block (codes "gzip")
      gzip_file :
          readers.lz4 src ≡ err (external (codes "lz4: bad magic number"))
          → readers.gzip src ≡ ok (ok block)
          → IsOther src block (codes "lz4")

    -- A file that was compressed by lz4 is read where gzip is asked for, and the other way round: when
    -- the first reader's error is that of a wrong header, and both reads give the file.
    pub fallback-second :
        (method src block : Bytes) (w : W)
        → IsOther src block method
        → (driver.read blk_file w).0 ≡ ok src
        → (driver.read blk_file (driver.read blk_file w).1).0 ≡ ok src
        → (decompress_and_verify_with_fallback readers site driver blk_file method
            (get_checksum site block)
            w).0
          ≡ ok block
    unfolding decompress_and_verify_with_fallback ◌>>=◌ on_result pure decompress_and_verify
        new_decompression_reader alternative_decompression contains_text has_prefix
    fallback-second method src block w (lz4_file g l) r r' =
        rw (r, g, r', l, =b_refl (get_checksum site block)) refl
    fallback-second method src block w (gzip_file l g) r r' =
        rw (r, l, r', g, =b_refl (get_checksum site block)) refl
