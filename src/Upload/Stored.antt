-- ===== src/Upload/Stored.antt =====
-- After an upload that succeeds, every block of the backup is in the store (deltablock.go).
use backupstore.Base.{
  ℕ, zero, suc, ◌+◌, ◌/◌, ◌≡◌, ◌∙◌, refl, Bool, true, false, not, ◌&&◌, some, List, [], ◌∷◌, ◌++◌,
  arith, Bytes, ◌=b◌, =b_iff, =b_refl, length, inl, inr, Bool-cases,
}
use backupstore.Base.Outcome.{Result, ok, err, pure, attempt, on_result, Exec, ◌>>=◌}
use backupstore.Driver.{FilePath}
use backupstore.Driver.Laws.{DriverLaws}
use backupstore.Driver.Leaves.{
  Leaves, Leaves-pure, Leaves-lift, Leaves-total, Leaves-if, Leaves-attempt, Leaves-bind,
  Leaves-on_result,
}
use backupstore.Blocks.Mapping.{BlockMapping}
use backupstore.Config.Paths.{get_checksum, get_block_file_path}
use backupstore.Config.Separate.{block-block}
use backupstore.Config.Store.{Env}
use backupstore.Gc.Infos.{RefersTo}
use backupstore.Upload.Table.{
  Upload, is_block_being_processed, update_blocks_and_progress, update_upload_data_size, blocks_at,
  delete,
}
use backupstore.Upload.Refers.{RefersTo-append, RefersTo-left, RefersTo-right}
use backupstore.Upload.Store.{
  BackupConfig, Mapping, store_block, backup_block, backup_blocks, backup_mapping,
}

module _ {W : Type 0} (env : Env W) (laws : DriverLaws env.driver) (config : BackupConfig W) where
  open env use {driver, site}
  open laws use {content}
  open config use {volume_name, get_progress}

  -- The block has a file.
  abbrev pub IsStored : W → Bytes → Type 0
  IsStored w c =
      (p : FilePath) × (get_block_file_path site volume_name c ≡ ok p)
      × (b : Bytes) × (content w p ≡ some b)

  -- Every block of the list has a file.
  abbrev pub AreStored : List BlockMapping → W → Type 0
  AreStored bs w = (c : Bytes) → RefersTo c bs → IsStored w c

  -- A read of the snapshot changes no file of the store.
  abbrev pub ReadsOnly : Type 0
  ReadsOnly = (o : ℕ) (q : FilePath) (w : W) → content (config.read_snapshot o w).1 q ≡ content w q

  pub AreStored-same :
      (bs : List BlockMapping) (w w' : W)
      → ((q : FilePath) → content w' q ≡ content w q)
      → AreStored bs w
      → AreStored bs w'
  AreStored-same bs w w' k h c r = let (p, at_path, b, e) = h c r in (p, at_path, b, k p ∙ e)

  -- A successful write of a block's file.
  AreStored-write :
      (bs : List BlockMapping) (c data_block : Bytes) (p : FilePath) (w : W)
      → get_block_file_path site volume_name c ≡ ok p
      → AreStored bs w
      → (driver.write p data_block w).0 ≡ ok tt
      → AreStored bs (driver.write p data_block w).1
  AreStored-write bs c data_block p w at_p h done d r = elim (Bool-cases (c =b d)) [
    | inl t ↦ (p, rw (← (=b_iff c d).0 t) at_p, data_block, laws.write_ok p data_block w done)
    | inr f ↦
        let (q, at_q, b, e) = h d r in
        (
          q,
          at_q,
          b,
          laws.write_other p q data_block w
                (block-block site volume_name c d p q (λ e. ground (arith, =b_iff c d)) at_p at_q)
              ∙ e,
        )
  ]

  -- The blocks that are there already.
  module _ (kept : List BlockMapping) where
    -- No block is being processed, and the kept ones and those of the backup have files.
    abbrev pub Settled : Upload → W → Type 0
    Settled u w = (u.processing_blocks ≡ []) × AreStored (kept ++ u.blocks) w

    abbrev pub Good : Result (Unit {0}) × Upload → W → Type 0
    Good (ok _, u) w = Settled u w
    Good (err e, u) w = Unit {0}

    -- The table has the one block of this worker.
    abbrev Claimed : ℕ → Bytes → Upload → Type 0
    Claimed o c u = u.processing_blocks ≡ (c, record { offset = o; block_checksum = c } ∷ []) ∷ []

    finish-Settled :
        (o : ℕ) (c : Bytes) (new_block : Bool) (u : Upload) (w : W)
        → Claimed o c u
        → AreStored (kept ++ u.blocks) w
        → IsStored w c
        → Settled (update_blocks_and_progress get_progress c new_block u) w
    unfolding update_blocks_and_progress blocks_at delete
    finish-Settled o c new_block u w e h s = rw (e, =b_refl c) (refl, stored)
      where
        stored : AreStored (kept ++ (u.blocks ++ record { offset = o; block_checksum = c } ∷ [])) w
        stored d r = elim (RefersTo-append d kept _ r) [
          | inl k ↦ h d (RefersTo-left d kept u.blocks k)
          | inr k ↦ elim (RefersTo-append d u.blocks _ k) [
            | inl k ↦ h d (RefersTo-right d kept u.blocks k)
            | inr (inl k) ↦ rw (← k) s
            | inr (inr k) ↦ absurd k
          ]
        ]

    sized-Settled :
        (o : ℕ) (c : Bytes) (new_block re_upload : Bool) (n : ℕ) (u : Upload) (w : W)
        → Claimed o c u
        → AreStored (kept ++ u.blocks) w
        → IsStored w c
        → Settled
            (update_blocks_and_progress get_progress c new_block
              (update_upload_data_size re_upload n u))
            w
    unfolding update_upload_data_size
    sized-Settled o c new_block true n u w e h s = finish-Settled o c new_block _ w e h s
    sized-Settled o c new_block false n u w e h s = finish-Settled o c new_block _ w e h s

    store_block-Settled :
        (o : ℕ) (c block : Bytes) (u : Upload)
        → Claimed o c u
        → Leaves (AreStored (kept ++ u.blocks)) (store_block env config c block u) Good
    unfolding store_block
    store_block-Settled o c block u e =
        Leaves-bind Located Good _ _ (Leaves-lift Located _ (λ p w at_p h. (at_p, h))) λ p.
          Leaves-bind (Found p) Good _ _ (Leaves-total (Found p) _ (found p)) λ there.
            Leaves-if Good (there && not config.full) _ _
              (λ t. Leaves-pure Good _ (λ w h.
                let (b, k) = h.2 (ground (arith, t)) in
                finish-Settled o c false u w e h.1 (p, h.0, b, k)))
              (λ _.
                Leaves-on_result Good (config.compress_data config.compression_method block) _ _
                  (λ data_block _.
                    Leaves-bind (Written p) Good _ _
                      (Leaves-attempt (Written p) _ (λ w h. written p data_block w h.0 h.1))
                      λ r.
                        Leaves-on_result Good r _ _
                          (λ x ok_x.
                            Leaves-pure Good _ (λ w h. finished p there data_block r x w ok_x h))
                          (λ f _. Leaves-pure Good _ (λ w h. tt)))
                  (λ f _. Leaves-pure Good _ (λ w h. tt)))
      where
        Located : FilePath → W → Type 0
        Located p w =
            (get_block_file_path site volume_name c ≡ ok p) × AreStored (kept ++ u.blocks) w

        Found : FilePath → Bool → W → Type 0
        Found p there w =
            (get_block_file_path site volume_name c ≡ ok p)
            × AreStored (kept ++ u.blocks) w
            × (there ≡ true → (b : Bytes) × (content w p ≡ some b))

        Written : FilePath → Result (Unit {0}) → W → Type 0
        Written p r w = r ≡ ok tt → AreStored (kept ++ u.blocks) w × IsStored w c

        found :
            (p : FilePath) (w : W)
            → Located p w
            → Found p (driver.file_exists p w).0 (driver.file_exists p w).1
        found p w h = (
          h.0,
          AreStored-same (kept ++ u.blocks) w _ (λ q. laws.file_exists_same p q w) h.1,
          λ t. let (b, k) = laws.file_exists_ok p w t in (b, laws.file_exists_same p p w ∙ k),
        )

        written :
            (p : FilePath) (data_block : Bytes) (w : W)
            → get_block_file_path site volume_name c ≡ ok p
            → AreStored (kept ++ u.blocks) w
            → Written p (driver.write p data_block w).0 (driver.write p data_block w).1
        written p data_block w at_p h done = (
          AreStored-write (kept ++ u.blocks) c data_block p w at_p h done,
          (p, at_p, data_block, laws.write_ok p data_block w done),
        )

        finished :
            (p : FilePath) (there : Bool) (data_block : Bytes) (r : Result (Unit {0}))
            (x : Unit {0}) (w : W)
            → r ≡ ok x
            → Written p r w
            → Settled
                (update_blocks_and_progress get_progress c
                  (not there)
                  (update_upload_data_size there (length data_block) u))
                w
        finished p there data_block r x w ok_x h =
            let (h, k) = h ok_x in sized-Settled o c (not there) there (length data_block) u w e h k

    backup_block-Settled :
        (o : ℕ) (block : Bytes) (u : Upload)
        → u.processing_blocks ≡ []
        → Leaves (AreStored (kept ++ u.blocks)) (backup_block env config o block u) Good
    unfolding backup_block is_block_being_processed
    backup_block-Settled o block u e =
        rw e (store_block-Settled o (get_checksum site block) block (claimed u) refl)
      where
        claimed : Upload → Upload
        claimed u = record u {
          processing_blocks =
              (
                get_checksum site block,
                record { offset = o; block_checksum = get_checksum site block } ∷ [],
              )
              ∷ [];
        }

    pub next_block :
        (f : Upload → Exec W (Result (Unit {0}) × Upload)) (x : Result (Unit {0}) × Upload)
        → ((u : Upload) → Leaves (Settled u) (f u) Good)
        → Leaves (Good x) (on_result x.0 (λ _. f x.1) (λ e. pure (err e, x.1))) Good
    unfolding on_result
    next_block f (ok _, u) k = k u
    next_block f (err e, u) k = Leaves-pure Good _ (λ w h. tt)

    read_then_store :
        (f : Upload → Exec W (Result (Unit {0}) × Upload)) (o : ℕ) (u : Upload)
        → ReadsOnly
        → u.processing_blocks ≡ []
        → ((u : Upload) → Leaves (Settled u) (f u) Good)
        → Leaves
            (AreStored (kept ++ u.blocks))
            (attempt (config.read_snapshot o) >>= λ read.
              on_result read
                (λ block. backup_block env config o block u >>= λ x.
                  on_result x.0 (λ _. f x.1) (λ e. pure (err e, x.1)))
                (λ e. pure (err e, u)))
            Good
    read_then_store f o u same e k =
        Leaves-bind (λ _. AreStored (kept ++ u.blocks)) Good _ _
          (Leaves-attempt (λ _. AreStored (kept ++ u.blocks)) _
            (λ w. AreStored-same (kept ++ u.blocks) w _ (λ q. same o q w)))
          λ read.
            Leaves-on_result Good read _ _
              (λ block _.
                Leaves-bind Good Good _ _ (backup_block-Settled o block u e) λ x. next_block f x k)
              (λ f _. Leaves-pure Good _ (λ w h. tt))

    backup_blocks-Settled :
        (block_size o n : ℕ) (u : Upload)
        → ReadsOnly
        → Leaves (Settled u) (backup_blocks env config block_size o n u) Good
    unfolding backup_blocks
    backup_blocks-Settled block_size o zero u same = Leaves-pure Good _ (λ w h. h)
    backup_blocks-Settled block_size o (suc n) u same = record {
      at = λ w h.
          (read_then_store (backup_blocks env config block_size (o + block_size) n) o u same h.0
              (λ v. backup_blocks-Settled block_size (o + block_size) n v same)).at
            w h.1;
    }

    -- A worker alone that uploads a mapping and returns no error leaves no block in the table, and a
    -- file for every block of a list and of the backup, when it was so before, the reads of the
    -- snapshot change no file, and the driver keeps its contract.
    pub backup_mapping-Settled :
        (block_size : ℕ) (mapping : Mapping) (u after : Upload) (w : W)
        → ReadsOnly
        → Settled u w
        → (backup_mapping env config block_size mapping u w).0 ≡ ok (ok tt, after)
        → Settled after (backup_mapping env config block_size mapping u w).1
    unfolding backup_mapping
    backup_mapping-Settled block_size mapping u after w same h e = rw e at (
        (backup_blocks-Settled block_size mapping.offset (mapping.size / block_size) u same).at w h)

    pub Leaves-backup_mapping :
        (block_size : ℕ) (mapping : Mapping) (u : Upload)
        → ReadsOnly
        → Leaves (Settled u) (backup_mapping env config block_size mapping u) Good
    unfolding backup_mapping
    Leaves-backup_mapping block_size mapping u same =
        backup_blocks-Settled block_size mapping.offset (mapping.size / block_size) u same
