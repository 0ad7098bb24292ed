-- ===== src/Recovery/Device.antt =====
-- What the restore of a block (deltablock.go) does to the device.
use backupstore.Base.{
  codes, ◌∙◌, zero, suc, ℕ, ◌+◌, ◌≤◌, ◌≡◌, false, Option, some, List, [], ◌∷◌, arith, Bytes, length,
  take, All, ◌⊎◌, inl, inr, ltb,
}
use backupstore.Base.Outcome.{on_result, Error, Result, ok, err, Exec, pure, raise}
use backupstore.Driver.{FilePath}
use backupstore.Driver.Runs.{
  OkIs, OkIs_of_eq, Keeps, Keeps-bind, Keeps-if, Keeps-pure, Keeps-attempt, Keeps-on_result,
  Keeps-raise, Keeps-lift,
}
use backupstore.Driver.Leaves.{
  Leaves, OkLeaves, OkLeaves_of_eq, Leaves-pure, Leaves-if, Leaves-bind, Leaves-attempt,
  Leaves-raise, Leaves-lift, Leaves-on_result, Leaves-fact,
}
use backupstore.Blocks.Restore.{Block}
use backupstore.Config.Paths.{get_checksum}
use backupstore.Config.Store.{Env}
use backupstore.Host.{Host}
use backupstore.Integrity.{wrap, decompress_and_verify_with_fallback}
use backupstore.Integrity.Laws.{fallback-checksum}
use backupstore.Upload.Perform.{default_block_size}
use backupstore.Recovery.{
  first_block, RestoreConfig, copy_block, restore_block_to_file, restore_block_on_device,
}
use backupstore.Recovery.Loop.{AllApart}

-- What the code relies on of a device's file: `view w device o` is the content of the block at an
-- offset, when there is one. A write of at most a block, or zeros, change nothing a block away.
pub record DeviceLaws {W : Type 0} (env : Env W) (host : Host W) : Type 0 where
  pub view : W → Bytes → ℕ → Option Bytes
  pub write_ok :
      (device : Bytes) (o : ℕ) (content : Bytes) (w : W)
      → (host.write_at device o content w).0 ≡ ok tt
      → view (host.write_at device o content w).1 device o ≡ some content
  pub write_other :
      (device : Bytes) (o q : ℕ) (content : Bytes) (w : W)
      → length content ≤ default_block_size
      → (o + default_block_size ≤ q) ⊎ (q + default_block_size ≤ o)
      → view (host.write_at device o content w).1 device q ≡ view w device q
  pub fill_other :
      (device : Bytes) (o q : ℕ) (w : W)
      → (o + default_block_size ≤ q) ⊎ (q + default_block_size ≤ o)
      → view (host.fill_zeros device o default_block_size w).1 device q ≡ view w device q
  -- The reads of the store, and the other calls after the device was opened, leave the data.
  pub read_same :
      (p : FilePath) (device : Bytes) (q : ℕ) (w : W)
      → view (env.driver.read p w).1 device q ≡ view w device q
  pub stop_same : (device : Bytes) (q : ℕ) (w : W) → view (host.stop w).1 device q ≡ view w device q
  pub context_same :
      (device : Bytes) (q : ℕ) (w : W) → view (host.context_done w).1 device q ≡ view w device q
  pub status_same :
      (name : Bytes) (n : ℕ) (e : Option Error) (device : Bytes) (q : ℕ) (w : W)
      → view (host.update_status name n e w) device q ≡ view w device q
  pub close_same :
      (device : Bytes) (q : ℕ) (w : W) → view (host.close device w).1 device q ≡ view w device q
  pub close_device_same :
      (device : Bytes) (q : ℕ) (w : W)
      → view (host.close_device device w).1 device q ≡ view w device q

-- The blocks are in the order of their offsets, and do not overlap.
abbrev pub Spaced : ℕ → List Block → Type 0
Spaced n [] = Unit {0}
Spaced n (b ∷ blocks) = (n ≤ b.offset) × Spaced (b.offset + default_block_size) blocks

abbrev pub AreApart : Block → Block → Type 0
AreApart b c =
    (b.offset + default_block_size ≤ c.offset) ⊎ (c.offset + default_block_size ≤ b.offset)

Spaced-after :
    (b : Block) (n : ℕ) (blocks : List Block)
    → b.offset + default_block_size ≤ n
    → Spaced n blocks
    → All (AreApart b) blocks
Spaced-after b n [] le h = tt
Spaced-after b n (c ∷ blocks) le h =
    (inl (omega arith), Spaced-after b (c.offset + default_block_size) blocks (omega arith) h.1)

pub AllApart-Spaced : (n : ℕ) (blocks : List Block) → Spaced n blocks → AllApart AreApart blocks
AllApart-Spaced n [] h = tt
AllApart-Spaced n (b ∷ blocks) h =
    let next = b.offset + default_block_size in
    (Spaced-after b next blocks (omega arith) h.1, AllApart-Spaced next blocks h.1)

length-take : (n : ℕ) (xs : Bytes) → length (take n xs) ≤ n
length-take zero xs = omega arith
length-take (suc n) [] = omega arith
length-take (suc n) (x ∷ xs) = omega (arith, length-take n xs)

first_block-short : (d : Bytes) → length (first_block d) ≤ default_block_size
unfolding first_block
first_block-short d = length-take default_block_size d

swap : (b c : Block) → AreApart b c → AreApart c b
swap b c (inl h) = inr h
swap b c (inr h) = inl h

module _ {W : Type 0} (env : Env W) (config : RestoreConfig W) (laws : DeviceLaws env config.host)
    (device volume_name : Bytes) where
  open env use {driver, site}
  open config use {host, readers}
  open laws use {view}

  -- The block's offset holds the first part of some data with the block's checksum.
  pub record IsRestored (b : Block) (w : W) : Type 0 where
    pub content : Bytes
    pub verified : get_checksum site content ≡ b.block_checksum
    pub enough : default_block_size ≤ length content
    pub stored : view w device b.offset ≡ some (first_block content)

  abbrev pub DataRestored : Block → W → Type 0
  DataRestored b w = b.is_zero_block ≡ false → IsRestored b w

  pub Keeps-same :
      {A : Type 0} (b : Block) (m : Exec W A)
      → ((w : W) → view (m w).1 device b.offset ≡ view w device b.offset)
      → Keeps (DataRestored b) m
  Keeps-same b m e = record {
    at = λ w h f.
        let r = h f in
        record {
          content = r.content;
          verified = r.verified;
          enough = r.enough;
          stored = e w ∙ r.stored;
        };
  }

  Keeps-decompress :
      (b : Block) (p : FilePath) (method checksum : Bytes)
      → Keeps
          (DataRestored b)
          (decompress_and_verify_with_fallback readers site driver p method checksum)
  unfolding decompress_and_verify_with_fallback
  Keeps-decompress b p method checksum = Keeps-bind _ _ read λ src.
      Keeps-on_result _ _ _ (λ block. Keeps-pure _)
        (λ e. Keeps-if _ _ _ (Keeps-raise _) (
          Keeps-bind _ _ read
            λ again. Keeps-on_result _ _ _ (λ block. Keeps-pure _) (λ f. Keeps-raise _)))
    where
      read : Keeps (DataRestored b) (driver.read p)
      read = Keeps-same b (driver.read p) (λ w. laws.read_same p device b.offset w)

  Keeps-copy :
      (b c : Block) (block : Bytes)
      → AreApart b c
      → Keeps (DataRestored b) (copy_block env config device c.offset block)
  unfolding copy_block
  Keeps-copy b c block a =
      Keeps-bind _ _
        (Keeps-same b _ (λ w.
          laws.write_other device c.offset b.offset (first_block block) w (first_block-short block)
            (swap b c a)))
        λ _. Keeps-if _ _ _ (Keeps-raise _) (Keeps-pure _)

  pub Keeps-on_device :
      (b c : Block)
      → AreApart b c
      → Keeps (DataRestored b) (restore_block_on_device env config volume_name device c)
  unfolding restore_block_on_device restore_block_to_file
  Keeps-on_device b c a =
      Keeps-if c.is_zero_block _ _
        (Keeps-same b _ (λ w. laws.fill_other device c.offset b.offset w (swap b c a)))
        (Keeps-bind _ _ (Keeps-lift _) λ p.
          Keeps-bind _ _
            (Keeps-attempt _ (Keeps-decompress b p c.compression_method c.block_checksum))
            λ r.
              Keeps-on_result r _ _
                (λ block.
                  Keeps-bind _ _ (Keeps-attempt _ (Keeps-copy b c block a))
                    λ s. Keeps-on_result s _ _ (λ _. Keeps-pure _) (λ e. Keeps-raise _))
                (λ e. Keeps-raise _))

  -- A copy that succeeds has written a whole block.
  abbrev Copied : Bytes → ℕ → W → Type 0
  Copied block o w =
      (default_block_size ≤ length block) × (view w device o ≡ some (first_block block))

  Leaves-copy :
      (o : ℕ) (block : Bytes)
      → Leaves (λ w. Unit {0}) (copy_block env config device o block) (λ _. Copied block o)
  unfolding copy_block
  Leaves-copy o block =
      Leaves-bind (λ _ w. view w device o ≡ some (first_block block)) (λ _. Copied block o) _ _
        (record {
          at = λ w h. OkLeaves_of_eq _ _ _ (λ u e. laws.write_ok device o (first_block block) w e);
        })
        λ _.
          Leaves-if (λ _. Copied block o) (ltb (length block) default_block_size) _ _
            (λ _. Leaves-raise (λ _. Copied block o) _)
            (λ e. Leaves-pure (λ _. Copied block o) _ (λ w h. (ground arith, h)))

  abbrev Any : W → Type 0
  Any w = Unit {0}

  abbrev Post : Block → Unit {0} → W → Type 0
  Post b _ = DataRestored b

  Leaves-written :
      (b : Block) (block : Bytes) (s : Result (Unit {0}))
      → get_checksum site block ≡ b.block_checksum
      → Leaves
          (OkLeaves (λ _. Copied block b.offset) s)
          (on_result s
            (λ _. pure tt)
            (λ e. raise (wrap (codes "failed to write decompressed block") e)))
          (Post b)
  unfolding on_result
  Leaves-written b block (ok u) v =
      Leaves-pure (Post b) tt
        (λ w h _. record { content = block; verified = v; enough = h.0; stored = h.1 })
  Leaves-written b block (err e) v = Leaves-raise (Post b) _

  pub Leaves-on_device :
      (b : Block) → Leaves Any (restore_block_on_device env config volume_name device b) (Post b)
  unfolding restore_block_on_device restore_block_to_file
  Leaves-on_device b =
      Leaves-if (Post b) b.is_zero_block _ _
        (λ e. record { at = λ w h. OkLeaves_of_eq (Post b) _ _ (λ u x f. ground arith) })
        (λ _.
          Leaves-bind (λ _. Any) (Post b) _ _ (Leaves-lift (λ _. Any) _ (λ a w _ _. tt))
            λ p.
              Leaves-bind (λ r w. OkIs IsVerified r × Any w) (Post b) _ _
                (Leaves-attempt (λ r w. OkIs IsVerified r × Any w) _
                  (λ w h. (
                    OkIs_of_eq IsVerified _ (λ a e.
                        fallback-checksum readers site driver p b.compression_method
                          b.block_checksum a w e),
                    tt,
                  )))
                λ r. Leaves-fact (Post b) _ λ v.
                  Leaves-on_result (Post b) r _ _
                    (λ block e.
                      Leaves-bind (OkLeaves (λ _. Copied block b.offset)) (Post b) _ _
                        (Leaves-attempt (OkLeaves (λ _. Copied block b.offset)) _
                          (λ w h. (Leaves-copy b.offset block).at w h))
                        λ s. Leaves-written b block s (rw e at v))
                    (λ e _. Leaves-raise (Post b) _))
    where
      IsVerified : Bytes → Type 0
      IsVerified block = get_checksum site block ≡ b.block_checksum
