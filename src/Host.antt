-- ===== src/Host.antt =====
-- The files of the host that a restore writes (package os), by their paths: what the code calls of
-- them, as parameters.
use backupstore.Base.{ℕ, Bool, Bytes, Option}
use backupstore.Base.Outcome.{Exec, Error}

-- `exists` is whether os.Stat returns no error; `open_device` is DeltaRestoreOperations.OpenVolumeDev,
-- which returns the path of the device, and `close_device` its CloseVolumeDev; `open_write` is
-- os.OpenFile with O_RDWR, `write_at` Seek and the copy that follows, and `stop` whether the restore
-- was told to stop, by its context or its stop channel. `context_done` is whether the select of
-- mergeErrorChannels takes the end of the context, where the context is done, and not the error of
-- the workers. `update_status` is UpdateRestoreStatus or
-- UpdateRestoreProgress.
pub record Host (W : Type 0) : Type 0 where
  pub exists : Bytes → W → Bool × W
  pub remove : Bytes → Exec W (Unit {0})
  pub remove_all : Bytes → Exec W (Unit {0})
  pub create : Bytes → Exec W (Unit {0})
  pub open_device : Bytes → Exec W Bytes
  pub close_device : Bytes → Exec W (Unit {0})
  pub is_regular : Bytes → Exec W Bool
  pub truncate : Bytes → ℕ → Exec W (Unit {0})
  pub open_write : Bytes → Exec W (Unit {0})
  pub write_at : Bytes → ℕ → Bytes → Exec W (Unit {0})
  pub fill_zeros : Bytes → ℕ → ℕ → Exec W (Unit {0})
  pub close : Bytes → Exec W (Unit {0})
  pub stop : W → Bool × W
  pub context_done : W → Bool × W
  pub update_status : Bytes → ℕ → Option Error → W → W
