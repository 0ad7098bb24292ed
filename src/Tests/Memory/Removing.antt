-- ===== src/Tests/Memory/Removing.antt =====
-- The removal of a volume from a store in memory.
use backupstore.Base.{codes}
use backupstore.Driver.Leaves.{Leaves}
use backupstore.Config.Store.{remove_volume}
use backupstore.Lock.Ops.{new_lock}
use backupstore.Lock.Priority.{deletion_lock}
use backupstore.Lock.Hold.{under_lock}
use backupstore.Removal.Nothing.{Removed, removal-IsGone}
use backupstore.Tests.Memory.{memory_laws}
use backupstore.Tests.Memory.Deletion.{env, volume}

removal-IsGone_example :
    Leaves
      (λ w. Unit {0})
      (under_lock env (new_lock volume deletion_lock (codes "1")) (remove_volume env volume))
      (Removed env memory_laws volume)
removal-IsGone_example =
    removal-IsGone env memory_laws volume (new_lock volume deletion_lock (codes "1"))
