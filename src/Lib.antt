-- ===== src/Lib.antt =====
-- Verification of backupstore: incremental backups of block volumes in an object store or a shared
-- directory.
--
-- A volume is cut into blocks, each stored once under its checksum. A backup is a configuration file
-- with the list of its blocks, and a volume's backups share the blocks. The program creates backups,
-- restores them, fully or over an older one, and deletes them, with the blocks that no backup uses
-- any more. Lock files in the store keep deletions apart from backups and restores on other hosts.
-- All of this goes through the interface of a driver.
--
-- The files:
-- - Base: native numbers, lists and byte strings (Base/Tests, Base/Lists), and Go's errors and calls
--   (Base/Outcome). A call is a function from the state of the store and the host to a result and the
--   next state; what it wrote before an error stays written.
-- - Driver: the interface BackupStoreDriver of driver.go over paths; Driver/Laws, its documented
--   contract; Driver/Registry, the table of the drivers by their scheme; Driver/Runs, Driver/Leaves
--   and Driver/Yields, rules for the statements that calls keep and lead to.
-- - Url: EncodeBackupURL and DecodeBackupURL of backupstore.go. Access: the driver and the names that
--   a handler gets from a URL. Host: the files and devices of the host that a restore writes.
-- - Util: ValidateName, ExtractNames (Util/Names) and UnorderedEqual (Util/Unordered) of util/util.go.
-- - Config: the paths of config.go, util.go and lock.go (Config/Paths) and that they differ
--   (Config/Separate); Volume and Backup of backupstore.go and their loading and saving in config.go
--   (Config/Store); what these calls leave as it was (Config/Keeps, Config/Holding).
-- - Blocks: the block lists of deltablock.go: BlockMapping (Blocks/Mapping), mergeSnapshotMap
--   (Blocks/Merge), sortBackupBlocks (Blocks/Sort), and both restores (Blocks/Restore): the plans of
--   populateBlocksForFullRestore and populateBlocksForIncrementalRestore, and restoreBlock.
-- - Lock: lock.go: the decision of canAcquire (Lock/Priority), the operations of FileLock on the store
--   (Lock/Ops, and Lock/Keeps on what they leave as it was), and the protocol of many clients as a
--   step relation (Lock/Protocol).
-- - Lock/Hold: how the handlers use a lock: the handler's turn, the job's second turn and the unlocks
--   of both (Lock/Hold/Turns, Lock/Hold/Balance), that it stays the same lock (Lock/Hold/Identity), and
--   what this leaves of the result (Lock/Hold/Returns).
-- - Listing: list.go, inspect.go and head.go, and what List returns (Listing/Entries);
--   Listing/Names, getVolumeNames of config.go, and that it is complete (Listing/Names/Complete).
-- - Gc: the part of DeleteDeltaBlockBackup of deltablock.go that runs under the lock: the map of the
--   block infos (Gc/Infos, Gc/Entries), the steps (Gc/Delete), and that no block in use is lost
--   (Gc/Safety, Gc/Safety/Whole).
-- - Removal: DeleteDeltaBlockBackup from the URL on, and DeleteBackupVolume.
-- - Upload: the workers of performBackup: the table of the blocks being processed and the progress
--   (Upload/Table, Upload/Laws), backupBlock and backupMapping for one worker (Upload/Store), what
--   they leave in the store (Upload/Stored), performBackup for one worker (Upload/Perform), and what
--   it leaves there (Upload/Refers, Upload/Saved, Upload/Saved/Whole).
-- - Upload/Create: CreateDeltaBlockBackup: the choice of the last backup, the comparison of the
--   snapshots (Upload/Create/Choice), and what it leaves to the job (Upload/Create/Handler).
-- - Recovery: the handlers and jobs of both restores of deltablock.go; Recovery/Loop, the loop of a
--   worker; Recovery/Device and Recovery/Data, what a job leaves on the device; Recovery/Handler, what
--   the handlers leave to their jobs.
-- - SingleFile: singlefile.go, and what its backups leave in the store (SingleFile/Stored).
-- - SystemBackup: systembackup/: the files and the config; SystemBackup/Urls and SystemBackup/Laws,
--   the URLs and that they are parsed back; SystemBackup/Checked, on the download.
-- - FileSystem: the driver operations of fsops/fsops.go over the files of the host, and that a write
--   is atomic (FileSystem/Written).
-- - Images: backupbackingimage/ and common/: the configurations (Images/Store) and URLs (Images/Urls)
--   of the backups of backing images, their creation (Images/Upload), their restore (Images/Restore)
--   and their deletion (Images/Delete, Images/Separate, Images/Safety).
-- - Integrity: DecompressAndVerifyWithFallback of util.go and DecompressAndVerify of util/util.go.
-- - Tests: runs on concrete input, and a driver in memory that keeps the contract.
--
-- The parameters: a driver, the JSON encodings, SHA-512, the clock, the pause and time.Parse, in the
-- records Env and Site; net/url, in UrlLib; the compression of a block, the gzip and lz4 readers, the
-- checksum of a file, filepath.Join, and the percentage of getProgress, a float; the engine's
-- operations on snapshots, in SnapshotOps; the files of the host and the restore's reports, in Host;
-- package os and the commands of fsops/, in FileSystem. Laws are assumed of the driver (DriverLaws),
-- of the clock (HostLaws), of net/url and filepath.Join (UrlLaws, PathLaws) and of the files of the
-- host (DeviceLaws, FileLaws). A call to the driver may fail at any time.
--
-- The bounds: sizes, offsets and times are non-negative numbers without a width; times are in
-- nanoseconds. Every loop is a structural recursion, so no fuel is needed. A slice out of range, an
-- index out of range and the close of a closed channel are panics, and a panic is an error value.
--
-- Not modelled: several workers of performBackup, of a restore, or of the backup of an image, in
-- parallel. One worker takes the blocks in their order, and ends before its error is read; where the
-- context is done, mergeErrorChannels may have passed the error over. The pool of the listings and its
-- time limit: the tasks run one after the other, and what a task reads of the error that the tasks
-- share is given by a schedule. The drivers but for fsops/, which are I/O; the log entries, the
-- commands, the mounts and the environment. In canAcquire the clock is read once instead of at each
-- lock. The refresh of a lock, a goroutine, is a step of the protocol. A map is walked in the order of
-- its list. Another host does not change the store in the middle of a deletion: the lock keeps it out.
-- A job runs after its handler has returned.
pub mod Base
pub mod Blocks
pub mod Util
pub mod Driver
pub mod Config
pub mod Lock
pub mod Gc
pub mod Upload
pub mod Url
pub mod Access
pub mod Listing
pub mod Host
pub mod Removal
pub mod SingleFile
pub mod SystemBackup
pub mod Images
pub mod Recovery
pub mod Integrity
pub mod FileSystem
pub mod Tests
