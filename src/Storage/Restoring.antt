-- ===== src/Storage/Restoring.antt =====
-- Restoring snapshots and backups in src/storage/storage_manager.py.
use disposable_compute_platf.Prelude.{
  ℕ, ◌+◌, ◌*◌, ◌/◌, ◌<◌, String, ◌≡◌, refl, Bool, true, false, none, some, eq_iff, arith,
}
use disposable_compute_platf.Prelude.Dict.{get, put, get-put, del-put}
use disposable_compute_platf.Storage.Volumes.{
  StorageVolume, Snapshot, Backup, BackupStatus, VolumeManager, gigabyte, create_volume,
  delete_volume,
}
use disposable_compute_platf.Storage.Backups.{
  restore_snapshot, restore_backup, start_backup, finish_backup, size_or_default,
}

rounded_up : (n : ℕ) → n < (n / gigabyte + 1) * gigabyte
rounded_up n = omega arith

-- For a recorded snapshot, a free id and no size given: with a copy that works, `restore_snapshot`
-- adds one volume that is larger than the snapshot and returns it; with a copy that fails and a
-- directory that can be removed, it returns none and leaves the tables as they were.
pub restore_snapshot_lem :
    (volume_id : String) (now : ℕ) (m : VolumeManager) (snapshot_id name : String)
    (snapshot : Snapshot)
    → get volume_id m.volumes ≡ none
    → get snapshot_id m.snapshots ≡ some snapshot
    → ((removed : Bool)
        → (volume : StorageVolume) × (restore_snapshot volume_id now true removed m snapshot_id name
              none
            ≡ (record m { volumes = put volume_id volume m.volumes }, some volume))
          × (snapshot.size_bytes < volume.size_bytes))
      × (restore_snapshot volume_id now false true m snapshot_id name none ≡ (m, none))
unfolding restore_snapshot create_volume delete_volume
restore_snapshot_lem volume_id now m snapshot_id name snapshot fresh e =
    let volume = (create_volume volume_id now m name (size_or_default snapshot none) "ssd").1 in
    (
      (λ removed. (volume, rw (e, restore_snapshot) refl, rounded_up snapshot.size_bytes)),
      ground (
        arith,
        e,
        get-put volume_id volume_id volume m.volumes,
        eq_iff volume_id volume_id,
        del-put volume_id volume m.volumes fresh,
      ),
    )

-- While a recorded backup is in progress, or has failed for want of its snapshot or volume, that
-- is right after its task has started, restoring it returns none and changes nothing.
pub start_backup-restore_backup :
    (volume_id : String) (now : ℕ) (copied removed : Bool) (m : VolumeManager) (b name : String)
    (backup : Backup)
    → get b m.backups ≡ some backup
    → restore_backup volume_id now copied removed (start_backup m b).0 b name
      ≡ ((start_backup m b).0, none)
unfolding start_backup restore_backup
start_backup-restore_backup volume_id now copied removed m b name backup e = ground (
  arith,
  eq_iff b b,
  get-put b b (record backup { status = BackupStatus.failed }) m.backups,
  get-put b b (record backup { status = BackupStatus.in_progress }) m.backups,
)

-- When a backup and its snapshot are recorded and the new id is free, then right after the
-- backup's task has finished with that snapshot, restoring the backup with a copy that works adds
-- one volume, larger than the snapshot, changes nothing else and returns that volume.
pub finish_backup-restore_backup :
    (volume_id : String) (now : ℕ) (removed : Bool) (m : VolumeManager) (b name : String)
    (backup : Backup) (snapshot : Snapshot)
    → get b m.backups ≡ some backup
    → get backup.snapshot_id m.snapshots ≡ some snapshot
    → get volume_id m.volumes ≡ none
    → (volume : StorageVolume) × (restore_backup volume_id now true removed
          (finish_backup m b snapshot)
          b
          name
        ≡ (
          record (finish_backup m b snapshot) { volumes = put volume_id volume m.volumes },
          some volume,
        ))
      × (snapshot.size_bytes < volume.size_bytes)
unfolding finish_backup restore_backup
finish_backup-restore_backup volume_id now removed m b name backup snapshot e f fresh =
    let done = record backup {
      status = BackupStatus.completed;
      size_bytes = snapshot.size_bytes;
    } in
    let m' : VolumeManager = record m { backups = put b done m.backups } in
    let (volume, restored, larger) =
      (restore_snapshot_lem volume_id now m' backup.snapshot_id name snapshot fresh f).0 removed in
    (volume, ground (arith, e, eq_iff b b, get-put b b done m.backups, restored), larger)
