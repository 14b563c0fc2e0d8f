-- ===== src/Storage/Backups.antt =====
-- `SnapshotManager` and `BackupManager` of src/storage/storage_manager.py. A backup runs in a task
-- of its own, in two steps: up to its `await`, and from there.
use disposable_compute_platf.Prelude.{
  ℕ, ◌+◌, ◌/◌, String, Bool, true, false, Option, none, some, if◌then◌else◌,
}
use disposable_compute_platf.Prelude.Dict.{Dict, get, put, del, is_some}
use disposable_compute_platf.Storage.Volumes.{
  StorageVolume, Snapshot, Backup, BackupStatus, VolumeManager, VolumeUsage, gigabyte,
  create_volume, delete_volume, get_volume_usage,
}

abbrev used_or_zero : Option VolumeUsage → ℕ
used_or_zero none = 0
used_or_zero (some usage) = usage.used_bytes

unfoldable pub create_snapshot :
    String → ℕ → ℕ → VolumeManager → String → String → VolumeManager × Option Snapshot
unfolding get_volume_usage
create_snapshot snapshot_id now measured m volume_id description =
    if is_some (get volume_id m.volumes)
    then (let (m1, usage) = get_volume_usage measured m volume_id in
        let snapshot : Snapshot = record {
          id = snapshot_id;
          volume_id = volume_id;
          created_at = now;
          size_bytes = used_or_zero usage;
          description = description;
        } in
        (record m1 { snapshots = put snapshot_id snapshot m1.snapshots }, some snapshot))
    else (m, none)

abbrev pub size_or_default : Snapshot → Option ℕ → ℕ
size_or_default snapshot none = snapshot.size_bytes / gigabyte + 1
size_or_default snapshot (some size_gb) = size_gb

-- `copied` says whether copying the files works, `removed` whether removing them does.
unfoldable pub restore_snapshot :
    String
    → ℕ
    → Bool
    → Bool
    → VolumeManager
    → String
    → String
    → Option ℕ
    → VolumeManager × Option StorageVolume
unfolding create_volume delete_volume
restore_snapshot volume_id now copied removed m snapshot_id new_volume_name size_gb =
    elim (get snapshot_id m.snapshots) [
      | none ↦ (m, none)
      | some snapshot ↦
          let (m1, volume) =
            create_volume volume_id now m new_volume_name (size_or_default snapshot size_gb)
              "ssd" in
          if copied then (m1, some volume) else ((delete_volume removed m1 volume_id).0, none)
    ]

unfoldable pub delete_snapshot : VolumeManager → String → VolumeManager × Bool
delete_snapshot m snapshot_id =
    if is_some (get snapshot_id m.snapshots)
    then (record m { snapshots = del snapshot_id m.snapshots }, true)
    else (m, false)

-- The locations of backups, by name; the credentials are not read.
unfoldable pub configure_backup_location : Dict String → String → String → Dict String
configure_backup_location locations name location = put name location locations

-- The task that performs the backup is started with the backup's id.
unfoldable pub create_backup :
    String
    → String
    → ℕ
    → ℕ
    → Dict String
    → VolumeManager
    → String
    → String
    → String
    → VolumeManager × Option Backup
unfolding create_snapshot
create_backup backup_id snapshot_id now measured locations m volume_id location_name description =
    elim (get location_name locations) [
      | none ↦ (m, none)
      | some location ↦
          let (m1, made) = create_snapshot snapshot_id now measured m volume_id description in
          elim made [
            | none ↦ (m1, none)
            | some snapshot ↦
                let backup : Backup = record {
                  id = backup_id;
                  volume_id = volume_id;
                  snapshot_id = snapshot.id;
                  created_at = now;
                  destination = location;
                  status = BackupStatus.pending;
                  size_bytes = 0;
                } in
                (record m1 { backups = put backup_id backup m1.backups }, some backup)
          ]
    ]

abbrev pub set_status : VolumeManager → String → Backup → BackupStatus → VolumeManager
set_status m backup_id backup status = record m {
  backups = put backup_id (record backup { status = status }) m.backups;
}

-- `_perform_backup` up to its `await`. The result is the snapshot that the task goes on with.
unfoldable pub start_backup : VolumeManager → String → VolumeManager × Option Snapshot
start_backup m backup_id = elim (get backup_id m.backups) [
  | none ↦ (m, none)
  | some backup ↦ elim (get backup.snapshot_id m.snapshots) [
    | none ↦ (set_status m backup_id backup BackupStatus.failed, none)
    | some snapshot ↦
        if is_some (get backup.volume_id m.volumes)
        then (set_status m backup_id backup BackupStatus.in_progress, some snapshot)
        else (set_status m backup_id backup BackupStatus.failed, none)
  ]
]

-- `_perform_backup` from its `await`: the backup is the object that is still in the table.
unfoldable pub finish_backup : VolumeManager → String → Snapshot → VolumeManager
finish_backup m backup_id snapshot = elim (get backup_id m.backups) [
  | none ↦ m
  | some backup ↦ record m {
    backups =
        put backup_id
          (record backup { status = BackupStatus.completed; size_bytes = snapshot.size_bytes })
          m.backups;
  }
]

abbrev pub is_completed : BackupStatus → Bool
is_completed BackupStatus.completed = true
is_completed _ = false

unfoldable pub restore_backup :
    String
    → ℕ
    → Bool
    → Bool
    → VolumeManager
    → String
    → String
    → VolumeManager × Option StorageVolume
unfolding restore_snapshot
restore_backup volume_id now copied removed m backup_id new_volume_name =
    elim (get backup_id m.backups) [
      | none ↦ (m, none)
      | some backup ↦
          if is_completed backup.status
          then restore_snapshot volume_id now copied removed m backup.snapshot_id new_volume_name
              none
          else (m, none)
    ]
