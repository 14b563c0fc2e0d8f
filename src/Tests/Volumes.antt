-- ===== src/Tests/Volumes.antt =====
-- Volumes, snapshots and backups.
use disposable_compute_platf.Prelude.{◌<◌, ◌≡◌, refl, true, false, none, some, [], ◌∷◌}
use disposable_compute_platf.Prelude.Dict.{get, put}
use disposable_compute_platf.Storage.Volumes.{
  StorageVolume, Snapshot, Backup, BackupStatus, VolumeManager, resize_volume, delete_volume,
  detach_volume_from_pod, attached_to, cleanup_pod_volumes, cleanup_volumes, cleanup_volume,
  volumes_to_detach, starts_with,
}
use disposable_compute_platf.Storage.Backups.{restore_backup, finish_backup}
use disposable_compute_platf.Storage.History.{here, next, resize, delete, Steps-Held}
use disposable_compute_platf.Storage.Attachment.{Held}
use disposable_compute_platf.Storage.Cleanup.{cleanup_pod_volumes-detached}
use disposable_compute_platf.Storage.Restoring.{finish_backup-restore_backup}

abbrev volume : StorageVolume
volume = record {
  id = "v1";
  name = "data";
  size_bytes = 1073741824;
  used_bytes = 5;
  storage_class = "ssd";
  path = "/v1";
  created_at = 0;
  attached_to_pod = some "p1";
}

abbrev image : Snapshot
image = record { id = "s1"; volume_id = "v1"; created_at = 1; size_bytes = 5; description = "" }

abbrev copy : Backup
copy = record {
  id = "b1";
  volume_id = "v1";
  snapshot_id = "s1";
  created_at = 2;
  destination = "/backups";
  status = BackupStatus.pending;
  size_bytes = 0;
}

abbrev store : VolumeManager
store = record {
  base_storage_path = "/var";
  volumes = ("v1", volume) ∷ [];
  snapshots = ("s1", image) ∷ [];
  backups = ("b1", copy) ∷ [];
}

Steps-Held_example :
    Held "v1" "p1" 1073741824 refl (delete_volume true (resize_volume store "v1" 2).0 "v1").0
unfolding get
Steps-Held_example =
    Steps-Held "v1" "p1" 1073741824 refl
      (next (next here (resize store "v1" 2)) (delete (resize_volume store "v1" 2).0 "v1" true))
      refl

cleanup_pod_volumes-detached_example : attached_to "p1" none ≡ false
unfolding cleanup_pod_volumes cleanup_volumes cleanup_volume volumes_to_detach starts_with get put
    detach_volume_from_pod
cleanup_pod_volumes-detached_example =
    cleanup_pod_volumes-detached "p1" (λ u. true) store "v1"
      (record volume { attached_to_pod = none }) refl

finish_backup-restore_backup_example :
    (w : StorageVolume) × (restore_backup "v2" 9 true true
        (finish_backup store "b1" image)
        "b1"
        "copy"
      ≡ (record (finish_backup store "b1" image) { volumes = put "v2" w store.volumes }, some w))
    × (5 < w.size_bytes)
unfolding get
finish_backup-restore_backup_example =
    finish_backup-restore_backup "v2" 9 true store "b1" "copy" copy image refl refl refl
