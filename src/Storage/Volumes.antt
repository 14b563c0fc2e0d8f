-- ===== src/Storage/Volumes.antt =====
-- `VolumeManager` of src/storage/storage_manager.py, and `StorageManager`'s use of it. A new
-- volume's id (made of the time and random bytes) and the readings of the clock are arguments.
-- Making a directory does not fail; removing one does or does not, as the argument says.
use Prim.Native.String.{◌++◌}
use Prim.Native.Char.{code}
use disposable_compute_platf.Prelude.{
  ℕ, ◌*◌, ◌==◌, String, Bool, true, false, Option, none, some, List, [], ◌∷◌, ltb, str_eq,
  if◌then◌else◌, ◌&&◌,
}
use disposable_compute_platf.Prelude.Dict.{Dict, get, put, del}
use disposable_compute_platf.Prelude.Int.{ℤ, sub_ℕ}

pub record StorageVolume : Type 0 where
  pub id : String
  pub name : String
  pub size_bytes : ℕ
  pub used_bytes : ℕ
  pub storage_class : String
  pub path : String
  pub created_at : ℕ
  pub attached_to_pod : Option String

pub record Snapshot : Type 0 where
  pub id : String
  pub volume_id : String
  pub created_at : ℕ
  pub size_bytes : ℕ
  pub description : String

pub data BackupStatus : Type 0 where
  pending in_progress completed failed : BackupStatus

pub record Backup : Type 0 where
  pub id : String
  pub volume_id : String
  pub snapshot_id : String
  pub created_at : ℕ
  pub destination : String
  pub status : BackupStatus
  pub size_bytes : ℕ

pub record VolumeManager : Type 0 where
  pub base_storage_path : String
  pub volumes : Dict StorageVolume
  pub snapshots : Dict Snapshot
  pub backups : Dict Backup

pub record VolumeUsage : Type 0 where
  pub total_bytes : ℕ
  pub used_bytes : ℕ
  pub free_bytes : ℤ

-- 1024 * 1024 * 1024
abbrev pub gigabyte : ℕ
gigabyte = 1073741824

-- A volume's `attached_to_pod` in a condition: `None` and the empty text are false.
abbrev pub is_attached : Option String → Bool
is_attached none = false
is_attached (some String.[]) = false
is_attached (some (String.◌∷◌ c s)) = true

-- `attached_to_pod == pod_id`
abbrev pub attached_to : String → Option String → Bool
attached_to pod_id none = false
attached_to pod_id (some p) = str_eq p pod_id

-- `s.startswith(prefix)`
unfoldable pub starts_with : String → String → Bool
starts_with String.[] s = true
starts_with (String.◌∷◌ c p) String.[] = false
starts_with (String.◌∷◌ c p) (String.◌∷◌ d s) =
    let rest = starts_with p s in (code c == code d) && rest

unfoldable pub create_volume :
    String → ℕ → VolumeManager → String → ℕ → String → VolumeManager × StorageVolume
create_volume volume_id now m name size_gb storage_class =
    let volume : StorageVolume = record {
      id = volume_id;
      name = name;
      size_bytes = size_gb * gigabyte;
      used_bytes = 0;
      storage_class = storage_class;
      path = m.base_storage_path ++ "/" ++ volume_id;
      created_at = now;
      attached_to_pod = none;
    } in
    (record m { volumes = put volume_id volume m.volumes }, volume)

unfoldable pub attach_volume_to_pod : VolumeManager → String → String → VolumeManager × Bool
attach_volume_to_pod m volume_id pod_id = elim (get volume_id m.volumes) [
  | none ↦ (m, false)
  | some volume ↦ if is_attached volume.attached_to_pod then (m, false) else (
    record m {
      volumes = put volume_id (record volume { attached_to_pod = some pod_id }) m.volumes;
    },
    true,
  )
]

unfoldable pub detach_volume_from_pod : VolumeManager → String → String → VolumeManager × Bool
detach_volume_from_pod m volume_id pod_id = elim (get volume_id m.volumes) [
  | none ↦ (m, false)
  | some volume ↦
      if attached_to pod_id volume.attached_to_pod
      then (
        record m { volumes = put volume_id (record volume { attached_to_pod = none }) m.volumes },
        true,
      )
      else (m, false)
]

-- `removed` says whether `shutil.rmtree` removes the directory or raises.
unfoldable pub delete_volume : Bool → VolumeManager → String → VolumeManager × Bool
delete_volume removed m volume_id = elim (get volume_id m.volumes) [
  | none ↦ (m, false)
  | some volume ↦
      if is_attached volume.attached_to_pod
      then (m, false)
      else if removed
      then (record m { volumes = del volume_id m.volumes }, true)
      else (m, false)
]

unfoldable pub resize_volume : VolumeManager → String → ℕ → VolumeManager × Bool
resize_volume m volume_id new_size_gb = elim (get volume_id m.volumes) [
  | none ↦ (m, false)
  | some volume ↦ if ltb (new_size_gb * gigabyte) volume.size_bytes then (m, false) else (
    record m {
      volumes = put volume_id (record volume { size_bytes = new_size_gb * gigabyte }) m.volumes;
    },
    true,
  )
]

-- `measured` is the size of the files that the walk over the directory finds.
unfoldable pub get_volume_usage : ℕ → VolumeManager → String → VolumeManager × Option VolumeUsage
get_volume_usage measured m volume_id = elim (get volume_id m.volumes) [
  | none ↦ (m, none)
  | some volume ↦ (
    record m { volumes = put volume_id (record volume { used_bytes = measured }) m.volumes },
    some (record {
      total_bytes = volume.size_bytes;
      used_bytes = measured;
      free_bytes = sub_ℕ volume.size_bytes measured;
    }),
  )
]

unfoldable pub create_ephemeral_volume :
    String → ℕ → VolumeManager → String → ℕ → VolumeManager × StorageVolume
unfolding create_volume attach_volume_to_pod
create_ephemeral_volume volume_id now m pod_id size_gb =
    let (m1, volume) = create_volume volume_id now m ("ephemeral-" ++ pod_id) size_gb "ssd" in
    ((attach_volume_to_pod m1 volume_id pod_id).0, volume)

-- The ids of the volumes that are attached to the pod.
unfoldable pub volumes_to_detach : String → Dict StorageVolume → List String
volumes_to_detach pod_id [] = []
volumes_to_detach pod_id ((vol_id, volume) ∷ rest) =
    let ids = volumes_to_detach pod_id rest in
    if attached_to pod_id volume.attached_to_pod then vol_id ∷ ids else ids

-- One round of the loop of `cleanup_pod_volumes`.
unfoldable pub cleanup_volume : (String → Bool) → String → VolumeManager → String → VolumeManager
unfolding detach_volume_from_pod delete_volume starts_with
cleanup_volume removed pod_id m volume_id =
    let m1 = (detach_volume_from_pod m volume_id pod_id).0 in
    elim (get volume_id m1.volumes) [
      | none ↦ m1
      | some volume ↦
          if starts_with ("ephemeral-" ++ pod_id) volume.name
          then (delete_volume (removed volume_id) m1 volume_id).0
          else m1
    ]

unfoldable pub cleanup_volumes :
    (String → Bool) → String → VolumeManager → List String → VolumeManager
unfolding cleanup_volume
cleanup_volumes removed pod_id m [] = m
cleanup_volumes removed pod_id m (volume_id ∷ rest) =
    cleanup_volumes removed pod_id (cleanup_volume removed pod_id m volume_id) rest

unfoldable pub cleanup_pod_volumes : (String → Bool) → VolumeManager → String → VolumeManager
unfolding cleanup_volumes volumes_to_detach
cleanup_pod_volumes removed m pod_id =
    cleanup_volumes removed pod_id m (volumes_to_detach pod_id m.volumes)
