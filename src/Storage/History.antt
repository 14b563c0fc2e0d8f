-- ===== src/Storage/History.antt =====
-- Histories of the tables of src/storage/storage_manager.py.
use disposable_compute_platf.Prelude.{
  ℕ, String, ◌≡◌, Bool, true, false, Option, none, some, str_eq, arith, Option-cases, inl, inr,
}
use disposable_compute_platf.Prelude.Dict.{Dict, get}
use disposable_compute_platf.Storage.Volumes.{
  Snapshot, VolumeManager, is_attached, create_volume, attach_volume_to_pod, detach_volume_from_pod,
  delete_volume, resize_volume, get_volume_usage, cleanup_pod_volumes, volumes_to_detach,
}
use disposable_compute_platf.Storage.Backups.{
  create_snapshot, restore_snapshot, delete_snapshot, create_backup, start_backup, finish_backup,
  restore_backup,
}
use disposable_compute_platf.Storage.Attachment.{
  Held, create-Held, attach-Held, detach-Held, delete-Held, resize-Held, usage-Held,
  cleanup_volumes-Held, snapshot-Held, restore-Held, backup-Held,
}

-- What happens to the tables of the volume manager, other than a detachment of the pod `p`: new
-- volumes have new ids.
pub data Step (p : String) : VolumeManager → VolumeManager → Type 0 where
  create :
      (m : VolumeManager) (u : String) (now : ℕ) (name : String) (size : ℕ) (class : String)
      → get u m.volumes ≡ none
      → Step p m (create_volume u now m name size class).0
  attach : (m : VolumeManager) (u q : String) → Step p m (attach_volume_to_pod m u q).0
  detach :
      (m : VolumeManager) (u q : String)
      → str_eq q p ≡ false
      → Step p m (detach_volume_from_pod m u q).0
  delete :
      (m : VolumeManager) (u : String) (removed : Bool) → Step p m (delete_volume removed m u).0
  resize : (m : VolumeManager) (u : String) (size : ℕ) → Step p m (resize_volume m u size).0
  usage :
      (m : VolumeManager) (u : String) (measured : ℕ) → Step p m (get_volume_usage measured m u).0
  cleanup :
      (m : VolumeManager) (removed : String → Bool) (q : String)
      → str_eq q p ≡ false
      → Step p m (cleanup_pod_volumes removed m q)
  snapshot :
      (m : VolumeManager) (i : String) (now measured : ℕ) (u description : String)
      → Step p m (create_snapshot i now measured m u description).0
  restore :
      (m : VolumeManager) (u : String) (now : ℕ) (copied removed : Bool) (i name : String)
      (size : Option ℕ)
      → get u m.volumes ≡ none
      → Step p m (restore_snapshot u now copied removed m i name size).0
  drop_snapshot : (m : VolumeManager) (i : String) → Step p m (delete_snapshot m i).0
  backup :
      (m : VolumeManager) (b i : String) (now measured : ℕ) (locations : Dict String)
      (u location description : String)
      → Step p m (create_backup b i now measured locations m u location description).0
  start : (m : VolumeManager) (b : String) → Step p m (start_backup m b).0
  finish : (m : VolumeManager) (b : String) (s : Snapshot) → Step p m (finish_backup m b s)
  reload :
      (m : VolumeManager) (u : String) (now : ℕ) (copied removed : Bool) (b name : String)
      → get u m.volumes ≡ none
      → Step p m (restore_backup u now copied removed m b name).0

pub data Steps (p : String) (m : VolumeManager) : VolumeManager → Type 0 where
  here : Steps p m m
  next : {k l : VolumeManager} → Steps p m k → Step p k l → Steps p m l

module _ (v p : String) (n : ℕ) (named : is_attached (some p) ≡ true) where
  reload-Held :
      (u : String) (now : ℕ) (copied removed : Bool) (m : VolumeManager) (b name : String)
      → get u m.volumes ≡ none
      → Held v p n named m
      → Held v p n named (restore_backup u now copied removed m b name).0
  unfolding restore_backup
  reload-Held u now copied removed m b name fresh h = elim (Option-cases (get b m.backups)) [
    | inl e ↦ ground arith
    | inr (w, e) ↦
        ground
          (arith, restore-Held v p n named u now copied removed m w.snapshot_id name none fresh h)
  ]

  start-Held :
      (m : VolumeManager) (b : String) → Held v p n named m → Held v p n named (start_backup m b).0
  unfolding start_backup
  start-Held m b h = ground arith

  finish-Held :
      (m : VolumeManager) (b : String) (s : Snapshot)
      → Held v p n named m
      → Held v p n named (finish_backup m b s)
  unfolding finish_backup
  finish-Held m b s h = ground arith

  drop-Held :
      (m : VolumeManager) (i : String)
      → Held v p n named m
      → Held v p n named (delete_snapshot m i).0
  unfolding delete_snapshot
  drop-Held m i h = ground arith

  Step-Held : {m k : VolumeManager} → Step p m k → Held v p n named m → Held v p n named k
  Step-Held (create m u now name size class fresh) h =
      create-Held v p n named m u h now name size class fresh
  Step-Held (attach m u q) h = attach-Held v p n named m u h q
  Step-Held (detach m u q other) h = detach-Held v p n named m u h q other
  Step-Held (delete m u removed) h = delete-Held v p n named m u h removed
  Step-Held (resize m u size) h = resize-Held v p n named m u h size
  Step-Held (usage m u measured) h = usage-Held v p n named m u h measured
  Step-Held (cleanup m removed q other) h =
      unfold cleanup_pod_volumes in
      cleanup_volumes-Held v p n named removed q m (volumes_to_detach q m.volumes) other h
  Step-Held (snapshot m i now measured u description) h =
      snapshot-Held v p n named i now measured m u description h
  Step-Held (restore m u now copied removed i name size fresh) h =
      restore-Held v p n named u now copied removed m i name size fresh h
  Step-Held (drop_snapshot m i) h = drop-Held m i h
  Step-Held (backup m b i now measured locations u location description) h =
      backup-Held v p n named b i now measured locations m u location description h
  Step-Held (start m b) h = start-Held m b h
  Step-Held (finish m b s) h = finish-Held m b s h
  Step-Held (reload m u now copied removed b name fresh) h =
      reload-Held u now copied removed m b name fresh h

  -- A volume of at least n bytes that is attached to a named pod is still there, attached to that
  -- pod and of at least n bytes, after every history of new volumes under new ids, attachments,
  -- deletions, resizes, usage readings, snapshots, restorations, backups, and detachments and
  -- clean-ups of other pods.
  pub Steps-Held : {m k : VolumeManager} → Steps p m k → Held v p n named m → Held v p n named k
  Steps-Held here h = h
  Steps-Held (next r st) h = Step-Held st (Steps-Held r h)
