-- ===== src/Storage/Attachment.antt =====
-- The operations of src/storage/storage_manager.py on a volume that is attached to a pod.
use disposable_compute_platf.Prelude.{
  ℕ, ◌*◌, String, ◌≡◌, Bool, true, false, Option, none, some, List, [], ◌∷◌, ◌&&◌, leb, str_eq,
  eq_iff, arith, Option-cases, inl, inr,
}
use disposable_compute_platf.Prelude.Dict.{Dict, get, get-put, get-del}
use disposable_compute_platf.Storage.Volumes.{
  StorageVolume, VolumeManager, gigabyte, is_attached, attached_to, create_volume,
  attach_volume_to_pod, detach_volume_from_pod, delete_volume, resize_volume, get_volume_usage,
  cleanup_volume, cleanup_volumes,
}
use disposable_compute_platf.Storage.Backups.{
  create_snapshot, restore_snapshot, create_backup, size_or_default,
}

-- There is the volume, attached to the pod, of at least this size.
abbrev pub is_held : String → ℕ → Option StorageVolume → Bool
is_held p n none = false
is_held p n (some volume) = attached_to p volume.attached_to_pod && leb n volume.size_bytes

module _ (v p : String) (n : ℕ) (named : is_attached (some p) ≡ true) where
  abbrev pub Held : VolumeManager → Type 0
  Held m = is_held p n (get v m.volumes) ≡ true

  attached-named : (o : Option String) → attached_to p o ≡ true → is_attached o ≡ true
  attached-named none h = cc
  attached-named (some q) h = ground (arith, eq_iff q p)

  module _ (m : VolumeManager) (u : String) (h : Held m) where
    pub create-Held :
        (now : ℕ) (name : String) (size : ℕ) (class : String)
        → get u m.volumes ≡ none
        → Held (create_volume u now m name size class).0
    unfolding create_volume
    create-Held now name size class fresh =
        ground (arith, eq_iff u v, get-put u v (create_volume u now m name size class).1 m.volumes)

    pub attach-Held : (q : String) → Held (attach_volume_to_pod m u q).0
    unfolding attach_volume_to_pod
    attach-Held q = elim (Option-cases (get u m.volumes)) [
      | inl e ↦ ground arith
      | inr (w, e) ↦ ground (
        arith,
        eq_iff u v,
        attached-named w.attached_to_pod,
        get-put u v (record w { attached_to_pod = some q }) m.volumes,
      )
    ]

    pub detach-Held : (q : String) → str_eq q p ≡ false → Held (detach_volume_from_pod m u q).0
    unfolding detach_volume_from_pod
    detach-Held q other = elim (Option-cases (get u m.volumes)) [
      | inl e ↦ ground arith
      | inr (w, e) ↦ elim (Option-cases w.attached_to_pod) [
        | inl a ↦ ground arith
        | inr (r, a) ↦ ground (
          arith,
          eq_iff u v,
          eq_iff r p,
          eq_iff r q,
          eq_iff q p,
          get-put u v (record w { attached_to_pod = none }) m.volumes,
        )
      ]
    ]

    pub delete-Held : (removed : Bool) → Held (delete_volume removed m u).0
    unfolding delete_volume
    delete-Held removed = elim (Option-cases (get u m.volumes)) [
      | inl e ↦ ground arith
      | inr (w, e) ↦
          ground (arith, eq_iff u v, attached-named w.attached_to_pod, get-del u v m.volumes)
    ]

    pub resize-Held : (size : ℕ) → Held (resize_volume m u size).0
    unfolding resize_volume
    resize-Held size = elim (Option-cases (get u m.volumes)) [
      | inl e ↦ ground arith
      | inr (w, e) ↦
          ground
            (arith, eq_iff u v, get-put u v (record w { size_bytes = size * gigabyte }) m.volumes)
    ]

    pub usage-Held : (measured : ℕ) → Held (get_volume_usage measured m u).0
    unfolding get_volume_usage
    usage-Held measured = elim (Option-cases (get u m.volumes)) [
      | inl e ↦ ground arith
      | inr (w, e) ↦
          ground (arith, eq_iff u v, get-put u v (record w { used_bytes = measured }) m.volumes)
    ]

  cleanup_volume-Held :
      (removed : String → Bool) (q : String) (m : VolumeManager) (u : String)
      → str_eq q p ≡ false
      → Held m
      → Held (cleanup_volume removed q m u)
  unfolding cleanup_volume
  cleanup_volume-Held removed q m u other h = ground (
    arith,
    detach-Held m u h q other,
    delete-Held (detach_volume_from_pod m u q).0 u (detach-Held m u h q other) (removed u),
  )

  pub cleanup_volumes-Held :
      (removed : String → Bool) (q : String) (m : VolumeManager) (us : List String)
      → str_eq q p ≡ false
      → Held m
      → Held (cleanup_volumes removed q m us)
  unfolding cleanup_volumes
  cleanup_volumes-Held removed q m [] other h = h
  cleanup_volumes-Held removed q m (u ∷ us) other h =
      cleanup_volumes-Held removed q (cleanup_volume removed q m u) us other
        (cleanup_volume-Held removed q m u other h)

  pub snapshot-Held :
      (i : String) (now measured : ℕ) (m : VolumeManager) (u description : String)
      → Held m
      → Held (create_snapshot i now measured m u description).0
  unfolding create_snapshot
  snapshot-Held i now measured m u description h = ground (arith, usage-Held m u h measured)

  pub restore-Held :
      (u : String) (now : ℕ) (copied removed : Bool) (m : VolumeManager) (i name : String)
      (size : Option ℕ)
      → get u m.volumes ≡ none
      → Held m
      → Held (restore_snapshot u now copied removed m i name size).0
  unfolding restore_snapshot
  restore-Held u now copied removed m i name size fresh h =
      elim (Option-cases (get i m.snapshots)) [
        | inl e ↦ ground arith
        | inr (s, e) ↦
            let m1 = (create_volume u now m name (size_or_default s size) "ssd").0 in
            let h1 : Held m1 = create-Held m u h now name (size_or_default s size) "ssd" fresh in
            ground (arith, h1, delete-Held m1 u h1 removed)
      ]

  pub backup-Held :
      (b i : String) (now measured : ℕ) (locations : Dict String) (m : VolumeManager)
      (u location description : String)
      → Held m
      → Held (create_backup b i now measured locations m u location description).0
  unfolding create_backup
  backup-Held b i now measured locations m u location description h =
      ground (arith, snapshot-Held i now measured m u description h)
