-- ===== src/Storage/Cleanup.antt =====
-- What `cleanup_pod_volumes` of src/storage/storage_manager.py leaves.
use disposable_compute_platf.Prelude.{
  String, ◌≡◌, Bool, true, false, none, some, List, [], ◌∷◌, str_eq, eq_iff, arith, Option-cases,
  inl, inr, contains,
}
use disposable_compute_platf.Prelude.Dict.{Dict, get, get-put, get-del}
use disposable_compute_platf.Storage.Volumes.{
  StorageVolume, VolumeManager, attached_to, detach_volume_from_pod, delete_volume, cleanup_volume,
  cleanup_volumes, cleanup_pod_volumes, volumes_to_detach,
}

module _ (p : String) where
  -- The pod's volumes are among these.
  abbrev Within : Dict StorageVolume → List String → Type 0
  Within volumes us =
      (u : String) (w : StorageVolume)
      → get u volumes ≡ some w
      → attached_to p w.attached_to_pod ≡ true
      → contains us u ≡ true

  found : (d : Dict StorageVolume) → Within d (volumes_to_detach p d)
  unfolding volumes_to_detach contains get
  found [] u w e h = cc
  found ((i, x) ∷ d) u w e h = ground (arith, found d u w, eq_iff i u, eq_iff u i)

  detached :
      (m : VolumeManager) (u v : String) (w : StorageVolume)
      → get v (detach_volume_from_pod m u p).0.volumes ≡ some w
      → attached_to p w.attached_to_pod ≡ true
      → (get v m.volumes ≡ some w) × (str_eq u v ≡ false)
  unfolding detach_volume_from_pod
  detached m u v w e h = elim (Option-cases (get u m.volumes)) [
    | inl n ↦ ground (arith, eq_iff u v)
    | inr (x, n) ↦
        ground (arith, eq_iff u v, get-put u v (record x { attached_to_pod = none }) m.volumes)
  ]

  deleted :
      (removed : Bool) (m : VolumeManager) (u v : String) (w : StorageVolume)
      → get v (delete_volume removed m u).0.volumes ≡ some w
      → get v m.volumes ≡ some w
  unfolding delete_volume
  deleted removed m u v w e = ground (arith, eq_iff u v, get-del u v m.volumes)

  cleaned :
      (removed : String → Bool) (m : VolumeManager) (u v : String) (w : StorageVolume)
      → get v (cleanup_volume removed p m u).volumes ≡ some w
      → attached_to p w.attached_to_pod ≡ true
      → (get v m.volumes ≡ some w) × (str_eq u v ≡ false)
  unfolding cleanup_volume
  cleaned removed m u v w e h =
      let m1 = (detach_volume_from_pod m u p).0 in
      ground (arith, detached m u v w, deleted (removed u) m1 u v w)

  cleanup_volumes-detached :
      (removed : String → Bool) (m : VolumeManager) (us : List String)
      → Within m.volumes us
      → Within (cleanup_volumes removed p m us).volumes []
  unfolding cleanup_volumes
  cleanup_volumes-detached removed m [] h = h
  cleanup_volumes-detached removed m (u ∷ us) h =
      cleanup_volumes-detached removed (cleanup_volume removed p m u) us (λ v w e a.
        unfold contains in ground (arith, cleaned removed m u v w e a, h v w, eq_iff u v))

  -- After `cleanup_pod_volumes` no volume in the table is attached to the pod, whichever
  -- directories could be removed.
  pub cleanup_pod_volumes-detached :
      (removed : String → Bool) (m : VolumeManager) (u : String) (w : StorageVolume)
      → get u (cleanup_pod_volumes removed m p).volumes ≡ some w
      → attached_to p w.attached_to_pod ≡ false
  unfolding cleanup_pod_volumes contains
  cleanup_pod_volumes-detached removed m u w e = ground (
    arith,
    cleanup_volumes-detached removed m (volumes_to_detach p m.volumes) (found m.volumes) u w e,
  )
