-- ===== src/Scheduler/Reservation/RoundTrip.antt =====
-- `reserve` and `release` of src/scheduler/scheduler.py, one after the other.
use disposable_compute_platf.Prelude.{
  String, ◌≡◌, true, false, none, All, arith, eq_iff, Option-cases, inl, inr,
}
use disposable_compute_platf.Prelude.Dict.{get, get-put, del-put}
use disposable_compute_platf.Prelude.Float.{Float}
use disposable_compute_platf.Scheduler.Types.{Node, PodRequest, gpu_demand}
use disposable_compute_platf.Scheduler.Validator.{validate}
use disposable_compute_platf.Scheduler.Reservation.{
  reserve, release, short, take_resources, give_back, assignment,
}
use disposable_compute_platf.Scheduler.Reservation.Gpus.{held, Unclaimed, release_gpus-reserve_gpus}

module _ {F : Type 0} (fl : Float F) (now : F) (node : Node F) (request : PodRequest F) where
  -- A reservation on a node that passes validation for the request succeeds.
  pub reserve-validate : validate fl node request ≡ none → (reserve fl now node request).1 ≡ true
  unfolding validate reserve short gpu_demand
  reserve-validate h = ground arith

  pub reserve_refused :
      (reserve fl now node request).1 ≡ false → (reserve fl now node request).0 ≡ node
  unfolding reserve
  reserve_refused h = ground arith

  -- A pod that the node does not hold is not released.
  pub release_absent :
      (p : String) → get p node.assigned_pods ≡ none → release fl node p ≡ (node, false)
  unfolding release
  release_absent p h = rw (h, release)

  -- Releasing a pod just after a successful reservation restores the node exactly, when the node
  -- did not hold the pod, no device named it, no available device names a pod, and adding back the
  -- CPU that was subtracted gives the old float.
  pub release-reserve :
      (reserve fl now node request).1 ≡ true
      → get request.id node.assigned_pods ≡ none
      → held request.id node.gpu_devices ≡ 0
      → All Unclaimed node.gpu_devices
      → fl.plus
          (fl.minus node.cpu_available request.pod_spec.resource_requirements.cpu_cores)
          request.pod_spec.resource_requirements.cpu_cores
        ≡ node.cpu_available
      → release fl (reserve fl now node request).0 request.id ≡ (node, true)
  unfolding reserve release take_resources give_back short
  release-reserve h fresh z u exact =
      let id = request.id in
      let pods = node.assigned_pods in
      let a = assignment now request.pod_spec in
      elim (Option-cases (gpu_demand request.pod_spec)) [
        | inl e ↦ ground (arith, e, get-put id id a pods, eq_iff id id, del-put id a pods fresh)
        | inr (g, e) ↦ ground (
          arith,
          e,
          get-put id id a pods,
          eq_iff id id,
          del-put id a pods fresh,
          release_gpus-reserve_gpus g.count id 0 node.gpu_devices z u,
        )
      ]
