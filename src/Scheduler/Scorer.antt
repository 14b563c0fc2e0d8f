-- ===== src/Scheduler/Scorer.antt =====
-- `NodeScorer`: the score of a node for a request, over the floats of Prelude/Float.
use disposable_compute_platf.Prelude.{
  ℕ, Option, none, some, List, [], ◌∷◌, ◌++◌, map, ltb, max, length, if◌then◌else◌, ◌&&◌,
}
use disposable_compute_platf.Prelude.Float.{Float, float_max, float_min, float_sum, sum_from}
use disposable_compute_platf.Scheduler.Types.{GpuResource, Node, PodRequest, gpu_demand}

pub record ScoringWeights (F : Type 0) : Type 0 where
  pub resource : F
  pub load : F
  pub proximity : F
  pub reliability : F

module _ {F : Type 0} (fl : Float F) where
  open fl use {
    lit, plus, minus, times, over, less, sine, cosine, square_root, arc_tangent2, radians,
  }

  abbrev pub default_weights : ScoringWeights F
  default_weights = record {
    resource = lit 4 1;
    load = lit 3 1;
    proximity = lit 2 1;
    reliability = lit 1 1;
  }

  -- `(score, weight)`, without the name that the source puts in front.
  unfoldable pub vram_score : Node F → Option GpuResource → List (F × F)
  unfolding float_max
  vram_score node none = []
  vram_score node (some g) =
      if ltb 0 node.gpu_vram_total_mb
      then (let util =
            over (minus (lit node.gpu_vram_total_mb 0) (lit node.gpu_vram_available_mb 0))
              (lit node.gpu_vram_total_mb 0) in
          (float_max fl (lit 0 0) (minus (lit 1 0) util), lit 5 1) ∷ [])
      else []

  -- `max(0.0, min(1.0, 1.0 - util + 1))`
  unfoldable pub free_score : F → F
  unfolding float_max float_min
  free_score util =
      float_max fl (lit 0 0) (float_min fl (lit 1 0) (plus (minus (lit 1 0) util) (lit 1 0)))

  unfoldable pub cpu_util : Node F → F
  unfolding float_max
  cpu_util node =
      if less (lit 0 0) node.cpu_available
      then over node.cpu_total (float_max fl node.cpu_available (lit 1 1))
      else lit 1 0

  -- `total / max(available, 1) if available > 0 else 1.0`, for whole amounts.
  unfoldable pub amount_util : ℕ → ℕ → F
  amount_util total available =
      if ltb 0 available then over (lit total 0) (lit (max available 1) 0) else lit 1 0

  unfoldable pub resource_scores : Node F → PodRequest F → List (F × F)
  unfolding vram_score free_score cpu_util amount_util
  resource_scores node request =
      vram_score node (gpu_demand request.pod_spec)
      ++ (free_score (cpu_util node), lit 2 1)
        ∷ (free_score (amount_util node.memory_total_mb node.memory_available_mb), lit 2 1)
        ∷ (free_score (amount_util node.storage_total_gb node.storage_available_gb), lit 1 1)
        ∷ []

  unfoldable pub calculate_resource_score : Node F → PodRequest F → F
  unfolding resource_scores sum_from
  calculate_resource_score node request =
      let scores = resource_scores node request in
      let total_weight = float_sum fl (map (λ s. s.1) scores) in
      let weighted_sum = float_sum fl (map (λ s. times s.0 s.1) scores) in
      if less (lit 0 0) total_weight then over weighted_sum total_weight else lit 5 1

  unfoldable pub load_factors : Node F → PodRequest F → List F
  load_factors node request =
      (if less (lit 0 0) node.cpu_load_avg then node.cpu_load_avg ∷ [] else [])
      ++ (if less (lit 0 0) node.memory_load_avg then node.memory_load_avg ∷ [] else [])
      ++ (if less (lit 0 0) node.gpu_load_avg && request.pod_spec.gpu_required
          then node.gpu_load_avg ∷ []
          else [])

  unfoldable pub mean_load : List F → F
  unfolding sum_from float_max
  mean_load [] = lit 8 1
  mean_load (x ∷ xs) =
      float_max fl (lit 0 0)
        (minus (lit 1 0) (over (float_sum fl (x ∷ xs)) (lit (length (x ∷ xs)) 0)))

  unfoldable pub calculate_load_score : Node F → PodRequest F → F
  unfolding load_factors mean_load
  calculate_load_score node request = mean_load (load_factors node request)

  unfoldable pub haversine_distance : F → F → F → F → F
  haversine_distance lat1 lon1 lat2 lon2 =
      let half_lat = sine (over (radians (minus lat2 lat1)) (lit 2 0)) in
      let half_lon = sine (over (radians (minus lon2 lon1)) (lit 2 0)) in
      let a =
        plus (times half_lat half_lat) (
          times (times (cosine (radians lat1)) (cosine (radians lat2)))
            (times half_lon half_lon)) in
      let c = times (lit 2 0) (arc_tangent2 (square_root a) (square_root (minus (lit 1 0) a))) in
      times (lit 6371 0) c

  unfoldable pub distance_score : F → F
  distance_score distance =
      if less distance (lit 50 0)
      then lit 1 0
      else if less distance (lit 200 0)
      then lit 8 1
      else if less distance (lit 500 0)
      then lit 6 1
      else if less distance (lit 1000 0)
      then lit 4 1
      else lit 2 1

  unfoldable pub calculate_proximity_score : Node F → Option (F × F) → F
  unfolding haversine_distance distance_score
  calculate_proximity_score node none = lit 7 1
  calculate_proximity_score node (some (lat, lon)) =
      distance_score (haversine_distance node.latitude node.longitude lat lon)

  unfoldable pub calculate_reliability_score : F → Node F → F
  calculate_reliability_score now node =
      let heartbeat_age = minus now node.last_heartbeat in
      if less (lit 300 0) heartbeat_age
      then lit 0 0
      else if less (lit 60 0) heartbeat_age
      then lit 5 1
      else lit 1 0

  unfoldable pub score : ScoringWeights F → F → Node F → PodRequest F → Option (F × F) → F
  unfolding calculate_resource_score calculate_load_score calculate_proximity_score
      calculate_reliability_score float_max float_min
  score weights now node request user_location =
      let total_score =
        plus
          (plus
            (plus (times weights.resource (calculate_resource_score node request))
              (times weights.load (calculate_load_score node request)))
            (times weights.proximity (calculate_proximity_score node user_location)))
          (times weights.reliability (calculate_reliability_score now node)) in
      float_min fl (lit 1 0) (float_max fl (lit 0 0) total_score)
