-- ===== src/Clients/Samples.antt =====
-- The samples of Heapster's answers: `collapseTimeSamples` of pkg/metrics/legacy_metrics_client.go.
-- `none` is the panic of a division by zero; a sample's value is a number of 64 bits without a sign.
pub mod Total
use general_pod_autoscaler.Common.{ℕ, suc, List, [], ◌∷◌, Option, none, some, ◌>>=◌, if◌then◌else◌}
use general_pod_autoscaler.Common.Int.{ℤ, pos, ◌+ℤ◌, ◌*ℤ◌, ltb_ℤ}
use general_pod_autoscaler.Common.Machine.{wrap64}
use general_pod_autoscaler.Common.Runtime.{Runtime}
use general_pod_autoscaler.Api.Extern.{Time}
use general_pod_autoscaler.Replicas.Utilization.{quotient}

pub record MetricPoint (rt : Runtime) : Type 0 where
  pub timestamp : Time
  pub value : ℕ
  pub float_value : Option rt.float.F

module _ (rt : Runtime) where
  -- The newest sample; the first of those that are equally new.
  pub find_newest : List (MetricPoint rt) → Option (MetricPoint rt) → Option (MetricPoint rt)
  find_newest [] newest = newest
  find_newest (p ∷ rest) none = find_newest rest (some p)
  find_newest (p ∷ rest) (some newest) =
      find_newest rest (some (if ltb_ℤ newest.timestamp p.timestamp then p else newest))

  -- The sums and the counts of the samples' values, whole and with a fraction.
  pub record Samples : Type 0 where
    pub int_sum : ℤ
    pub int_sum_count : ℕ
    pub float_sum : rt.float.F
    pub float_sum_count : ℕ

  pub add_float : Option rt.float.F → Samples → Samples
  add_float none s = s
  add_float (some x) s = record s {
    float_sum = rt.float.add s.float_sum x;
    float_sum_count = suc s.float_sum_count;
  }

  -- A sample counts that is less than `duration` older than the newest.
  pub add_sample : Time → Time → MetricPoint rt → Samples → Samples
  unfolding add_float
  add_sample duration newest p s =
      if ltb_ℤ newest (p.timestamp +ℤ duration)
      then add_float p.float_value (record s {
        int_sum = wrap64 (s.int_sum +ℤ wrap64 (pos p.value));
        int_sum_count = suc s.int_sum_count;
      })
      else s

  pub add_samples : Time → Time → List (MetricPoint rt) → Samples → Samples
  unfolding add_sample
  add_samples duration newest [] s = s
  add_samples duration newest (p ∷ rest) s =
      add_samples duration newest rest (add_sample duration newest p s)

  abbrev pub no_samples : Samples
  no_samples = record {
    int_sum = pos 0;
    int_sum_count = 0;
    float_sum = rt.float.of_int (pos 0);
    float_sum_count = 0;
  }

  -- The average of the samples, in thousandths.
  pub average : Option rt.float.F → Samples → Option ℤ
  average none s = quotient (wrap64 (s.int_sum *ℤ pos 1000)) (pos s.int_sum_count)
  average (some _) s = some (
      rt.float.to_int64 (
        rt.float.mul (rt.float.div s.float_sum (rt.float.of_int (pos s.float_sum_count)))
          (rt.float.of_int (pos 1000))))

  -- No value where there is no sample.
  pub collapse_time_samples : List (MetricPoint rt) → Time → Option (Option (ℤ × Time))
  unfolding find_newest add_samples average
  collapse_time_samples metrics duration = elim (find_newest metrics none) [
    | none ↦ some none
    | some newest ↦
        average newest.float_value (add_samples duration newest.timestamp metrics no_samples)
        >>= (λ value. some (some (value, newest.timestamp)))
  ]
