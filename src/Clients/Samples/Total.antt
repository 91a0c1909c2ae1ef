-- ===== src/Clients/Samples/Total.antt =====
-- The samples of a pod are averaged without a division by zero.
use general_pod_autoscaler.Common.{
  ◌≤◌, ◌<◌, List, [], ◌∷◌, Option, some, none, ◌≡◌, ◌≢◌, ◌⊎◌, inl, inr, refl, arith, ap, sym, ◌∙◌,
  some_inj, some_ne_none, bind_ne_none, ◌>>=◌, if_split, if_both,
}
use general_pod_autoscaler.Common.Int.{ℤ, pos, ◌+ℤ◌, ◌<ℤ◌, ltb_ℤ, <ℤ→ltb_ℤ}
use general_pod_autoscaler.Common.Runtime.{Runtime}
use general_pod_autoscaler.Api.Extern.{Time}
use general_pod_autoscaler.Replicas.Utilization.Total.{quotient_total}
use general_pod_autoscaler.Clients.Samples.{
  MetricPoint, Samples, find_newest, add_float, add_sample, add_samples, no_samples, average,
  collapse_time_samples,
}

later_lt : (t d : ℤ) → pos 0 <ℤ d → t <ℤ t +ℤ d
unfolding ◌+ℤ◌
later_lt t d h = ground arith

module _ (rt : Runtime) where
  -- A sample of this time is in a list.
  abbrev HasTime : Time → List (MetricPoint rt) → Type 0
  HasTime t [] = ⊥
  HasTime t (p ∷ rest) = (p.timestamp ≡ t) ⊎ HasTime t rest

  find_newest-HasTime :
      (points : List (MetricPoint rt)) (start : Option (MetricPoint rt)) (newest : MetricPoint rt)
      → find_newest rt points start ≡ some newest
      → (start ≡ some newest) ⊎ HasTime newest.timestamp points
  unfolding find_newest
  find_newest-HasTime [] start newest e = inl e
  find_newest-HasTime (p ∷ rest) none newest e = elim (find_newest-HasTime rest (some p) newest e) [
    | inl is ↦ inr (inl (ap (λ x. x.timestamp) (some_inj is)))
    | inr later ↦ inr (inr later)
  ]
  find_newest-HasTime (p ∷ rest) (some q) newest e = elim (find_newest-HasTime rest _ newest e) [
    | inr later ↦ inr (inr later)
    | inl is ↦
        if_split (ltb_ℤ q.timestamp p.timestamp) p q
          (λ newer same. inr (inl (ap (λ x. x.timestamp) same))) (λ older same. inl (ap some same))
          (some_inj is)
  ]

  add_float-count :
      (x : Option rt.float.F) (s : Samples rt) → (add_float rt x s).int_sum_count ≡ s.int_sum_count
  unfolding add_float
  add_float-count none s = refl
  add_float-count (some x) s = refl

  add_sample-count :
      (duration newest : Time) (p : MetricPoint rt) (s : Samples rt)
      → s.int_sum_count ≤ (add_sample rt duration newest p s).int_sum_count
  unfolding add_sample
  add_sample-count duration newest p s =
      if_both (λ (x : Samples rt). s.int_sum_count ≤ x.int_sum_count)
        (ltb_ℤ newest (p.timestamp +ℤ duration)) _ _
        (rw (add_float-count p.float_value _) (omega arith)) (omega arith)

  -- A sample as new as the newest counts, if the duration is more than zero.
  add_sample-counts :
      (duration newest : Time) (p : MetricPoint rt) (s : Samples rt)
      → pos 0 <ℤ duration
      → p.timestamp ≡ newest
      → 0 < (add_sample rt duration newest p s).int_sum_count
  unfolding add_sample
  add_sample-counts duration newest p s positive same =
      rw (same, <ℤ→ltb_ℤ newest (newest +ℤ duration) (later_lt newest duration positive))
        (rw (add_float-count p.float_value _) (omega arith))

  add_samples-count :
      (duration newest : Time) (points : List (MetricPoint rt)) (s : Samples rt)
      → s.int_sum_count ≤ (add_samples rt duration newest points s).int_sum_count
  unfolding add_samples
  add_samples-count duration newest [] s = omega arith
  add_samples-count duration newest (p ∷ rest) s =
      let one = add_sample-count duration newest p s in
      let more = add_samples-count duration newest rest (add_sample rt duration newest p s) in
      omega arith

  add_samples-counts :
      (duration newest : Time) (points : List (MetricPoint rt)) (s : Samples rt)
      → pos 0 <ℤ duration
      → HasTime newest points
      → 0 < (add_samples rt duration newest points s).int_sum_count
  unfolding add_samples
  add_samples-counts duration newest [] s positive h = elim h [ ]
  add_samples-counts duration newest (p ∷ rest) s positive (inl same) =
      let one = add_sample-counts duration newest p s positive same in
      let more = add_samples-count duration newest rest (add_sample rt duration newest p s) in
      omega arith
  add_samples-counts duration newest (p ∷ rest) s positive (inr in_rest) =
      add_samples-counts duration newest rest (add_sample rt duration newest p s) positive in_rest

  average_total :
      (float_value : Option rt.float.F) (s : Samples rt)
      → 0 < s.int_sum_count
      → average rt float_value s ≢ none
  unfolding average
  average_total (some x) s h = some_ne_none
  average_total none s h =
      λ e. some_ne_none (sym (quotient_total _ (pos s.int_sum_count) (ground arith)) ∙ e)

  -- For a duration of more than zero, the samples of a pod are averaged without a division by zero,
  -- however many there are and whatever their times and values: the newest of them counts.
  pub collapse_time_samples_total :
      (points : List (MetricPoint rt)) (duration : Time)
      → pos 0 <ℤ duration
      → collapse_time_samples rt points duration ≢ none
  unfolding collapse_time_samples
  collapse_time_samples_total points duration positive = from (find_newest rt points none) refl
    where
      from :
          (o : Option (MetricPoint rt))
          → find_newest rt points none ≡ o
          → (elim o as (λ _. Option (Option (ℤ × Time))) [
            | none ↦ some none
            | some newest ↦
                average rt newest.float_value
                  (add_samples rt duration newest.timestamp points (no_samples rt))
                >>= (λ value. some (some (value, newest.timestamp)))
          ])
            ≢ none
      from none e = some_ne_none
      from (some newest) e =
          bind_ne_none _ _
            (average_total newest.float_value _ (
              add_samples-counts duration newest.timestamp points (no_samples rt) positive
                (elim (find_newest-HasTime points none newest e) [
                  | inl impossible ↦ absurd (some_ne_none (sym impossible))
                  | inr there ↦ there
                ])))
            (λ value. some_ne_none)
