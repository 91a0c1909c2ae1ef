-- ===== src/Reconcile/Replicas/Largest.antt =====
-- The count of several metrics is the largest that one of them asks for.
use general_pod_autoscaler.Common.{
  ℕ, suc, ◌≤◌, ◌+◌, String, List, [], ◌∷◌, Option, some, ◌≡◌, ◌≢◌, ◌⊎◌, inl, inr, refl, arith, ap,
  sym, ◌∙◌, subst, some_inj, bind-some, if_both, length, Bool-cases, ◌||◌,
}
use general_pod_autoscaler.Common.Int.{ℤ, pos, ◌≤ℤ◌, ltb_ℤ, eqb_ℤ}
use general_pod_autoscaler.Api.Extern.{K8s}
use general_pod_autoscaler.Api.Metrics.{MetricSpec, MetricStatus}
use general_pod_autoscaler.Api.Autoscaler.{GeneralPodAutoscalerCondition}
use general_pod_autoscaler.ScalerCore.Errors.{GoError}
use general_pod_autoscaler.Reconcile.{Event}
use general_pod_autoscaler.Reconcile.Metrics.{MetricResult, computed, failed}
use general_pod_autoscaler.Reconcile.Replicas.{Tally, tally_metric, tally_all}

module _ {k : K8s} (compute : ℕ → MetricSpec k → Option (MetricResult k)) where
  -- A property of each count that a metric of the list, the first of number `i`, asks for.
  unfoldable pub AllCounts : (ℤ → Type 0) → ℕ → List (MetricSpec k) → Type 0
  AllCounts P i [] = Unit
  AllCounts P i (spec ∷ rest) =
      ((n : ℤ) (name : String) (status : MetricStatus k)
        → compute i spec ≡ some (computed n name status)
        → P n)
      × AllCounts P (suc i) rest

  -- A count that one of the metrics asks for.
  pub IsCount : ℤ → ℕ → List (MetricSpec k) → Type 0
  IsCount n i [] = ⊥
  IsCount n i (spec ∷ rest) =
      ((name : String) × (status : MetricStatus k) × (compute i spec
          ≡ some (computed n name status)))
      ⊎ IsCount n (suc i) rest

  -- One of the metrics fails or has a count: the tally grows to the larger count.
  step_grows :
      (t : Tally k) (n : ℤ) (name : String) (status : MetricStatus k)
      → pos 0 ≤ℤ n
      → let t' = tally_metric t (computed n name status) in
        (t.replicas ≤ℤ t'.replicas)
        × (n ≤ℤ t'.replicas)
        × ((t'.replicas ≡ t.replicas) ⊎ (t'.replicas ≡ n))
  unfolding tally_metric
  step_grows t n name status h = (
    ground arith,
    ground arith,
    elim (Bool-cases (eqb_ℤ t.replicas (pos 0) || ltb_ℤ t.replicas n)) [
      | inl larger ↦ rw larger (inr refl)
      | inr at_most ↦ rw at_most (inl refl)
    ],
  )

  -- What the loop over the metrics from number `i` makes of a tally.
  abbrev IsLargest : ℕ → List (MetricSpec k) → ℤ → ℤ → Type 0
  IsLargest i specs before now =
      (before ≤ℤ now) × AllCounts (λ n. n ≤ℤ now) i specs × ((now ≡ before) ⊎ IsCount now i specs)

  same_count :
      (n n' : ℤ) {name name' : String} {status status' : MetricStatus k}
      → computed n name status ≡ computed n' name' status'
      → n ≡ n'
  same_count n n' h = cc

  failed_ne_computed :
      {warning : Event} {condition : GeneralPodAutoscalerCondition} {e : GoError} {n : ℤ}
      {name : String} {status : MetricStatus k}
      → failed warning condition e ≢ computed n name status
  failed_ne_computed h = cc

  failed_keeps :
      (t : Tally k) (warning : Event) (condition : GeneralPodAutoscalerCondition) (e : GoError)
      → (tally_metric t (failed warning condition e)).replicas ≡ t.replicas
  unfolding tally_metric
  failed_keeps t warning condition e = refl

  -- One metric more in front.
  IsLargest-step :
      (i : ℕ) (spec : MetricSpec k) (rest : List (MetricSpec k)) (t : Tally k) (m : MetricResult k)
      (now : ℤ)
      → compute i spec ≡ some m
      → ((n : ℤ) (name : String) (status : MetricStatus k)
          → compute i spec ≡ some (computed n name status)
          → pos 0 ≤ℤ n)
      → IsLargest (suc i) rest (tally_metric t m).replicas now
      → IsLargest i (spec ∷ rest) t.replicas now
  unfolding AllCounts IsCount
  IsLargest-step i spec rest t (computed n name status) now e nonneg (grows, all, origin) =
      let (more, above, which) = step_grows t n name status (nonneg n name status e) in
      (
        omega arith,
        (
          (λ n' name' status' e'.
              subst (λ x. x ≤ℤ now) (same_count n n' (some_inj (sym e ∙ e'))) (omega arith)),
          all,
        ),
        elim origin [
          | inr later ↦ inr (inr later)
          | inl is ↦ elim which [
            | inl kept ↦ inl (is ∙ kept)
            | inr taken ↦ inr (
                inl (
                  name,
                  status,
                  subst (λ x. compute i spec ≡ some (computed x name status)) (sym (is ∙ taken)) e,
                ))
          ]
        ],
      )
  IsLargest-step i spec rest t (failed warning condition error) now e nonneg (grows, all, origin) =
      let kept = failed_keeps t warning condition error in
      (
        subst (λ x. x ≤ℤ now) kept grows,
        ((λ n name status e'. absurd (failed_ne_computed (some_inj (sym e ∙ e')))), all),
        elim origin [ inl is ↦ inl (is ∙ kept) | inr later ↦ inr (inr later) ],
      )

  pub tally_all-IsLargest :
      (i : ℕ) (specs : List (MetricSpec k)) (t r : Tally k)
      → AllCounts (λ n. pos 0 ≤ℤ n) i specs
      → tally_all compute i specs t ≡ some r
      → IsLargest i specs t.replicas r.replicas
  unfolding tally_all AllCounts IsCount
  tally_all-IsLargest i [] t r nonneg e =
      let is = ap (λ x. x.replicas) (some_inj e) in
      (subst (λ x. t.replicas ≤ℤ x) is (omega arith), tt, inl (sym is))
  tally_all-IsLargest i (spec ∷ rest) t r (one, nonneg) e =
      let (m, em, er) =
        bind-some (compute i spec) (λ m. tally_all compute (suc i) rest (tally_metric t m)) e in
      IsLargest-step i spec rest t m r.replicas em one
        (tally_all-IsLargest (suc i) rest (tally_metric t m) r nonneg er)

  computed_keeps :
      (t : Tally k) (n : ℤ) (name : String) (status : MetricStatus k)
      → (tally_metric t (computed n name status)).invalid_metrics_count ≡ t.invalid_metrics_count
  unfolding tally_metric
  computed_keeps t n name status =
      if_both (λ (x : Tally k). x.invalid_metrics_count ≡ t.invalid_metrics_count) _ _ _ refl refl

  failed_counts :
      (t : Tally k) (warning : Event) (condition : GeneralPodAutoscalerCondition) (e : GoError)
      → (tally_metric t (failed warning condition e)).invalid_metrics_count
        ≡ suc t.invalid_metrics_count
  unfolding tally_metric
  failed_counts t warning condition e = refl

  -- The number of the metrics that failed, and what it says if it is all of them.
  abbrev CountsFailures : ℕ → List (MetricSpec k) → ℕ → ℕ → Type 0
  CountsFailures i specs before now =
      (now ≤ before + length specs) × (before + length specs ≤ now → AllCounts (λ n. ⊥) i specs)

  failures_step :
      (i : ℕ) (spec : MetricSpec k) (rest : List (MetricSpec k)) (t : Tally k) (m : MetricResult k)
      (now : ℕ)
      → compute i spec ≡ some m
      → CountsFailures (suc i) rest (tally_metric t m).invalid_metrics_count now
      → CountsFailures i (spec ∷ rest) t.invalid_metrics_count now
  unfolding AllCounts
  failures_step i spec rest t (computed n name status) now e (most, all) =
      let kept = computed_keeps t n name status in
      let most' = subst (λ x. now ≤ x + length rest) kept most in
      (omega arith, λ h. absurd (omega arith))
  failures_step i spec rest t (failed warning condition error) now e (most, all) =
      let more = failed_counts t warning condition error in
      let most' = subst (λ x. now ≤ x + length rest) more most in
      let all' = subst (λ x. x + length rest ≤ now → AllCounts (λ n. ⊥) (suc i) rest) more all in
      (
        omega arith,
        λ h. ((λ n name status e'. failed_ne_computed (some_inj (sym e ∙ e'))), all' (omega arith)),
      )

  pub tally_all_failures :
      (i : ℕ) (specs : List (MetricSpec k)) (t r : Tally k)
      → tally_all compute i specs t ≡ some r
      → CountsFailures i specs t.invalid_metrics_count r.invalid_metrics_count
  unfolding tally_all AllCounts
  tally_all_failures i [] t r e =
      subst (CountsFailures i [] t.invalid_metrics_count)
        (ap (λ x. x.invalid_metrics_count) (some_inj e)) (omega arith, λ h. tt)
  tally_all_failures i (spec ∷ rest) t r e =
      let (m, em, er) =
        bind-some (compute i spec) (λ m. tally_all compute (suc i) rest (tally_metric t m)) e in
      failures_step i spec rest t m r.invalid_metrics_count em
        (tally_all_failures (suc i) rest (tally_metric t m) r er)
