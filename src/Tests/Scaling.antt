-- ===== src/Tests/Scaling.antt =====
-- The theorems on the bounds and the rates, at concrete counts.
use general_pod_autoscaler.Common.{◌*◌, ◌≡◌, refl, ◌⊎◌, String, [], ◌∷◌, some, arith}
use general_pod_autoscaler.Common.Int.{ℤ, pos, ◌≤ℤ◌, ◌<ℤ◌, ◌+ℤ◌, ◌-ℤ◌, ◌*ℤ◌, max_ℤ}
use general_pod_autoscaler.Common.Dict.{lookup, items}
use general_pod_autoscaler.Common.Machine.{IsInt32, wrap32, wrap64}
use general_pod_autoscaler.Common.Sum.{sum_by}
use general_pod_autoscaler.Common.Float.{fractions, fractions-IsIeee}
use general_pod_autoscaler.Api.Autoscaler.{GeneralPodAutoscaler}
use general_pod_autoscaler.Scaler.State.{GeneralController, seconds}
use general_pod_autoscaler.Scaler.Limits.{convert_desired_replicas_with_rules}
use general_pod_autoscaler.Scaler.Limits.Bounds.{convert_desired_replicas_bounds}
use general_pod_autoscaler.Scaler.Policies.{
  change_after, get_replicas_change_per_period, convert_desired_replicas_with_behavior_rate,
}
use general_pod_autoscaler.Scaler.Policies.Rate.{
  HasPolicies, IsBetween, convert_with_behavior_rate-IsBetween,
}
use general_pod_autoscaler.Scaler.Policies.Select.{
  min_select_never_scales_up, min_select_never_scales_down, disabled_select_keeps,
}
use general_pod_autoscaler.Scaler.Policies.Window.{
  in_window, get_replicas_change-sum_by, pods_policy_rate,
}
use general_pod_autoscaler.Scaler.Normalize.{
  normalize_desired_replicas, normalize_desired_replicas_with_behaviors,
}
use general_pod_autoscaler.Scaler.Normalize.Bounds.{
  IsComplete, normalize_desired_replicas_bounds, normalize_with_behaviors_bounds,
}
use general_pod_autoscaler.Tests.{
  k8s, runtime, four_pods, up_rules, down_rules, min_rules, disabled_rules, behavior, gpa, now,
  added_two, controller, args_of,
}

-- The autoscaler of the test data with a complete behaviour.
pub behavior-IsComplete : IsComplete behavior
behavior-IsComplete = record {
  up = up_rules;
  up_select = "Max";
  up_window = pos 30;
  down = down_rules;
  down_select = "Max";
  up_is = refl;
  up_selects = refl;
  up_waits = refl;
  down_is = refl;
  down_selects = refl;
}

normalize_with_behaviors_bounds_example :
    (r : ℤ × GeneralPodAutoscaler k8s × GeneralController)
    × (normalize_desired_replicas_with_behaviors runtime
          (λ i. now)
          gpa
          controller
          "default/web"
          (pos 5)
          (pos 30)
          (pos 2)
        ≡ some r)
    × (pos 2 ≤ℤ r.0)
    × (r.0 ≤ℤ pos 20)
normalize_with_behaviors_bounds_example =
    normalize_with_behaviors_bounds runtime (λ i. now) gpa controller "default/web" (pos 5) (pos 30)
      (pos 2) behavior refl behavior-IsComplete (omega arith) (omega arith)

normalize_desired_replicas_bounds_example :
    let r =
      (normalize_desired_replicas runtime
        (λ i. now)
        gpa
        controller
        "default/web"
        (pos 5)
        (pos 30)
        (pos 2)).0 in
    (pos 2 ≤ℤ r) × (r ≤ℤ pos 20) × (r ≤ℤ max_ℤ (pos (2 * 5)) (pos 4))
normalize_desired_replicas_bounds_example =
    normalize_desired_replicas_bounds runtime (λ i. now) gpa controller "default/web" (pos 5)
      (pos 30) (pos 2) fractions-IsIeee (omega arith) (omega arith) (omega arith) (omega arith)

has_policies : HasPolicies (args_of up_rules down_rules (pos 5) (pos 30))
has_policies = record {
  up_rules = up_rules;
  up_select = "Max";
  down_rules = down_rules;
  down_select = "Max";
  up_is = refl;
  up_selects = refl;
  down_is = refl;
  down_selects = refl;
}

convert_with_behavior_rate-IsBetween_example :
    (r : ℤ × String × String) × (convert_desired_replicas_with_behavior_rate fractions
        (λ i. now)
        controller
        (args_of up_rules down_rules (pos 5) (pos 30))
      ≡ some r)
    × IsBetween (args_of up_rules down_rules (pos 5) (pos 30)) r.0
convert_with_behavior_rate-IsBetween_example =
    convert_with_behavior_rate-IsBetween fractions (λ i. now) controller
      (args_of up_rules down_rules (pos 5) (pos 30)) has_policies (omega arith) (omega arith)

convert_desired_replicas_bounds_example :
    let r = (convert_desired_replicas_with_rules fractions (pos 5) (pos 8) (pos 2) (pos 20)).0 in
    (pos 2 ≤ℤ r)
    × (r ≤ℤ pos 20)
    × (r ≤ℤ max_ℤ (pos (2 * 5)) (pos 4))
    × (pos 2 ≤ℤ pos 8 → pos 8 ≤ℤ pos 20 → pos 8 ≤ℤ max_ℤ (pos (2 * 5)) (pos 4) → r ≡ pos 8)
convert_desired_replicas_bounds_example =
    convert_desired_replicas_bounds fractions fractions-IsIeee (pos 5) (pos 8) (pos 2) (pos 20)
      (omega arith) (omega arith) (omega arith) (omega arith)

-- Two pods were added in the last minute, so of the four only two more are allowed.
two_added :
    get_replicas_change_per_period now (pos 60) (items "default/web" controller.scale_up_events)
    ≡ pos 2
unfolding get_replicas_change_per_period change_after lookup items seconds wrap64 wrap32 ◌*ℤ◌ ◌+ℤ◌
    ◌-ℤ◌
two_added = refl

fits_before : IsInt32 (pos 5 -ℤ pos 2)
unfolding ◌-ℤ◌
fits_before = omega arith

fits_after : IsInt32 (pos 5 -ℤ pos 2 +ℤ pos 4)
unfolding ◌-ℤ◌ ◌+ℤ◌
fits_after = omega arith

pods_policy_rate_example :
    let args = args_of up_rules down_rules (pos 5) (pos 30) in
    let added =
      get_replicas_change_per_period now
        (pos 60)
        (items "default/web" controller.scale_up_events) in
    (r : ℤ × String × String) × (convert_desired_replicas_with_behavior_rate fractions
        (λ i. now)
        controller
        args
      ≡ some r)
    × ((r.0 ≡ pos 5) ⊎ (added +ℤ (r.0 -ℤ pos 5) ≤ℤ pos 4))
pods_policy_rate_example =
    pods_policy_rate fractions (λ i. now) controller (args_of up_rules down_rules (pos 5) (pos 30))
      up_rules four_pods refl refl refl refl (omega arith) (omega arith) (omega arith)
      (rw two_added fits_before) (rw two_added fits_after)

get_replicas_change-sum_by_example :
    get_replicas_change_per_period now (pos 60) (added_two ∷ [])
    ≡ wrap32 (sum_by (in_window (now -ℤ seconds (pos 60))) (added_two ∷ []))
get_replicas_change-sum_by_example = get_replicas_change-sum_by now (pos 60) (added_two ∷ [])

min_select_never_scales_up_example :
    (r : ℤ × String × String) × (convert_desired_replicas_with_behavior_rate fractions
        (λ i. now)
        controller
        (args_of min_rules down_rules (pos 5) (pos 30))
      ≡ some r)
    × (r.0 ≡ pos 5)
min_select_never_scales_up_example =
    min_select_never_scales_up fractions (λ i. now) controller
      (args_of min_rules down_rules (pos 5) (pos 30)) min_rules refl refl (omega arith)
      (omega arith) (omega arith)

min_select_never_scales_down_example :
    (r : ℤ × String × String) × (convert_desired_replicas_with_behavior_rate fractions
        (λ i. now)
        controller
        (args_of up_rules min_rules (pos 5) (pos 2))
      ≡ some r)
    × (r.0 ≡ pos 5)
min_select_never_scales_down_example =
    min_select_never_scales_down fractions (λ i. now) controller
      (args_of up_rules min_rules (pos 5) (pos 2)) min_rules refl refl (omega arith) (omega arith)
      (omega arith)

disabled_select_keeps_example :
    let args = args_of disabled_rules down_rules (pos 5) (pos 30) in
    ((pos 5 <ℤ pos 30
        → some disabled_rules ≡ some disabled_rules
        → (r : ℤ × String × String) × (convert_desired_replicas_with_behavior_rate fractions
              (λ i. now)
              controller
              args
            ≡ some r)
          × (r.0 ≡ pos 5))
      × (pos 30 <ℤ pos 5
          → some down_rules ≡ some disabled_rules
          → (r : ℤ × String × String) × (convert_desired_replicas_with_behavior_rate fractions
                (λ i. now)
                controller
                args
              ≡ some r)
            × (r.0 ≡ pos 5)))
disabled_select_keeps_example =
    disabled_select_keeps fractions (λ i. now) controller
      (args_of disabled_rules down_rules (pos 5) (pos 30)) disabled_rules refl (omega arith)
      (omega arith)
