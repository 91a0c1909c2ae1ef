-- ===== src/Reconcile/Target/Labels.antt =====
-- The labels that are taken over change nothing else, and write no scale.
use general_pod_autoscaler.Common.{
  String, Bool, true, false, List, [], ◌≡◌, refl, arith, if◌then◌else◌,
}
use text.Mathlib.Text.{◌==◌ as str_eq}
use general_pod_autoscaler.Common.Dict.{Dict}
use general_pod_autoscaler.Api.Extern.{K8s}
use general_pod_autoscaler.Api.Autoscaler.{GeneralPodAutoscaler}
use general_pod_autoscaler.ScalerCore.Errors.{Result, ok, err}
use general_pod_autoscaler.Reconcile.{Scale, Effect, Cluster}
use general_pod_autoscaler.Reconcile.Writes.{scale_writes}
use general_pod_autoscaler.Reconcile.Target.{update_labels_if_needed, take_over_labels}

-- Only the labels can differ, and no scale is written.
pub record KeepsAll {k : K8s} (gpa : GeneralPodAutoscaler k)
    (r : GeneralPodAutoscaler k × List (Effect k)) : Type 0 where
  pub keeps_spec : r.0.spec ≡ gpa.spec
  pub keeps_status : r.0.status ≡ gpa.status
  pub keeps_creation : r.0.creation_timestamp ≡ gpa.creation_timestamp
  pub writes_nothing : scale_writes r.1 ≡ []

module _ {k : K8s} (w : Cluster k) (gpa : GeneralPodAutoscaler k) where
  unchanged_gpa : KeepsAll gpa (gpa, [])
  unfolding scale_writes
  unchanged_gpa = record {
    keeps_spec = refl;
    keeps_status = refl;
    keeps_creation = refl;
    writes_nothing = refl;
  }

  update_labels-KeepsAll :
      (labels : Dict String)
      → let r = update_labels_if_needed w gpa labels in KeepsAll gpa (r.0, r.1)
  unfolding update_labels_if_needed scale_writes
  update_labels-KeepsAll labels = record {
    keeps_spec = ground arith;
    keeps_status = ground arith;
    keeps_creation = ground arith;
    writes_nothing = ground arith;
  }

  pub take_over_labels-KeepsAll : (scale : Scale) → KeepsAll gpa (take_over_labels w gpa scale)
  unfolding take_over_labels scale_writes
  take_over_labels-KeepsAll scale =
      cases (str_eq scale.status_selector "")
        (w.convert_selector_to_labels_map scale.status_selector)
    where
      cases :
          (b : Bool) (r : Result (Dict String))
          → KeepsAll gpa (
              if b then (gpa, []) else elim r [
                | err e ↦ (gpa, [])
                | ok label_map ↦ let u = update_labels_if_needed w gpa label_map in (u.0, u.1)
              ])
      cases true r = unchanged_gpa
      cases false (err e) = unchanged_gpa
      cases false (ok label_map) = update_labels-KeepsAll label_map
