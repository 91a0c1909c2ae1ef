-- ===== src/Reconcile/Target.antt =====
-- The target of an autoscaler: how its scale is found, and the labels that are taken over from it
-- (`scaleForResourceMappings`, `updateLabelsIfNeeded` and the start of `reconcileAutoscaler` in
-- pkg/scaler/general.go).
pub mod Labels
use text.Mathlib.Text.{◌==◌ as str_eq}
use general_pod_autoscaler.Common.{ℕ, suc, String, List, [], ◌∷◌, Option, none, some, if◌then◌else◌}
use general_pod_autoscaler.Common.Dict.{Dict, insert}
use general_pod_autoscaler.Api.Extern.{K8s}
use general_pod_autoscaler.Api.Autoscaler.{GeneralPodAutoscaler}
use general_pod_autoscaler.ScalerCore.Errors.{GoError, message, Result, ok, err}
use general_pod_autoscaler.Reconcile.{Scale, GroupResource, Effect, patch_labels, Cluster}

-- The first error is kept.
abbrev pub or_first : Option GoError → GoError → Option GoError
or_first none e = some e
or_first (some first) e = some first

-- `currentLabels[k] = v`, for each label.
pub insert_all : Dict String → Dict String → Dict String
insert_all [] labels = labels
insert_all ((key, v) ∷ rest) labels = insert_all rest (insert key v labels)

module _ {k : K8s} (w : Cluster k) where
  module _ (namespace name : String) where
    -- The loop over the mappings, from the one of number `i`.
    pub try_mappings : ℕ → List GroupResource → Option GoError → Result (Scale × GroupResource)
    try_mappings i [] none = err (message "unrecognized resource")
    try_mappings i [] (some first_err) = err first_err
    try_mappings i (target_gr ∷ rest) first_err = elim (w.get_scale i namespace target_gr name) [
      | ok scale ↦ ok (scale, target_gr)
      | err e ↦ try_mappings (suc i) rest (or_first first_err e)
    ]

    pub scale_for_resource_mappings : List GroupResource → Result (Scale × GroupResource)
    unfolding try_mappings
    scale_for_resource_mappings mappings = try_mappings 0 mappings none

  -- The scale, or the error with the format of the error that is returned for it.
  pub find_scale : GeneralPodAutoscaler k → Result (Scale × GroupResource) × String
  unfolding scale_for_resource_mappings
  find_scale gpa =
      let target = gpa.spec.scale_target_ref in
      elim (w.parse_group target.api_version) [
        | err e ↦ (err e, "invalid API version in scale target reference: %v")
        | ok group ↦ elim (w.rest_mappings group target.kind) [
          | err e ↦ (err e, "unable to determine resource for scale target reference: %v")
          | ok mappings ↦ (
            scale_for_resource_mappings gpa.namespace target.name mappings,
            "failed to query scale subresource for %s: %v",
          )
        ]
      ]

  -- The autoscaler, what is written, and the error. Labels that are not nil are changed in place,
  -- so that the comparison with themselves always ends the function.
  pub update_labels_if_needed :
      GeneralPodAutoscaler k
      → Dict String
      → GeneralPodAutoscaler k × List (Effect k) × Option GoError
  unfolding insert_all
  update_labels_if_needed gpa [] = (gpa, [], none)
  update_labels_if_needed gpa (entry ∷ rest) = elim gpa.labels [
    | some current ↦ (record gpa { labels = some (insert_all (entry ∷ rest) current) }, [], none)
    | none ↦
        let labels : Dict String = insert_all (entry ∷ rest) [] in
        elim (w.create_merge_patch gpa labels) [
          | some e ↦ (gpa, [], some e)
          | none ↦ (gpa, patch_labels labels ∷ [], w.put_labels labels)
        ]
  ]

  -- The labels of the selector; an error is only logged.
  pub take_over_labels : GeneralPodAutoscaler k → Scale → GeneralPodAutoscaler k × List (Effect k)
  unfolding update_labels_if_needed
  take_over_labels gpa scale =
      if str_eq scale.status_selector ""
      then (gpa, [])
      else elim (w.convert_selector_to_labels_map scale.status_selector) [
        | err e ↦ (gpa, [])
        | ok label_map ↦
            let (gpa', effects, error) = update_labels_if_needed gpa label_map in (gpa', effects)
      ]
