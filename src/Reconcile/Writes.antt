-- ===== src/Reconcile/Writes.antt =====
-- The scales that are written among the effects of a reconciliation.
use general_pod_autoscaler.Common.{List, [], ◌∷◌, ◌++◌, ◌≡◌, refl, ap, ◌∙◌, ap₂}
use mathlib.Core.List.{append-nil}
use general_pod_autoscaler.Api.Extern.{K8s}
use general_pod_autoscaler.Reconcile.{
  Scale, GroupResource, Event, Effect, recorded, patch_labels, update_scale, update_status,
  update_object,
}

module _ {k : K8s} where
  unfoldable pub scale_writes : List (Effect k) → List Scale
  scale_writes [] = []
  scale_writes (update_scale target_gr scale ∷ rest) = scale ∷ scale_writes rest
  scale_writes (recorded _ ∷ rest) = scale_writes rest
  scale_writes (patch_labels _ ∷ rest) = scale_writes rest
  scale_writes (update_status _ ∷ rest) = scale_writes rest
  scale_writes (update_object _ ∷ rest) = scale_writes rest

  pub scale_writes-append :
      (xs ys : List (Effect k)) → scale_writes (xs ++ ys) ≡ scale_writes xs ++ scale_writes ys
  unfolding scale_writes
  scale_writes-append [] ys = refl
  scale_writes-append (update_scale target_gr scale ∷ rest) ys =
      ap (λ s. scale ∷ s) (scale_writes-append rest ys)
  scale_writes-append (recorded _ ∷ rest) ys = scale_writes-append rest ys
  scale_writes-append (patch_labels _ ∷ rest) ys = scale_writes-append rest ys
  scale_writes-append (update_status _ ∷ rest) ys = scale_writes-append rest ys
  scale_writes-append (update_object _ ∷ rest) ys = scale_writes-append rest ys

  -- Nothing is written in two parts that write nothing.
  pub writes_none :
      (xs ys : List (Effect k))
      → scale_writes xs ≡ []
      → scale_writes ys ≡ []
      → scale_writes (xs ++ ys) ≡ []
  writes_none xs ys hx hy = scale_writes-append xs ys ∙ ap₂ (λ a b. a ++ b) hx hy

  -- The second part writes what both do.
  pub writes_second :
      (xs ys : List (Effect k)) → scale_writes xs ≡ [] → scale_writes (xs ++ ys) ≡ scale_writes ys
  writes_second xs ys hx = scale_writes-append xs ys ∙ ap (λ a. a ++ scale_writes ys) hx

  -- The first part writes what both do.
  pub writes_first :
      (xs ys : List (Effect k)) → scale_writes ys ≡ [] → scale_writes (xs ++ ys) ≡ scale_writes xs
  writes_first xs ys hy =
      scale_writes-append xs ys ∙ ap (λ b. scale_writes xs ++ b) hy ∙ append-nil (scale_writes xs)

  -- One scale is written among parts that write nothing, with an event after it.
  pub writes_one :
      (xs zs : List (Effect k)) (target_gr : GroupResource) (scale : Scale) (e : Event)
      → scale_writes xs ≡ []
      → scale_writes zs ≡ []
      → scale_writes ((xs ++ (update_scale target_gr scale ∷ recorded e ∷ [])) ++ zs) ≡ scale ∷ []
  unfolding scale_writes
  writes_one xs zs target_gr scale e hx hz =
      writes_first (xs ++ (update_scale target_gr scale ∷ recorded e ∷ [])) zs hz
      ∙ writes_second xs (update_scale target_gr scale ∷ recorded e ∷ []) hx
