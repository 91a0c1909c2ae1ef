-- ===== src/ScalerCore/Chain/Largest.antt =====
-- What the chain computes.
use general_pod_autoscaler.Common.{
  ◌≡◌, refl, sym, ap, ◌∙◌, ◌↔◌, ◌⊎◌, inl, inr, String, List, [], ◌∷◌, none, arith, All,
}
use general_pod_autoscaler.Common.Int.{ℤ, pos, ◌≤ℤ◌}
use general_pod_autoscaler.Common.Runtime.{Runtime}
use general_pod_autoscaler.ScalerCore.Errors.{Result, ok, err}
use general_pod_autoscaler.ScalerCore.Chain.{
  Scaler, Size, consider_result, consider, consider_all, compute_desired_size,
}

-- A proposal that is not above a count; an error proposes nothing.
abbrev pub IsAtMost : Result ℤ → ℤ → Type 0
IsAtMost (ok v) r = v ≤ℤ r
IsAtMost (err e) r = Unit

abbrev pub IsOk : Result ℤ → Type 0
IsOk (ok v) = Unit
IsOk (err e) = ⊥

module _ {A : Type 0} (gpa : A) (current : ℤ) where
  -- One of the scalers has the name, and proposes the count.
  abbrev pub IsProposed : List (Scaler A) → ℤ → String → Type 0
  IsProposed [] r name = ⊥
  IsProposed (s ∷ rest) r name =
      ((s.get_replicas gpa current ≡ ok r) × (s.scaler_name ≡ name)) ⊎ IsProposed rest r name

  abbrev Extends : List (Scaler A) → Size → Size → Type 0
  Extends scalers acc r =
      (acc.0 ≤ℤ r.0)
      × All (λ s. IsAtMost (s.get_replicas gpa current) r.0) scalers
      × (((r.0 ≡ acc.0) × (r.1 ≡ acc.1)) ⊎ IsProposed scalers r.0 r.1)
      × ((r.2 ≡ none) ↔ ((acc.2 ≡ none) × All (λ s. IsOk (s.get_replicas gpa current)) scalers))

module _ (rt : Runtime) {A : Type 0} (gpa : A) (gpa_name : String) (current : ℤ) where
  -- The effect of one result on the accumulated count, name and error.
  step :
      (name : String) (o : Result ℤ) (acc : Size)
      → let r = consider_result rt gpa gpa_name current name o acc in
        (acc.0 ≤ℤ r.0)
        × IsAtMost o r.0
        × (((r.0 ≡ acc.0) × (r.1 ≡ acc.1)) ⊎ ((o ≡ ok r.0) × (name ≡ r.1)))
        × ((r.2 ≡ none) ↔ ((acc.2 ≡ none) × IsOk o))
  unfolding consider_result
  step name (ok v) acc = ground arith
  step name (err e) acc = ground arith

  IsAtMost-mono : (o : Result ℤ) (a b : ℤ) → IsAtMost o a → a ≤ℤ b → IsAtMost o b
  IsAtMost-mono (ok v) a b h le = omega arith
  IsAtMost-mono (err e) a b h le = tt

  chain :
      (scalers : List (Scaler A)) (acc : Size)
      → Extends gpa current scalers acc (consider_all rt gpa gpa_name current scalers acc)
  unfolding consider_all consider
  chain [] acc = (omega arith, tt, inl (refl, refl), ground arith)
  chain (s ∷ rest) acc =
      let o = s.get_replicas gpa current in
      let first = step s.scaler_name o acc in
      let acc' = consider_result rt gpa gpa_name current s.scaler_name o acc in
      let later = chain rest acc' in
      let r = consider_all rt gpa gpa_name current rest acc' in
      (
        omega arith,
        (IsAtMost-mono o acc'.0 r.0 first.1 later.0, later.1),
        elim later.2 [
          | inl same ↦ elim first.2 [
            | inl kept ↦ inl (same.0 ∙ kept.0, same.1 ∙ kept.1)
            | inr here ↦ inr (inl (here.0 ∙ ap ok (sym same.0), here.1 ∙ sym same.1))
          ]
          | inr there ↦ inr (inr there)
        ],
        (
          (λ h. let t = later.3.0 h in let u = first.3.0 t.0 in (u.0, (u.1, t.1))),
          (λ h. later.3.1 (first.3.1 (h.0, h.1.0), h.1.1)),
        ),
      )

  -- The count of the chain is at least 0 and at least every count that a scaler proposes. It is 0 with
  -- the empty name, or it is the proposal of a scaler of the chain, with that scaler's name. There
  -- is no error exactly when no scaler fails.
  pub compute_desired_size_largest :
      (scalers : List (Scaler A))
      → let (replicas, name, errs) = compute_desired_size rt gpa gpa_name current scalers in
        (pos 0 ≤ℤ replicas)
        × All (λ s. IsAtMost (s.get_replicas gpa current) replicas) scalers
        × (((replicas ≡ pos 0) × (name ≡ "")) ⊎ IsProposed gpa current scalers replicas name)
        × ((errs ≡ none) ↔ All (λ s. IsOk (s.get_replicas gpa current)) scalers)
  unfolding compute_desired_size
  compute_desired_size_largest scalers =
      let all = chain scalers (pos 0, "", none) in
      (all.0, all.1, all.2, ((λ h. (all.3.0 h).1), (λ h. all.3.1 (refl, h))))
