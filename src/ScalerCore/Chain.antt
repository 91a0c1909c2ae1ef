-- ===== src/ScalerCore/Chain.antt =====
-- The chain of scalers (`computeDesiredSize` of pkg/scaler/general.go): the largest count that a
-- scaler proposes. A scaler is its name and what its `GetReplicas` returns.
pub mod Largest
use general_pod_autoscaler.Common.{String, Option, none, some, List, [], ◌∷◌, if◌then◌else◌}
use general_pod_autoscaler.Common.Int.{ℤ, pos, ltb_ℤ}
use general_pod_autoscaler.Common.Runtime.{FmtArg, Runtime}
use general_pod_autoscaler.ScalerCore.Errors.{GoError, wrap, Result, ok, err}

pub record Scaler (A : Type 0) : Type 0 where
  pub scaler_name : String
  pub get_replicas : A → ℤ → Result ℤ

-- The replicas, the name and the error.
abbrev pub Size : Type 0
Size = ℤ × String × Option GoError

module _ (rt : Runtime) {A : Type 0} (gpa : A) (gpa_name : String) (current_replicas : ℤ) where
  -- The body of the loop, after the call of the scaler.
  pub consider_result : String → Result ℤ → Size → Size
  consider_result scaler_name (err e) (replicas, name, errs) = (
    replicas,
    name,
    some (
        wrap e (
          rt.sprintf "GPA: %v get replicas error when call %v"
            (FmtArg.str gpa_name ∷ FmtArg.str scaler_name ∷ []))),
  )
  consider_result scaler_name (ok chain_replicas) (replicas, name, errs) =
      if ltb_ℤ replicas chain_replicas
      then (chain_replicas, scaler_name, errs)
      else (replicas, name, errs)

  pub consider : Scaler A → Size → Size
  consider s acc = consider_result s.scaler_name (s.get_replicas gpa current_replicas) acc

  pub consider_all : List (Scaler A) → Size → Size
  consider_all [] acc = acc
  consider_all (s ∷ rest) acc = consider_all rest (consider s acc)

  pub compute_desired_size : List (Scaler A) → Size
  compute_desired_size scalers = consider_all scalers (pos 0, "", none)
