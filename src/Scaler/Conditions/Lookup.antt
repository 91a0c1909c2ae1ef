-- ===== src/Scaler/Conditions/Lookup.antt =====
-- A written condition is found again, and the others are as they were.
use text.Mathlib.Text.{◌==◌ as str_eq}
use text.Mathlib.TextEquality.{eq_iff}
use general_pod_autoscaler.Common.{
  ◌≡◌, refl, String, List, [], ◌∷◌, Option, none, some, if◌then◌else◌, arith, Bool-cases, inl, inr,
}
use general_pod_autoscaler.Common.Runtime.{FmtArg, Runtime}
use general_pod_autoscaler.Api.Extern.{K8s, Time}
use general_pod_autoscaler.Api.Autoscaler.{GeneralPodAutoscaler, GeneralPodAutoscalerCondition}
use general_pod_autoscaler.Scaler.Conditions.{
  update_condition, blank_condition, write_condition, set_condition_in_list, set_condition,
}

-- The first condition of a type.
unfoldable pub condition_of :
    String → List GeneralPodAutoscalerCondition → Option GeneralPodAutoscalerCondition
condition_of t [] = none
condition_of t (c ∷ cs) = if str_eq c.type t then some c else condition_of t cs

-- The condition that is there, or the blank one.
pub existing : String → Option GeneralPodAutoscalerCondition → GeneralPodAutoscalerCondition
existing t none = blank_condition t
existing t (some c) = c

-- No two conditions have one type.
abbrev pub OnePerType : List GeneralPodAutoscalerCondition → Type 0
OnePerType [] = Unit
OnePerType (c ∷ cs) = (condition_of c.type cs ≡ none) × OnePerType cs

condition_of-write :
    (now : Time) (t status reason message u : String) (cs : List GeneralPodAutoscalerCondition)
    → condition_of u (write_condition now t status reason message cs) ≡ (
        if str_eq t u
        then some (update_condition now status reason message (existing t (condition_of t cs)))
        else condition_of u cs)
unfolding condition_of write_condition existing
condition_of-write now t status reason message u [] = refl
condition_of-write now t status reason message u (c ∷ cs) = ground (
  arith,
  eq_iff t u,
  eq_iff c.type t,
  eq_iff c.type u,
  condition_of-write now t status reason message u cs,
)

write_condition-OnePerType :
    (now : Time) (t status reason message : String) (cs : List GeneralPodAutoscalerCondition)
    → OnePerType cs
    → OnePerType (write_condition now t status reason message cs)
unfolding condition_of write_condition
write_condition-OnePerType now t status reason message [] h = (refl, tt)
write_condition-OnePerType now t status reason message (c ∷ cs) h =
    elim (Bool-cases (str_eq c.type t)) [
      | inl same ↦ rw same h
      | inr other ↦ rw other (
        ground (
          arith,
          condition_of-write now t status reason message c.type cs,
          eq_iff t c.type,
          eq_iff c.type t,
          h.0,
        ),
        write_condition-OnePerType now t status reason message cs h.1,
      )
    ]

-- Setting a condition: the condition of that type has the status, the reason and the formatted
-- message that were given; its transition time is the present if the status is another than
-- before, and otherwise what it was. A condition that was not there counts as one with the empty
-- status and no transition time, so it gets the present exactly when the status that is set is not
-- empty. The condition of every other type is unchanged.
pub condition_of-set_condition_in_list :
    (rt : Runtime) (now : Time) (cs : List GeneralPodAutoscalerCondition)
    (t status reason message : String) (args : List FmtArg) (u : String)
    → condition_of u (set_condition_in_list rt now cs t status reason message args) ≡ (
        if str_eq t u
        then some (
            let old = existing t (condition_of t cs) in
            record old {
              last_transition_time =
                  if str_eq old.status status then old.last_transition_time else some now;
              status = status;
              reason = reason;
              message = rt.sprintf message args;
            })
        else condition_of u cs)
unfolding set_condition_in_list update_condition
condition_of-set_condition_in_list rt now cs t status reason message args u =
    condition_of-write now t status reason (rt.sprintf message args) u cs

-- A list that has at most one condition of each type keeps that when a condition is set.
pub set_condition_in_list-OnePerType :
    (rt : Runtime) (now : Time) (cs : List GeneralPodAutoscalerCondition)
    (t status reason message : String) (args : List FmtArg)
    → OnePerType cs
    → OnePerType (set_condition_in_list rt now cs t status reason message args)
unfolding set_condition_in_list
set_condition_in_list-OnePerType rt now cs t status reason message args h =
    write_condition-OnePerType now t status reason (rt.sprintf message args) cs h

-- Only the conditions of the status differ.
module _ {k : K8s} (rt : Runtime) (now : Time) (gpa : GeneralPodAutoscaler k)
    (condition_type status reason text : String) (args : List FmtArg) where
  pub spec-set_condition :
      (set_condition rt now gpa condition_type status reason text args).spec ≡ gpa.spec
  unfolding set_condition
  spec-set_condition = refl

  pub creation-set_condition :
      (set_condition rt now gpa condition_type status reason text args).creation_timestamp
      ≡ gpa.creation_timestamp
  unfolding set_condition
  creation-set_condition = refl

  pub last_cron-set_condition :
      (set_condition rt now gpa condition_type status reason text
        args).status.last_cron_schedule_time
      ≡ gpa.status.last_cron_schedule_time
  unfolding set_condition
  last_cron-set_condition = refl

  pub desired-set_condition :
      (set_condition rt now gpa condition_type status reason text args).status.desired_replicas
      ≡ gpa.status.desired_replicas
  unfolding set_condition
  desired-set_condition = refl

  pub last_scale-set_condition :
      (set_condition rt now gpa condition_type status reason text args).status.last_scale_time
      ≡ gpa.status.last_scale_time
  unfolding set_condition
  last_scale-set_condition = refl
