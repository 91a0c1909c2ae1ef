-- ===== src/Scaler/Conditions.antt =====
-- The conditions of an autoscaler's status: `setCondition` and `setConditionInList` of
-- pkg/scaler/general.go. `now` is the reading of the clock.
pub mod Lookup
use text.Mathlib.Text.{◌==◌ as str_eq}
use general_pod_autoscaler.Common.{String, List, [], ◌∷◌, Option, none, some, if◌then◌else◌}
use general_pod_autoscaler.Common.Runtime.{FmtArg, Runtime}
use general_pod_autoscaler.Api.Extern.{K8s, Time}
use general_pod_autoscaler.Api.Autoscaler.{
  GeneralPodAutoscalerCondition, GeneralPodAutoscaler, GeneralPodAutoscalerStatus,
}

-- The writes through `existingCond`.
pub update_condition :
    Time → String → String → String → GeneralPodAutoscalerCondition → GeneralPodAutoscalerCondition
update_condition now status reason message c = record c {
  last_transition_time = if str_eq c.status status then c.last_transition_time else some now;
  status = status;
  reason = reason;
  message = message;
}

-- The condition that is appended when there is none of its type.
abbrev pub blank_condition : String → GeneralPodAutoscalerCondition
blank_condition condition_type = record {
  type = condition_type;
  status = "";
  last_transition_time = none;
  reason = "";
  message = "";
}

-- The first condition of the type is written; if there is none, a blank one is appended and written.
pub write_condition :
    Time
    → String
    → String
    → String
    → String
    → List GeneralPodAutoscalerCondition
    → List GeneralPodAutoscalerCondition
unfolding update_condition
write_condition now condition_type status reason message [] =
    update_condition now status reason message (blank_condition condition_type) ∷ []
write_condition now condition_type status reason message (c ∷ cs) =
    if str_eq c.type condition_type
    then update_condition now status reason message c ∷ cs
    else c ∷ write_condition now condition_type status reason message cs

pub set_condition_in_list :
    Runtime
    → Time
    → List GeneralPodAutoscalerCondition
    → String
    → String
    → String
    → String
    → List FmtArg
    → List GeneralPodAutoscalerCondition
unfolding write_condition
set_condition_in_list rt now input_list condition_type status reason message args =
    write_condition now condition_type status reason (rt.sprintf message args) input_list

module _ {k : K8s} (rt : Runtime) (now : Time) where
  pub set_condition :
      GeneralPodAutoscaler k
      → String
      → String
      → String
      → String
      → List FmtArg
      → GeneralPodAutoscaler k
  unfolding set_condition_in_list
  set_condition gpa condition_type status reason message args =
      let s : GeneralPodAutoscalerStatus k = gpa.status in
      record gpa {
        status = record s {
          conditions =
              set_condition_in_list rt now s.conditions condition_type status reason message args;
        };
      }
