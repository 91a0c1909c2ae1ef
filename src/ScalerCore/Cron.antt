-- ===== src/ScalerCore/Cron.antt =====
-- The scaler that follows a timetable (pkg/scalercore/cron.go).
--
-- The cron library is a parameter. The loop that walks through the activation times of a schedule
-- takes fuel: `none` means that it did not end within its fuel. The package variable
-- `recordScheduleName` is passed from call to call.
pub mod Walk
pub mod Ranges
pub mod Replicas
use text.Mathlib.Text.{◌==◌ as str_eq}
use general_pod_autoscaler.Common.{
  ℕ, zero, suc, String, List, [], ◌∷◌, Bool, true, false, ◌&&◌, Option, none, some, ◌>>=◌,
  if◌then◌else◌,
}
use general_pod_autoscaler.Common.Int.{ℤ, pos, negsuc, ltb_ℤ, leb_ℤ, eqb_ℤ, ◌-ℤ◌}
use general_pod_autoscaler.Api.Extern.{K8s, Time}
use general_pod_autoscaler.Api.Modes.{TimeRange}
use general_pod_autoscaler.Api.Autoscaler.{GeneralPodAutoscaler}

-- github.com/robfig/cron: `ParseStandard` and `Schedule.Next`.
pub record CronLibrary : Type 1 where
  pub Schedule : Type 0
  pub parse_standard : String → Option Schedule
  pub next : Schedule → Time → Time

-- The zero `time.Time`: the first instant of the year 1.
abbrev pub zero_time : Time
zero_time = negsuc 62135596799999999999

abbrev pub minute : Time
minute = pos 60000000000

-- The loop: `misMatch` is the last activation that is not after `now`, `match` the first that is.
pub walk : ℕ → (Time → Time) → Time → Time → Time → Option (Time × Time)
walk zero next now mis_match t = none
walk (suc fuel) next now mis_match t =
    let rest = walk fuel next now t (next t) in if leb_ℤ t now then rest else some (mis_match, t)

-- What `getFinalMatchAndMisMatch` returns: an error, two nil times, or two times.
pub data CronMatch : Type 0 where
  parse_error : CronMatch
  no_match : CronMatch
  matched : Time → Time → CronMatch

unfoldable pub last_time : {k : K8s} → GeneralPodAutoscaler k → String → String → Time
last_time gpa record_schedule_name schedule =
    elim (if str_eq record_schedule_name schedule
      then gpa.status.last_cron_schedule_time
      else none) [
        | none ↦ gpa.creation_timestamp
        | some t ↦ if eqb_ℤ t zero_time then gpa.creation_timestamp else t
      ]

-- The last activation is less than a minute ago, and in the past.
pub judge : Time → Time × Time → CronMatch
judge now times =
    if ltb_ℤ (now -ℤ times.0) minute && ltb_ℤ times.0 now then matched times.0 times.1 else no_match

module _ (lib : CronLibrary) (fuel : ℕ) {k : K8s} (gpa : GeneralPodAutoscaler k) (now : Time) where
  pub get_final_match_and_mis_match : String → String → Option CronMatch
  get_final_match_and_mis_match record_schedule_name schedule = elim (lib.parse_standard schedule) [
    | none ↦ some parse_error
    | some sched ↦
        let start = last_time gpa record_schedule_name schedule in
        walk fuel (lib.next sched) now start start >>= (λ times. some (judge now times))
  ]

  -- The loop of `GetReplicas`, with `max` and `recordScheduleName`; `none` in the first place of
  -- the result is the return of the current count after an error.
  pub scan_ranges : ℤ → String → List TimeRange → Option (Option ℤ × String)
  scan_ranges max record_schedule_name [] = some (some max, record_schedule_name)
  scan_ranges max record_schedule_name (t ∷ rest) =
      let skipped = scan_ranges max record_schedule_name rest in
      let taken = scan_ranges t.desired_replicas t.schedule rest in
      elim (get_final_match_and_mis_match record_schedule_name t.schedule) [
        | none ↦ none
        | some parse_error ↦ some (none, record_schedule_name)
        | some no_match ↦ skipped
        | some (matched mis_match match) ↦ if ltb_ℤ max t.desired_replicas then taken else skipped
      ]

  -- The end of `GetReplicas`: the current count after an error, and the desired count of the
  -- status where no range gave one.
  pub recommended : ℤ → Option ℤ → ℤ
  recommended current_replicas none = current_replicas
  recommended current_replicas (some max) =
      if eqb_ℤ max (pos 0) then gpa.status.desired_replicas else max

  pub get_replicas : List TimeRange → String → ℤ → Option (ℤ × String)
  unfolding recommended
  get_replicas ranges record_schedule_name current_replicas =
      scan_ranges (pos 0) record_schedule_name ranges
      >>= (λ outcome. some (recommended current_replicas outcome.0, outcome.1))
