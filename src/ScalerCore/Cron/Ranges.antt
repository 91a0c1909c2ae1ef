-- ===== src/ScalerCore/Cron/Ranges.antt =====
-- The ranges of a timetable that are due, and what the loop over the ranges makes of them.
use general_pod_autoscaler.Common.{
  ℕ, ◌≡◌, refl, ◌⊎◌, inl, inr, String, List, [], ◌∷◌, Option, none, some, true, false, is_nil,
  arith, All,
}
use general_pod_autoscaler.Common.Int.{ℤ, pos, ◌≤ℤ◌, ◌<ℤ◌}
use general_pod_autoscaler.Api.Extern.{K8s, Time}
use general_pod_autoscaler.Api.Modes.{TimeRange}
use general_pod_autoscaler.Api.Autoscaler.{GeneralPodAutoscaler}
use general_pod_autoscaler.ScalerCore.Cron.{
  CronLibrary, CronMatch, no_match, matched, get_final_match_and_mis_match,
}

-- One of the ranges satisfies `P`.
abbrev pub HasRange : (TimeRange → Type 0) → List TimeRange → Type 0
HasRange P [] = ⊥
HasRange P (t ∷ rest) = P t ⊎ HasRange P rest

pub All-map :
    (P Q : TimeRange → Type 0) (ranges : List TimeRange)
    → ((t : TimeRange) → P t → Q t)
    → All P ranges
    → All Q ranges
All-map P Q [] f h = tt
All-map P Q (t ∷ rest) f (p, h) = (f t p, All-map P Q rest f h)

-- A name that may be recorded while the loop runs.
abbrev pub Recorded : List TimeRange → String → String → Type 0
Recorded ranges before name = (name ≡ before) ⊎ HasRange (λ t. name ≡ t.schedule) ranges

pub schedules :
    (ranges : List TimeRange) → All (λ t. HasRange (λ u. t.schedule ≡ u.schedule) ranges) ranges
schedules [] = tt
schedules (t ∷ rest) = (inl refl, All-map _ _ rest (λ u h. inr h) (schedules rest))

module _ (lib : CronLibrary) (fuel : ℕ) {k : K8s} (gpa : GeneralPodAutoscaler k) (now : Time) where
  -- Whether the schedule of a range parses, and what is found for it when `name` is recorded.
  abbrev pub IsParsed : TimeRange → Type 0
  IsParsed t = is_nil (lib.parse_standard t.schedule) ≡ false

  abbrev pub IsUnparsed : TimeRange → Type 0
  IsUnparsed t = is_nil (lib.parse_standard t.schedule) ≡ true

  abbrev pub IsFound : String → TimeRange → CronMatch → Type 0
  IsFound name t c = get_final_match_and_mis_match lib fuel gpa now name t.schedule ≡ some c

  -- No range is due that has a count above `max`.
  abbrev pub NoneTaken : ℤ → String → List TimeRange → Type 0
  NoneTaken max name ranges = All (λ t. max <ℤ t.desired_replicas → IsFound name t no_match) ranges

  module _ (R : String → Type 0) where
    -- A range that is due, and one that is not, when a name that satisfies `R` is recorded.
    abbrev pub IsDue : TimeRange → Type 0
    IsDue t =
        (name : String) × R name
        × (last : Time) × (next : Time) × IsFound name t (matched last next)

    abbrev pub IsNotDue : TimeRange → Type 0
    IsNotDue t = (name : String) × R name × IsFound name t no_match

    -- `m` is the count of a range that is due, whose schedule is recorded, and no range with a larger
    -- count is due.
    abbrev pub IsTaken : ℤ → String → List TimeRange → Type 0
    IsTaken m name ranges =
        HasRange (λ t. (m ≡ t.desired_replicas) × (name ≡ t.schedule) × IsDue t) ranges
        × All (λ t. m <ℤ t.desired_replicas → IsNotDue t) ranges

    -- What the loop yields from `max` and the recorded name.
    abbrev pub Scanned : ℤ → String → List TimeRange → Option ℤ × String → Type 0
    Scanned max name ranges (none, name') = HasRange IsUnparsed ranges
    Scanned max name ranges (some m, name') =
        All IsParsed ranges
        × (((m ≡ max) × (name' ≡ name) × NoneTaken max name ranges)
            ⊎ ((max <ℤ m) × IsTaken m name' ranges))

    pub Scanned-not_due :
        (max : ℤ) (name : String) (t : TimeRange) (rest : List TimeRange) (o : Option ℤ × String)
        → R name
        → IsParsed t
        → IsFound name t no_match
        → Scanned max name rest o
        → Scanned max name (t ∷ rest) o
    Scanned-not_due max name t rest (none, name') recorded parsed found h = inr h
    Scanned-not_due max name t rest (some m, name') recorded parsed found
          (all, inl (same, kept, others)) =
        ((parsed, all), inl (same, kept, ((λ _. found), others)))
    Scanned-not_due max name t rest (some m, name') recorded parsed found
          (all, inr (above, (one, others))) =
        ((parsed, all), inr (above, (inr one, ((λ _. (name, recorded, found)), others))))

    -- A range whose count is not above the largest so far.
    pub Scanned-small :
        (max : ℤ) (name : String) (t : TimeRange) (rest : List TimeRange) (o : Option ℤ × String)
        → IsParsed t
        → t.desired_replicas ≤ℤ max
        → Scanned max name rest o
        → Scanned max name (t ∷ rest) o
    Scanned-small max name t rest (none, name') parsed small h = inr h
    Scanned-small max name t rest (some m, name') parsed small (all, inl (same, kept, others)) =
        ((parsed, all), inl (same, kept, ((λ lt. absurd (omega arith)), others)))
    Scanned-small max name t rest (some m, name') parsed small (all, inr (above, (one, others))) =
        ((parsed, all), inr (above, (inr one, ((λ lt. absurd (omega arith)), others))))

    pub Scanned-take :
        (max : ℤ) (name : String) (t : TimeRange) (rest : List TimeRange) (o : Option ℤ × String)
        → R t.schedule
        → IsParsed t
        → IsDue t
        → max <ℤ t.desired_replicas
        → Scanned t.desired_replicas t.schedule rest o
        → Scanned max name (t ∷ rest) o
    Scanned-take max name t rest (none, name') recorded parsed due lt h = inr h
    Scanned-take max name t rest (some m, name') recorded parsed due lt
          (all, inl (same, kept, others)) =
        (
          (parsed, all),
          inr (
            ground arith,
            (
              inl (same, kept, due),
              (
                (λ above. absurd (ground arith)),
                All-map _ _ rest (λ u found above. (t.schedule, recorded, found (ground arith)))
                    others,
              ),
            ),
          ),
        )
    Scanned-take max name t rest (some m, name') recorded parsed due lt
          (all, inr (above, (one, others))) =
        ((parsed, all), inr (omega arith, (inr one, ((λ higher. absurd (omega arith)), others))))

  -- What the scaler returns, and the name that is recorded.
  abbrev pub IsRecommendation : List TimeRange → String → ℤ → ℤ × String → Type 0
  IsRecommendation ranges name current r =
      (HasRange (IsUnparsed) ranges × (r.0 ≡ current))
      ⊎ (All (IsParsed) ranges
          × (((r.0 ≡ gpa.status.desired_replicas) × (r.1 ≡ name) × NoneTaken (pos 0) name ranges)
              ⊎ ((pos 0 <ℤ r.0) × IsTaken (Recorded ranges name) r.0 r.1 ranges)))
