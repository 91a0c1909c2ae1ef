-- ===== src/ScalerCore/Cron/Replicas.antt =====
-- What the timetable recommends.
use general_pod_autoscaler.Common.{
  ℕ, suc, ◌≡◌, refl, inl, inr, String, List, [], ◌∷◌, Option, none, some, false, is_nil, arith,
  Bool-cases, Option-cases, All, ap, if_both, ◌&&◌,
}
use general_pod_autoscaler.Common.Int.{
  ℤ, pos, ◌+ℤ◌, ◌<ℤ◌, leb_ℤ, ltb_ℤ, eqb_ℤ, ◌-ℤ◌, leb_ℤ→≤ℤ, leb_ℤ→<ℤ, ltb_ℤ→<ℤ,
}
use general_pod_autoscaler.Api.Extern.{K8s, Time}
use general_pod_autoscaler.Api.Modes.{TimeRange}
use general_pod_autoscaler.Api.Autoscaler.{GeneralPodAutoscaler}
use general_pod_autoscaler.ScalerCore.Cron.{
  CronLibrary, minute, CronMatch, parse_error, no_match, matched, walk, last_time, judge,
  get_final_match_and_mis_match, scan_ranges, recommended, get_replicas,
}
use general_pod_autoscaler.ScalerCore.Cron.Walk.{walk_ends, walk_at_once}
use general_pod_autoscaler.ScalerCore.Cron.Ranges.{
  All-map, Recorded, schedules, IsParsed, IsUnparsed, IsFound, IsRecommendation, Scanned,
  Scanned-not_due, Scanned-small, Scanned-take,
}

module _ (lib : CronLibrary) (fuel : ℕ) {k : K8s} (gpa : GeneralPodAutoscaler k) (now : Time)
    (later : (s : lib.Schedule) (u : Time) → u <ℤ lib.next s u)
    (enough : (name schedule : String) → now <ℤ last_time gpa name schedule +ℤ pos fuel) where
  walk_total :
      (s : lib.Schedule) (name schedule : String)
      → let start = last_time gpa name schedule in
        (times : Time × Time) × (walk (suc (suc fuel)) (lib.next s) now start start ≡ some times)
  walk_total s name schedule =
      let start = last_time gpa name schedule in
      elim (Bool-cases (leb_ℤ start now)) [
        | inl past ↦
            let (times, e, around) =
              walk_ends (lib.next s) now start fuel (later s) (leb_ℤ→≤ℤ start now past)
                (enough name schedule) in
            (times, e)
        | inr future ↦ (
          (start, start),
          walk_at_once (lib.next s) now start (suc fuel) (leb_ℤ→<ℤ start now future),
        )
      ]

  -- A schedule that does not parse is told from one that does.
  abbrev Agrees : TimeRange → CronMatch → Type 0
  Agrees t parse_error = IsUnparsed lib fuel gpa now t
  Agrees t no_match = IsParsed lib fuel gpa now t
  Agrees t (matched last next) = IsParsed lib fuel gpa now t

  judge-Agrees :
      (t : TimeRange) (times : Time × Time)
      → IsParsed lib fuel gpa now t
      → Agrees t (judge now times)
  unfolding judge
  judge-Agrees t times parsed =
      if_both (Agrees t) (ltb_ℤ (now -ℤ times.0) minute && ltb_ℤ times.0 now)
        (matched times.0 times.1) no_match parsed parsed

  match_total :
      (name : String) (t : TimeRange)
      → (c : CronMatch) × IsFound lib (suc (suc fuel)) gpa now name t c × Agrees t c
  unfolding get_final_match_and_mis_match
  match_total name t = elim (Option-cases (lib.parse_standard t.schedule)) [
    | inl e ↦ rw (e, get_final_match_and_mis_match) (parse_error, refl, ap is_nil e)
    | inr (s, e) ↦
        let (times, e') = walk_total s name t.schedule in
        rw (e, e', get_final_match_and_mis_match)
          (judge now times, refl, judge-Agrees t times (ap is_nil e))
  ]

  module _ (R : String → Type 0) where
    -- The loop from a state, once the match of the next range is known.
    abbrev Scans : ℤ → String → List TimeRange → Type 0
    Scans max name ranges =
        (o : Option ℤ × String) × (scan_ranges lib (suc (suc fuel)) gpa now max name ranges
          ≡ some o)
        × Scanned lib (suc (suc fuel)) gpa now R max name ranges o

    scan_next :
        (max : ℤ) (name : String) (t : TimeRange) (rest : List TimeRange) (c : CronMatch)
        → R name
        → R t.schedule
        → IsFound lib (suc (suc fuel)) gpa now name t c
        → Agrees t c
        → Scans max name rest
        → Scans t.desired_replicas t.schedule rest
        → Scans max name (t ∷ rest)
    unfolding scan_ranges
    scan_next max name t rest parse_error before here e unparsed skip take =
        rw (e, scan_ranges) ((none, name), refl, inl unparsed)
    scan_next max name t rest no_match before here e parsed (o, eo, scanned) take =
        rw (e, scan_ranges)
          (
            o,
            eo,
            Scanned-not_due lib (suc (suc fuel)) gpa now R max name t rest o before parsed e
                scanned,
          )
    scan_next max name t rest (matched last next) before here e parsed (o, eo, scanned)
          (o', eo', scanned') =
        elim (Bool-cases (ltb_ℤ max t.desired_replicas)) [
          | inl larger ↦
              rw (e, larger, scan_ranges)
                (
                  o',
                  eo',
                  Scanned-take lib (suc (suc fuel)) gpa now R max name t rest o' here parsed
                      (name, before, last, next, e) (ltb_ℤ→<ℤ max t.desired_replicas larger)
                      scanned',
                )
          | inr not_larger ↦
              rw (e, not_larger, scan_ranges)
                (
                  o,
                  eo,
                  Scanned-small lib (suc (suc fuel)) gpa now R max name t rest o parsed
                      (ground arith) scanned,
                )
        ]

    scan_ranges_total :
        (max : ℤ) (name : String) (ranges : List TimeRange)
        → R name
        → All (λ t. R t.schedule) ranges
        → Scans max name ranges
    unfolding scan_ranges
    scan_ranges_total max name [] before all = ((some max, name), refl, (tt, inl (refl, refl, tt)))
    scan_ranges_total max name (t ∷ rest) before (here, all) =
        let (c, e, agrees) = match_total name t in
        scan_next max name t rest c before here e agrees
          (scan_ranges_total max name rest before all)
          (scan_ranges_total t.desired_replicas t.schedule rest here all)

  -- Where the activations of every schedule come one after another, and with fuel for each
  -- nanosecond since the last scaling, the scaler has a recommendation. If a schedule does not
  -- parse, it is the current count. If all parse, and no range with a count above 0 is due, it is the
  -- desired count of the status, and the recorded name stays. Otherwise it is the count of a
  -- range that is due, whose schedule is recorded, and no range with a larger count is due. (Here a
  -- range is due, or not, under a name that may be recorded when its turn comes: the one that was
  -- recorded before, or the schedule of one of the ranges.)
  pub get_replicas_total :
      (ranges : List TimeRange) (name : String) (current : ℤ)
      → (r : ℤ × String) × (get_replicas lib (suc (suc fuel)) gpa now ranges name current ≡ some r)
        × IsRecommendation lib (suc (suc fuel)) gpa now ranges name current r
  unfolding get_replicas
  get_replicas_total ranges name current =
      let (o, e, scanned) =
        scan_ranges_total (Recorded ranges name) (pos 0) name ranges (inl refl)
          (All-map _ _ ranges (λ t h. inr h) (schedules ranges)) in
      rw e ((_, o.1), refl, choose o scanned)
    where
      choose :
          (o : Option ℤ × String)
          → Scanned lib (suc (suc fuel)) gpa now (Recorded ranges name) (pos 0) name ranges o
          → IsRecommendation lib
              (suc (suc fuel))
              gpa
              now
              ranges
              name
              current
              (recommended lib (suc (suc fuel)) gpa now current o.0, o.1)
      choose (none, name') unparsed = inl (unparsed, refl)
      choose (some m, name') (parsed, inl (same, kept, others)) =
          inr (parsed, inl (rw same refl, kept, others))
      choose (some m, name') (parsed, inr (above, taken)) =
          let larger : eqb_ℤ m (pos 0) ≡ false = ground arith in
          inr (parsed, rw larger (inr (above, taken)))
