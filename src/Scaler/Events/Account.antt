-- ===== src/Scaler/Events/Account.antt =====
-- A recorded scaling counts in every period of its rules.
use general_pod_autoscaler.Common.{
  ℕ, zero, suc, ◌≡◌, refl, ◌∙◌, List, [], ◌∷◌, none, some, true, false, arith, if◌then◌else◌, All,
  get_elem?, last_index, last_index-FoundAt, some_inj, subst, ap₂, All-get_elem?,
}
use general_pod_autoscaler.Common.Int.{
  ℤ, pos, ◌≤ℤ◌, ◌<ℤ◌, ◌-ℤ◌, ◌+ℤ◌, ltb_ℤ, int_laws, <ℤ→ltb_ℤ, ≤ℤ→ltb_ℤ,
}
use general_pod_autoscaler.Common.Machine.{IsInt32, wrap32, wrap32-wrap32_add}
use general_pod_autoscaler.Common.Sum.{sum_by, sum_by-replace_or_append}
use general_pod_autoscaler.Api.Extern.{Time}
use general_pod_autoscaler.Api.Behavior.{GpaScalingPolicy, GpaScalingRules}
use general_pod_autoscaler.Scaler.State.{TimestampedScaleEvent, seconds, seconds_parts}
use general_pod_autoscaler.Scaler.Policies.{get_replicas_change_per_period}
use general_pod_autoscaler.Scaler.Policies.Window.{in_window, get_replicas_change-sum_by}
use general_pod_autoscaler.Scaler.Events.{
  mark_event, mark_before, mark_scale_events_outdated, longest_period, get_longest_policy_period,
  is_outdated, record_event,
}

-- Every event that is marked as outdated is no newer than the cutoff.
abbrev pub MarksAreOld : Time → List TimestampedScaleEvent → Type 0
MarksAreOld cutoff = All (λ e. e.outdated ≡ true → e.timestamp ≤ℤ cutoff)

mark_before-MarksAreOld :
    (marking cutoff : Time) (events : List TimestampedScaleEvent)
    → marking ≤ℤ cutoff
    → MarksAreOld cutoff events
    → MarksAreOld cutoff (mark_before marking events)
unfolding mark_before mark_event
mark_before-MarksAreOld marking cutoff [] le h = tt
mark_before-MarksAreOld marking cutoff (e ∷ es) le h =
    (ground arith, mark_before-MarksAreOld marking cutoff es le h.1)

in_window-mark_event :
    (marking cutoff : Time) (e : TimestampedScaleEvent)
    → in_window cutoff (mark_event marking e) ≡ in_window cutoff e
unfolding mark_event in_window
in_window-mark_event marking cutoff e = ground arith

sum_by-mark_before :
    (marking cutoff : Time) (events : List TimestampedScaleEvent)
    → sum_by (in_window cutoff) (mark_before marking events) ≡ sum_by (in_window cutoff) events
unfolding mark_before sum_by
sum_by-mark_before marking cutoff [] = refl
sum_by-mark_before marking cutoff (e ∷ es) =
    rw (in_window-mark_event marking cutoff e, sum_by-mark_before marking cutoff es)

in_window_old :
    (cutoff : Time) (e : TimestampedScaleEvent) → e.timestamp ≤ℤ cutoff → in_window cutoff e ≡ pos 0
unfolding in_window
in_window_old cutoff e h = rw (≤ℤ→ltb_ℤ cutoff e.timestamp h)

in_window_new :
    (cutoff : Time) (e : TimestampedScaleEvent)
    → cutoff <ℤ e.timestamp
    → in_window cutoff e ≡ e.replica_change
unfolding in_window
in_window_new cutoff e h = rw (<ℤ→ltb_ℤ cutoff e.timestamp h)

marked_counts_nothing :
    (cutoff : Time) (events : List TimestampedScaleEvent)
    → MarksAreOld cutoff events
    → (x : TimestampedScaleEvent) (i : ℕ) → get_elem? events i ≡ some x
    → is_outdated x ≡ true
    → in_window cutoff x ≡ pos 0
marked_counts_nothing cutoff [] h x i e old = cc
marked_counts_nothing cutoff (y ∷ ys) h x zero e old =
    subst (λ z. is_outdated z ≡ true → in_window cutoff z ≡ pos 0) (some_inj e)
      (λ o. in_window_old cutoff y (h.0 o)) old
marked_counts_nothing cutoff (y ∷ ys) h x (suc i) e old =
    marked_counts_nothing cutoff ys h.1 x i e old

sum_by-record_event :
    (cutoff mark_now event_now : Time) (longest change : ℤ) (events : List TimestampedScaleEvent)
    → mark_now -ℤ seconds longest ≤ℤ cutoff
    → cutoff <ℤ event_now
    → MarksAreOld cutoff events
    → sum_by (in_window cutoff) (record_event mark_now event_now longest change events)
      ≡ sum_by (in_window cutoff) events +ℤ change
unfolding record_event mark_scale_events_outdated
sum_by-record_event cutoff mark_now event_now longest change events le new h =
    let marking = mark_now -ℤ seconds longest in
    let marked = mark_before marking events in
    let event : TimestampedScaleEvent = record {
      replica_change = change;
      timestamp = event_now;
      outdated = false;
    } in
    sum_by-replace_or_append (in_window cutoff) is_outdated marked
      (last_index is_outdated 0 none marked) event
      (marked_counts_nothing cutoff marked (mark_before-MarksAreOld marking cutoff events le h))
      (last_index-FoundAt is_outdated marked)
    ∙ ap₂ ◌+ℤ◌ (sum_by-mark_before marking cutoff events) (in_window_new cutoff event new)

-- The longest period is at least that of every policy.
longest_period_from :
    (policies : List GpaScalingPolicy) (start : ℤ)
    → (start ≤ℤ longest_period start policies)
      × All (λ p. p.period_seconds ≤ℤ longest_period start policies) policies
unfolding longest_period
longest_period_from [] start = (omega arith, tt)
longest_period_from (p ∷ ps) start =
    let (above, all) =
      longest_period_from ps (if ltb_ℤ start p.period_seconds then p.period_seconds else start) in
    (ground (arith, above), (ground (arith, above), all))

longest_period-IsInt32 :
    (policies : List GpaScalingPolicy) (start : ℤ)
    → IsInt32 start
    → All (λ p. IsInt32 p.period_seconds) policies
    → IsInt32 (longest_period start policies)
unfolding longest_period
longest_period-IsInt32 [] start h all = h
longest_period-IsInt32 (p ∷ ps) start h (fits, all) =
    longest_period-IsInt32 ps (if ltb_ℤ start p.period_seconds then p.period_seconds else start)
      (ground arith) all

seconds_mono : (a b : ℤ) → IsInt32 a → IsInt32 b → a ≤ℤ b → seconds a ≤ℤ seconds b
seconds_mono a b ha hb le = omega (arith, seconds_parts a ha, seconds_parts b hb)

-- The start of a policy's period is no earlier than the cutoff at which events are marked.
period_start_le :
    (rules : GpaScalingRules) (policy : GpaScalingPolicy) (i : ℕ) (mark_now now : Time)
    → get_elem? rules.policies i ≡ some policy
    → All (λ p. IsInt32 p.period_seconds) rules.policies
    → mark_now ≤ℤ now
    → mark_now -ℤ seconds (get_longest_policy_period rules) ≤ℤ now -ℤ seconds policy.period_seconds
unfolding get_longest_policy_period
period_start_le rules policy i mark_now now e fits le =
    let longest = longest_period (pos 0) rules.policies in
    let below : policy.period_seconds ≤ℤ longest =
      All-get_elem? (λ p. p.period_seconds ≤ℤ longest) rules.policies i
        (longest_period_from rules.policies (pos 0)).1 e in
    let fits_longest : IsInt32 longest =
      longest_period-IsInt32 rules.policies (pos 0) (omega arith) fits in
    let ordered =
      seconds_mono policy.period_seconds longest
        (All-get_elem? (λ p. IsInt32 p.period_seconds) rules.policies i fits e) fits_longest
        below in
    omega (int_laws, ordered)

MarksAreOld-mono :
    (cutoff cutoff' : Time) (events : List TimestampedScaleEvent)
    → cutoff ≤ℤ cutoff'
    → MarksAreOld cutoff events
    → MarksAreOld cutoff' events
MarksAreOld-mono cutoff cutoff' [] le h = tt
MarksAreOld-mono cutoff cutoff' (e ∷ es) le h =
    (λ o. omega (arith, h.0 o), MarksAreOld-mono cutoff cutoff' es le h.1)

-- Recording an event changes the count of every period of the rules by the event's change.
pub record_event-counts :
    (rules : GpaScalingRules) (policy : GpaScalingPolicy) (i : ℕ) (mark_now event_now now : Time)
    (change : ℤ) (events : List TimestampedScaleEvent)
    → get_elem? rules.policies i ≡ some policy
    → All (λ p. IsInt32 p.period_seconds) rules.policies
    → mark_now ≤ℤ now
    → now -ℤ seconds policy.period_seconds <ℤ event_now
    → MarksAreOld (mark_now -ℤ seconds (get_longest_policy_period rules)) events
    → get_replicas_change_per_period now policy.period_seconds
        (record_event mark_now event_now (get_longest_policy_period rules) change events)
      ≡ wrap32 (get_replicas_change_per_period now policy.period_seconds events +ℤ change)
record_event-counts rules policy i mark_now event_now now change events e fits le new h =
    let longest = get_longest_policy_period rules in
    let cutoff = now -ℤ seconds policy.period_seconds in
    let start = period_start_le rules policy i mark_now now e fits le in
    rw (
      get_replicas_change-sum_by now policy.period_seconds events,
      get_replicas_change-sum_by now policy.period_seconds
          (record_event mark_now event_now longest change events),
      sum_by-record_event cutoff mark_now event_now longest change events start new
          (MarksAreOld-mono _ cutoff events start h),
      wrap32-wrap32_add (sum_by (in_window cutoff) events) change,
    )
