-- ===== src/ScalerCore/Cron/Walk.antt =====
-- The walk through the activation times of a schedule: when it ends, and with what.
use general_pod_autoscaler.Common.{ℕ, zero, suc, ◌≡◌, refl, inl, inr, none, some, Bool-cases}
use general_pod_autoscaler.Common.Int.{
  pos, ◌+ℤ◌, ◌≤ℤ◌, ◌<ℤ◌, leb_ℤ, int_laws, leb_ℤ→≤ℤ, leb_ℤ→<ℤ, ≤ℤ→leb_ℤ, <ℤ→leb_ℤ,
}
use general_pod_autoscaler.Api.Extern.{Time}
use general_pod_autoscaler.ScalerCore.Cron.{zero_time, walk}

-- What the walk is meant to find: two successive activations around the present.
pub record IsAround (next : Time → Time) (now : Time) (times : Time × Time) : Type 0 where
  pub past : times.0 ≤ℤ now
  pub future : now <ℤ times.1
  pub successive : times.1 ≡ next times.0

walk_ends_from :
    (next : Time → Time) (now : Time) (fuel : ℕ) (mis_match t : Time)
    → ((u : Time) → u <ℤ next u)
    → now <ℤ t +ℤ pos fuel
    → mis_match ≤ℤ now
    → t ≡ next mis_match
    → (times : Time × Time) × (walk (suc fuel) next now mis_match t ≡ some times)
      × IsAround next now times
unfolding walk
walk_ends_from next now zero m t later enough past e =
    rw (<ℤ→leb_ℤ t now (omega int_laws))
      ((m, t), refl, record { past = past; future = omega int_laws; successive = e })
walk_ends_from next now (suc fuel) m t later enough past e = elim (Bool-cases (leb_ℤ t now)) [
  | inl not_after ↦ rw not_after (
      walk_ends_from next now fuel t (next t) later (omega (int_laws, later t))
        (leb_ℤ→≤ℤ t now not_after) refl)
  | inr after ↦
      rw after ((m, t), refl, record { past = past; future = leb_ℤ→<ℤ t now after; successive = e })
]

-- If the activations of the schedule come one after another, the walk from a time that is not
-- after the present ends, with fuel for each nanosecond in between: it finds a time that is not
-- after the present, and the activation that follows it, which is after the present.
pub walk_ends :
    (next : Time → Time) (now start : Time) (fuel : ℕ)
    → ((u : Time) → u <ℤ next u)
    → start ≤ℤ now
    → now <ℤ start +ℤ pos fuel
    → (times : Time × Time) × (walk (suc (suc fuel)) next now start start ≡ some times)
      × IsAround next now times
unfolding walk
walk_ends next now start fuel later past enough = rw (≤ℤ→leb_ℤ start now past) (
    walk_ends_from next now fuel start (next start) later (omega (int_laws, later start)) past refl)

walk_stuck :
    (next : Time → Time) (now : Time) (fuel : ℕ) (mis_match : Time)
    → ((u : Time) → next u ≡ zero_time)
    → zero_time ≤ℤ now
    → walk fuel next now mis_match zero_time ≡ none
unfolding walk
walk_stuck next now zero m never past = refl
walk_stuck next now (suc fuel) m never past =
    rw (≤ℤ→leb_ℤ zero_time now past, never zero_time)
      (walk_stuck next now fuel zero_time never past)

-- A schedule that is never due, for which the library answers with the zero time: the walk from any
-- time that is not after the present never ends, whatever its fuel.
pub walk_never_ends :
    (next : Time → Time) (now start : Time) (fuel : ℕ)
    → ((u : Time) → next u ≡ zero_time)
    → zero_time ≤ℤ now
    → start ≤ℤ now
    → walk fuel next now start start ≡ none
unfolding walk
walk_never_ends next now start zero never past start_past = refl
walk_never_ends next now start (suc fuel) never past start_past =
    rw (≤ℤ→leb_ℤ start now start_past, never start) (walk_stuck next now fuel start never past)

-- From a start that is after the present the walk ends at once.
pub walk_at_once :
    (next : Time → Time) (now start : Time) (fuel : ℕ)
    → now <ℤ start
    → walk (suc fuel) next now start start ≡ some (start, start)
unfolding walk
walk_at_once next now start fuel future = rw (<ℤ→leb_ℤ start now future)
