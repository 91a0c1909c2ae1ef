-- ===== src/Scaler/State.antt =====
-- The state that the controller keeps between two reconciliations, and durations
-- (pkg/scaler/general.go).
use general_pod_autoscaler.Common.{List, Bool, ◌≡◌, ◌*◌, arith}
use general_pod_autoscaler.Common.Int.{ℤ, pos, pos_part, neg_part, ◌*ℤ◌}
use general_pod_autoscaler.Common.Machine.{IsInt32, IsInt64, wrap64}
use general_pod_autoscaler.Common.Dict.{Dict}
use general_pod_autoscaler.Api.Extern.{Time}

pub record TimestampedRecommendation : Type 0 where
  pub recommendation : ℤ
  pub timestamp : Time

pub record TimestampedScaleEvent : Type 0 where
  pub replica_change : ℤ
  pub timestamp : Time
  pub outdated : Bool

-- The fields of `GeneralController` that an operation of the controller changes or reads; the
-- clients, listers and the queue are inputs of the operations that use them.
pub record GeneralController : Type 0 where
  pub downscale_stabilisation_window : Time
  pub recommendations : Dict (List TimestampedRecommendation)
  pub scale_up_events : Dict (List TimestampedScaleEvent)
  pub scale_down_events : Dict (List TimestampedScaleEvent)

-- `time.Second * time.Duration(n)`, in the 64 bits of a duration.
unfoldable pub seconds : ℤ → Time
seconds n = wrap64 (pos 1000000000 *ℤ n)

wrap64_self : (z : ℤ) → IsInt64 z → wrap64 z ≡ z
unfolding wrap64
wrap64_self z h = ground arith

billion_*ℤ :
    (n : ℤ)
    → (pos_part (pos 1000000000 *ℤ n) ≡ 1000000000 * pos_part n)
      × (neg_part (pos 1000000000 *ℤ n) ≡ 1000000000 * neg_part n)
unfolding ◌*ℤ◌
billion_*ℤ n = ground arith

-- The product does not overflow.
pub seconds_parts :
    (n : ℤ)
    → IsInt32 n
    → (pos_part (seconds n) ≡ 1000000000 * pos_part n)
      × (neg_part (seconds n) ≡ 1000000000 * neg_part n)
unfolding seconds
seconds_parts n h =
    let (p, q) = billion_*ℤ n in rw (wrap64_self (pos 1000000000 *ℤ n) (omega arith)) (p, q)
