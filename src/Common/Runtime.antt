-- ===== src/Common/Runtime.antt =====
-- What the code takes from Go's standard library, beside the numbers: formatted text, and the
-- seconds of a duration.
use Prim.Native.String.{String}
use mathlib.Core.List.{List}
use general_pod_autoscaler.Common.Int.{ℤ}
use general_pod_autoscaler.Common.Float.{Float64}

-- An operand of a format.
pub data FmtArg : Type 0 where
  int : ℤ → FmtArg
  str : String → FmtArg

pub record Runtime : Type 1 where
  pub float : Float64
  pub sprintf : String → List FmtArg → String  -- fmt.Sprintf
  pub duration_seconds : ℤ → float.F  -- time.Duration.Seconds
