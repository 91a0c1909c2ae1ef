-- ===== src/Common/Sum.antt =====
-- Sums of integers over a list.
use general_pod_autoscaler.Common.Tests.{some_inj}
use general_pod_autoscaler.Common.Lists.{get_elem?, set, replace_or_append, FoundAt}
use general_pod_autoscaler.Common.Int.{ℤ, pos, ◌+ℤ◌, int_laws, +ℤ_shift, +ℤ_zero_right}
use Prim.Native.Nat.{ℕ, zero, suc}
use mathlib.Core.Path.{◌≡◌, refl}
use mathlib.Core.Bool.{Bool, true}
use mathlib.Core.Option.{Option, none, some}
use mathlib.Core.List.{List, [], ◌∷◌, ◌++◌}

module _ {ℓ} {A : Type ℓ} where
  unfoldable pub sum_by : (A → ℤ) → List A → ℤ
  sum_by w [] = pos 0
  sum_by w (x ∷ xs) = w x +ℤ sum_by w xs

  pub sum_by-append :
      (w : A → ℤ) (xs ys : List A) → sum_by w (xs ++ ys) ≡ sum_by w xs +ℤ sum_by w ys
  unfolding sum_by
  sum_by-append w [] ys = omega int_laws
  sum_by-append w (x ∷ xs) ys = rw (sum_by-append w xs ys) (omega int_laws)

  pub sum_by-set :
      (w : A → ℤ) (xs : List A) (i : ℕ) (v : A) {x : A}
      → get_elem? xs i ≡ some x
      → sum_by w (set xs i v) +ℤ w x ≡ sum_by w xs +ℤ w v
  unfolding sum_by
  sum_by-set w [] i v h = cc
  sum_by-set w (y ∷ ys) zero v h = rw (← some_inj h) (omega int_laws)
  sum_by-set w (y ∷ ys) (suc i) v {x} h =
      +ℤ_shift (sum_by w (set ys i v)) (w x) (sum_by w ys) (w v) (w y) (sum_by-set w ys i v h)

  -- Replacing an entry that counts for nothing, or appending, adds the weight of the new entry.
  pub sum_by-replace_or_append :
      (w : A → ℤ) (p : A → Bool) (xs : List A) (found : Option ℕ) (v : A)
      → ((x : A) (i : ℕ) → get_elem? xs i ≡ some x → p x ≡ true → w x ≡ pos 0)
      → ((i : ℕ) → found ≡ some i → FoundAt p xs i)
      → sum_by w (replace_or_append found v xs) ≡ sum_by w xs +ℤ w v
  unfolding replace_or_append
  sum_by-replace_or_append w p xs none v dead at =
      rw (sum_by-append w xs (v ∷ [])) (unfold sum_by in omega int_laws)
  sum_by-replace_or_append w p xs (some i) v dead at =
      let (x, e, fits) = at i refl in +ℤ_zero_right _ _ _ (sum_by-set w xs i v e) (dead x i e fits)
