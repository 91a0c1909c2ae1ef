-- ===== src/Common/Lists.antt =====
-- Lists measured by native numbers, under the library's names, and predicates over lists.
use Prim.Native.Nat.{ℕ, zero, suc, ◌+◌}
use mathlib.Core.Path.{◌≡◌, refl, ap, subst, ◌∙◌}
use mathlib.Core.List.{List, [], ◌∷◌, ◌++◌}
use mathlib.Core.Option.{Option, none, some}
use mathlib.Core.Bool.{Bool, true, false}
use mathlib.Core.Logic.{◌⊎◌, inl, inr, ◌≢◌}
use native.Mathlib.Omega.{arith}
use general_pod_autoscaler.Common.Tests.{if◌then◌else◌, Bool-cases, some_inj}

module _ {ℓ} {A : Type ℓ} where
  abbrev pub length : List A → ℕ
  length [] = 0
  length (x ∷ xs) = suc (length xs)

  abbrev pub get_elem? : List A → ℕ → Option A
  get_elem? [] i = none
  get_elem? (x ∷ xs) zero = some x
  get_elem? (x ∷ xs) (suc i) = get_elem? xs i

  -- A write out of bounds changes nothing.
  abbrev pub set : List A → ℕ → A → List A
  set [] i v = []
  set (x ∷ xs) zero v = v ∷ xs
  set (x ∷ xs) (suc i) v = x ∷ set xs i v

  pub length-append : (xs ys : List A) → length (xs ++ ys) ≡ length xs + length ys
  length-append [] ys = omega arith
  length-append (x ∷ xs) ys = omega (arith, length-append xs ys)

module _ {ℓ} {A : Type ℓ} where
  pub length-set : (xs : List A) (i : ℕ) (v : A) → length (set xs i v) ≡ length xs
  length-set [] i v = refl
  length-set (x ∷ xs) zero v = refl
  length-set (x ∷ xs) (suc i) v = ap suc (length-set xs i v)

  -- Every element satisfies `P`; the predicate computes to a tuple.
  abbrev pub All {κ} : (A → Type κ) → List A → Type κ
  All P [] = Unit
  All P (x ∷ xs) = P x × All P xs

  pub All-get_elem? {κ} :
      (P : A → Type κ) (xs : List A) (i : ℕ) {x : A} → All P xs → get_elem? xs i ≡ some x → P x
  All-get_elem? P [] i h e = cc
  All-get_elem? P (y ∷ ys) zero h e = subst P (some_inj e) h.0
  All-get_elem? P (y ∷ ys) (suc i) h e = All-get_elem? P ys i h.1 e

  pub All-append {κ} :
      (P : A → Type κ) (front back : List A) → All P front → All P back → All P (front ++ back)
  All-append P [] back of_front of_back = of_back
  All-append P (first ∷ rest) back (of_first, of_rest) of_back =
      (of_first, All-append P rest back of_rest of_back)

  pub All-set {κ} :
      (P : A → Type κ) (xs : List A) (i : ℕ) (v : A) → All P xs → P v → All P (set xs i v)
  All-set P [] i v h p = h
  All-set P (x ∷ xs) zero v h p = (p, h.1)
  All-set P (x ∷ xs) (suc i) v h p = (h.0, All-set P xs i v h.1 p)

same_index : (i j : ℕ) → ◌≡◌ {A = Option ℕ} (some i) (some j) → j ≡ i + 0
same_index i j h = omega (arith, some_inj h)

-- The Go loops that look for an entry to reuse: `for i, x := range xs { if p(x) { found = true;
-- index = i } }` leaves the last index that fits, or what was found before. `none` is `!found`.
module _ {ℓ} {A : Type ℓ} where
  unfoldable pub last_index : (A → Bool) → ℕ → Option ℕ → List A → Option ℕ
  last_index p i found [] = found
  last_index p i found (x ∷ xs) = last_index p (suc i) (if p x then some i else found) xs

  -- `xs[index] = v` if an entry was found, and otherwise `append(xs, v)`.
  unfoldable pub replace_or_append : Option ℕ → A → List A → List A
  replace_or_append none v xs = xs ++ v ∷ []
  replace_or_append (some i) v xs = set xs i v

  pub All-replace_or_append {κ} :
      (P : A → Type κ) (found : Option ℕ) (v : A) (xs : List A)
      → All P xs
      → P v
      → All P (replace_or_append found v xs)
  unfolding replace_or_append
  All-replace_or_append P none v xs h pv = All-append P xs (v ∷ []) h (pv, tt)
  All-replace_or_append P (some i) v xs h pv = All-set P xs i v h pv

  -- An entry that fits, at a position of the list.
  abbrev pub FoundAt : (A → Bool) → List A → ℕ → Type ℓ
  FoundAt p xs i = (x : A) × (get_elem? xs i ≡ some x) × (p x ≡ true)

  last_index-FoundAt_from :
      (p : A → Bool) (xs : List A) (i : ℕ) (found : Option ℕ) (j : ℕ)
      → last_index p i found xs ≡ some j
      → (found ≡ some j) ⊎ ((k : ℕ) × (j ≡ i + k) × FoundAt p xs k)
  unfolding last_index
  last_index-FoundAt_from p [] i found j h = inl h
  last_index-FoundAt_from p (x ∷ xs) i found j h =
      elim (last_index-FoundAt_from p xs (suc i) (if p x then some i else found) j h) [
        | inl e ↦ elim (Bool-cases (p x)) [
          | inl fits ↦ inr (0, same_index i j (rw fits at e), (x, refl, fits))
          | inr skips ↦ inl (rw skips at e)
        ]
        | inr (k, at, found') ↦ inr (suc k, omega arith, found')
      ]

  pub last_index-FoundAt :
      (p : A → Bool) (xs : List A) (j : ℕ) → last_index p 0 none xs ≡ some j → FoundAt p xs j
  last_index-FoundAt p xs j h = elim (last_index-FoundAt_from p xs 0 none j h) [
    | inl e ↦ cc
    | inr (k, at, found) ↦ subst (FoundAt p xs) (omega arith) found
  ]

  pub get_elem?-append :
      (xs ys : List A) (i : ℕ) {x : A} → get_elem? xs i ≡ some x → get_elem? (xs ++ ys) i ≡ some x
  get_elem?-append [] ys i e = cc
  get_elem?-append (y ∷ xs) ys zero e = e
  get_elem?-append (y ∷ xs) ys (suc i) e = get_elem?-append xs ys i e

  pub get_elem?-append_length :
      (xs : List A) (v : A) → get_elem? (xs ++ v ∷ []) (length xs) ≡ some v
  get_elem?-append_length [] v = refl
  get_elem?-append_length (y ∷ xs) v = get_elem?-append_length xs v

  pub get_elem?-set_self :
      (xs : List A) (i : ℕ) (v : A) {x : A}
      → get_elem? xs i ≡ some x
      → get_elem? (set xs i v) i ≡ some v
  get_elem?-set_self [] i v e = cc
  get_elem?-set_self (y ∷ xs) zero v e = refl
  get_elem?-set_self (y ∷ xs) (suc i) v e = get_elem?-set_self xs i v e

  pub get_elem?-set_ne :
      (xs : List A) (i j : ℕ) (v : A) → i ≢ j → get_elem? (set xs i v) j ≡ get_elem? xs j
  get_elem?-set_ne [] i j v h = refl
  get_elem?-set_ne (x ∷ xs) zero zero v h = absurd (h refl)
  get_elem?-set_ne (x ∷ xs) zero (suc j) v h = refl
  get_elem?-set_ne (x ∷ xs) (suc i) zero v h = refl
  get_elem?-set_ne (x ∷ xs) (suc i) (suc j) v h = get_elem?-set_ne xs i j v (λ e. h (ap suc e))

  -- An entry that does not fit keeps its place and its value, and the new one is in the list.
  pub replace_or_append_keeps :
      (p : A → Bool) (v : A) (xs : List A) (j : ℕ) {x : A}
      → get_elem? xs j ≡ some x
      → p x ≡ false
      → get_elem? (replace_or_append (last_index p 0 none xs) v xs) j ≡ some x
  replace_or_append_keeps p v xs j {x} e kept =
      keeps (last_index p 0 none xs) (last_index-FoundAt p xs)
    where
      keeps :
          (found : Option ℕ)
          → ((i : ℕ) → found ≡ some i → FoundAt p xs i)
          → get_elem? (replace_or_append found v xs) j ≡ some x
      keeps none at = unfold replace_or_append in get_elem?-append xs (v ∷ []) j e
      keeps (some i) at =
          let (y, e', fits) = at i refl in
          unfold replace_or_append in get_elem?-set_ne xs i j v (λ same. cc) ∙ e

  pub replace_or_append_has :
      (p : A → Bool) (v : A) (xs : List A)
      → (j : ℕ) × (get_elem? (replace_or_append (last_index p 0 none xs) v xs) j ≡ some v)
  replace_or_append_has p v xs = has (last_index p 0 none xs) (last_index-FoundAt p xs)
    where
      has :
          (found : Option ℕ)
          → ((i : ℕ) → found ≡ some i → FoundAt p xs i)
          → (j : ℕ) × (get_elem? (replace_or_append found v xs) j ≡ some v)
      has none at = (length xs, unfold replace_or_append in get_elem?-append_length xs v)
      has (some i) at =
          let (y, e', fits) = at i refl in
          (i, unfold replace_or_append in get_elem?-set_self xs i v e')
