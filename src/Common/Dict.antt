-- ===== src/Common/Dict.antt =====
-- Go's `map[string]V`, as an association list: the first entry of a key counts.
use Prim.Native.String.{String}
use mathlib.Core.Path.{◌≡◌, refl}
use mathlib.Core.Logic.{◌≢◌}
use mathlib.Core.Option.{Option, none, some}
use mathlib.Core.List.{List, [], ◌∷◌}
use native.Mathlib.Omega.{arith}
use text.Mathlib.Text.{◌==◌ as str_eq}
use text.Mathlib.TextEquality.{eq_iff}
use general_pod_autoscaler.Common.Tests.{if◌then◌else◌}

abbrev pub Dict {ℓ} : Type ℓ → Type ℓ
Dict V = List (String × V)

module _ {ℓ} {V : Type ℓ} where
  -- `v, ok := m[k]`
  unfoldable pub lookup : String → Dict V → Option V
  lookup k [] = none
  lookup k ((j, v) ∷ m) = if str_eq j k then some v else lookup k m

  -- `m[k] = v`
  pub insert : String → V → Dict V → Dict V
  insert k v [] = (k, v) ∷ []
  insert k v ((j, w) ∷ m) = if str_eq j k then (k, v) ∷ m else (j, w) ∷ insert k v m

  -- `delete(m, k)`
  pub delete : String → Dict V → Dict V
  delete k [] = []
  delete k ((j, w) ∷ m) = let rest = delete k m in if str_eq j k then rest else (j, w) ∷ rest

  pub lookup-insert :
      (key asked : String) (new : V) (entries : Dict V)
      → lookup asked (insert key new entries)
        ≡ (if str_eq key asked then some new else lookup asked entries)
  unfolding lookup insert
  lookup-insert key asked new [] = refl
  lookup-insert key asked new ((first, old) ∷ rest) =
      let below = lookup-insert key asked new rest in
      ground (arith, below, eq_iff first asked, eq_iff key asked, eq_iff first key)

  pub insert_ne_nil : (k : String) (v : V) (m : Dict V) → insert k v m ≢ []
  unfolding insert
  insert_ne_nil k v [] = λ e. cc
  insert_ne_nil k v ((j, w) ∷ m) = λ e. ground arith

  pub lookup-insert_self : (k : String) (v : V) (m : Dict V) → lookup k (insert k v m) ≡ some v
  lookup-insert_self k v m = rw (lookup-insert k k v m) (ground (arith, eq_iff k k))

  pub lookup-insert_ne :
      (k j : String) (v : V) (m : Dict V) → k ≢ j → lookup j (insert k v m) ≡ lookup j m
  lookup-insert_ne k j v m ne = rw (lookup-insert k j v m) (ground (arith, eq_iff k j))

  pub lookup-delete_self : (k : String) (m : Dict V) → lookup k (delete k m) ≡ none
  unfolding lookup delete
  lookup-delete_self k [] = refl
  lookup-delete_self k ((i, w) ∷ m) = ground (arith, lookup-delete_self k m)

  pub lookup-delete_ne : (k j : String) (m : Dict V) → k ≢ j → lookup j (delete k m) ≡ lookup j m
  unfolding lookup delete
  lookup-delete_ne k j [] ne = refl
  lookup-delete_ne k j ((i, w) ∷ m) ne =
      ground (arith, eq_iff i k, eq_iff i j, lookup-delete_ne k j m ne)

-- `m[k]` of a map of slices: the nil slice, which is empty, where there is no entry.
unfoldable pub items {ℓ} : {V : Type ℓ} → String → Dict (List V) → List V
unfolding lookup
items k m = elim (lookup k m) [ none ↦ [] | some xs ↦ xs ]

pub items-insert_self {ℓ} :
    {V : Type ℓ} (k : String) (xs : List V) (m : Dict (List V)) → items k (insert k xs m) ≡ xs
unfolding items
items-insert_self k xs m = rw (lookup-insert_self k xs m, items)

pub items-insert_ne {ℓ} :
    {V : Type ℓ} (k j : String) (xs : List V) (m : Dict (List V))
    → k ≢ j
    → items j (insert k xs m) ≡ items j m
unfolding items
items-insert_ne k j xs m ne = rw (lookup-insert_ne k j xs m ne, items)
