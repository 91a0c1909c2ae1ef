-- ===== src/Scaler/Recommendations/Scan.antt =====
-- The loops over the recommendations, split into the value and the index that they compute.
use general_pod_autoscaler.Common.{
  ℕ, suc, ◌≡◌, refl, ◌⊎◌, inl, inr, Bool, List, [], ◌∷◌, Option, some, arith, if◌then◌else◌,
  last_index, All, ◌∙◌, sym, Bool-cases,
}
use general_pod_autoscaler.Common.Int.{ℤ, ltb_ℤ, ◌≤ℤ◌, ◌<ℤ◌, ltb_ℤ→<ℤ, ltb_ℤ→≤ℤ}
use general_pod_autoscaler.Api.Extern.{Time}
use general_pod_autoscaler.Scaler.Limits.{max, min}
use general_pod_autoscaler.Scaler.State.{TimestampedRecommendation}
use general_pod_autoscaler.Scaler.Recommendations.{scan_stabilize, scan_behaviors}

abbrev pub is_before : Time → TimestampedRecommendation → Bool
is_before cutoff rec = ltb_ℤ rec.timestamp cutoff

-- The value is that of one of the entries that satisfy `P`.
abbrev pub IsOneOf :
    (TimestampedRecommendation → Type 0) → ℤ → List TimestampedRecommendation → Type 0
IsOneOf P v [] = ⊥
IsOneOf P v (rec ∷ rest) = (P rec × (rec.recommendation ≡ v)) ⊎ IsOneOf P v rest

abbrev pub IsFresh : Time → TimestampedRecommendation → Type 0
IsFresh cutoff rec = cutoff ≤ℤ rec.timestamp

abbrev pub IsRecent : Time → TimestampedRecommendation → Type 0
IsRecent cutoff rec = cutoff <ℤ rec.timestamp

pub scan_stabilize_index :
    (cutoff : Time) (i : ℕ) (m : ℤ) (found : Option ℕ) (recs : List TimestampedRecommendation)
    → (scan_stabilize cutoff i m found recs).1 ≡ last_index (is_before cutoff) i found recs
unfolding scan_stabilize last_index
scan_stabilize_index cutoff i m found [] = refl
scan_stabilize_index cutoff i m found (rec ∷ rest) =
    scan_stabilize_index cutoff (suc i)
      (if ltb_ℤ rec.timestamp cutoff
        then m
        else if ltb_ℤ m rec.recommendation
        then rec.recommendation
        else m)
      (if ltb_ℤ rec.timestamp cutoff then some i else found) rest

-- The value after one entry.
abbrev larger_fresh : Time → ℤ → TimestampedRecommendation → ℤ
larger_fresh cutoff m rec =
    if ltb_ℤ rec.timestamp cutoff
    then m
    else if ltb_ℤ m rec.recommendation
    then rec.recommendation
    else m

larger_fresh_step :
    (cutoff : Time) (m : ℤ) (rec : TimestampedRecommendation)
    → let m' = larger_fresh cutoff m rec in
      (m ≤ℤ m')
      × (IsFresh cutoff rec → rec.recommendation ≤ℤ m')
      × ((m' ≡ m) ⊎ (IsFresh cutoff rec × (rec.recommendation ≡ m')))
larger_fresh_step cutoff m rec = (ground arith, (λ h. ground arith), ground arith)

-- What one entry and the rest of the list say together about the final value.
conclude :
    (P : TimestampedRecommendation → Type 0) (m m' r : ℤ) (rec : TimestampedRecommendation)
    (rest : List TimestampedRecommendation)
    → (m' ≡ m) ⊎ (P rec × (rec.recommendation ≡ m'))
    → (r ≡ m') ⊎ IsOneOf P r rest
    → (r ≡ m) ⊎ IsOneOf P r (rec ∷ rest)
conclude P m m' r rec rest (inl e) (inl e') = inl (e' ∙ e)
conclude P m m' r rec rest (inr (p, e)) (inl e') = inr (inl (p, e ∙ sym e'))
conclude P m m' r rec rest here (inr there) = inr (inr there)

-- The value is the largest of the start and of the fresh entries.
pub scan_stabilize_max :
    (cutoff : Time) (i : ℕ) (m : ℤ) (found : Option ℕ) (recs : List TimestampedRecommendation)
    → let r = (scan_stabilize cutoff i m found recs).0 in
      (m ≤ℤ r)
      × All (λ rec. IsFresh cutoff rec → rec.recommendation ≤ℤ r) recs
      × ((r ≡ m) ⊎ IsOneOf (IsFresh cutoff) r recs)
unfolding scan_stabilize
scan_stabilize_max cutoff i m found [] = (omega arith, tt, inl refl)
scan_stabilize_max cutoff i m found (rec ∷ rest) =
    let m' = larger_fresh cutoff m rec in
    let found' = if ltb_ℤ rec.timestamp cutoff then some i else found in
    let (above, covers, picked) = larger_fresh_step cutoff m rec in
    let (above', covers', picked') = scan_stabilize_max cutoff (suc i) m' found' rest in
    (
      omega arith,
      (λ fresh. omega (arith, covers fresh), covers'),
      conclude (IsFresh cutoff) m m' _ rec rest picked picked',
    )

pub scan_behaviors_index :
    (better : ℤ → ℤ → ℤ) (cutoff obsolete : Time) (i : ℕ) (m : ℤ) (found : Option ℕ)
    (recs : List TimestampedRecommendation)
    → (scan_behaviors better cutoff obsolete i m found recs).1
      ≡ last_index (is_before obsolete) i found recs
unfolding scan_behaviors last_index
scan_behaviors_index better cutoff obsolete i m found [] = refl
scan_behaviors_index better cutoff obsolete i m found (rec ∷ rest) =
    scan_behaviors_index better cutoff obsolete (suc i)
      (if ltb_ℤ cutoff rec.timestamp then better rec.recommendation m else m)
      (if ltb_ℤ rec.timestamp obsolete then some i else found) rest

-- A choice between two recommendations: one of the two, below both in the order `R`.
pub record IsChoice (R : ℤ → ℤ → Type 0) (better : ℤ → ℤ → ℤ) : Type 0 where
  pub left : (a b : ℤ) → R (better a b) a
  pub right : (a b : ℤ) → R (better a b) b
  pub one : (a b : ℤ) → (better a b ≡ a) ⊎ (better a b ≡ b)
  pub same : (a : ℤ) → R a a
  pub chain : (a b c : ℤ) → R a b → R b c → R a c

pub min-IsChoice : IsChoice ◌≤ℤ◌ min
unfolding min
min-IsChoice = record {
  left = λ a b. ground arith;
  right = λ a b. ground arith;
  one = λ a b. ground arith;
  same = λ a. omega arith;
  chain = λ a b c h k. omega arith;
}

pub max-IsChoice : IsChoice (λ a b. b ≤ℤ a) max
unfolding max
max-IsChoice = record {
  left = λ a b. ground arith;
  right = λ a b. ground arith;
  one = λ a b. ground arith;
  same = λ a. omega arith;
  chain = λ a b c h k. omega arith;
}

module _ (R : ℤ → ℤ → Type 0) (better : ℤ → ℤ → ℤ) (choice : IsChoice R better) where
  better_step :
      (cutoff : Time) (m : ℤ) (rec : TimestampedRecommendation)
      → let m' = if ltb_ℤ cutoff rec.timestamp then better rec.recommendation m else m in
        R m' m
        × (IsRecent cutoff rec → R m' rec.recommendation)
        × ((m' ≡ m) ⊎ (IsRecent cutoff rec × (rec.recommendation ≡ m')))
  better_step cutoff m rec = elim (Bool-cases (ltb_ℤ cutoff rec.timestamp)) [
    | inl newer ↦ rw newer (
      choice.right rec.recommendation m,
      (λ recent. choice.left rec.recommendation m),
      elim (choice.one rec.recommendation m) [
        | inl e ↦ inr (ltb_ℤ→<ℤ cutoff rec.timestamp newer, sym e)
        | inr e ↦ inl e
      ],
    )
    | inr older ↦ rw older (
      choice.same m,
      (λ recent. absurd (omega (arith, ltb_ℤ→≤ℤ cutoff rec.timestamp older))),
      inl refl,
    )
  ]

  -- The value is the best of the start and of the recent entries.
  pub scan_behaviors_best :
      (cutoff obsolete : Time) (i : ℕ) (m : ℤ) (found : Option ℕ)
      (recs : List TimestampedRecommendation)
      → let r = (scan_behaviors better cutoff obsolete i m found recs).0 in
        R r m
        × All (λ rec. IsRecent cutoff rec → R r rec.recommendation) recs
        × ((r ≡ m) ⊎ IsOneOf (IsRecent cutoff) r recs)
  unfolding scan_behaviors
  scan_behaviors_best cutoff obsolete i m found [] = (choice.same m, tt, inl refl)
  scan_behaviors_best cutoff obsolete i m found (rec ∷ rest) =
      let m' = if ltb_ℤ cutoff rec.timestamp then better rec.recommendation m else m in
      let found' = if ltb_ℤ rec.timestamp obsolete then some i else found in
      let (above, covers, picked) = better_step cutoff m rec in
      let (above', covers', picked') = scan_behaviors_best cutoff obsolete (suc i) m' found' rest in
      (
        choice.chain _ m' m above' above,
        (λ recent. choice.chain _ m' rec.recommendation above' (covers recent), covers'),
        conclude (IsRecent cutoff) m m' _ rec rest picked picked',
      )
