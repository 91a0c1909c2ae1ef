-- ===== src/Common/Tests.antt =====
-- Boolean tests on native numbers, the conditional, and splits that keep their equation.
use Prim.Native.Nat.{ℕ, ◌≤◌, ◌<◌, compare, Ordering}
use mathlib.Core.Path.{◌≡◌, refl, sym}
use mathlib.Core.Logic.{◌≢◌, ◌⊎◌, inl, inr}
use mathlib.Core.Bool.{Bool, true, false}
use mathlib.Core.Option.{Option, none, some}
use native.Mathlib.Omega.{arith}

abbrev pub ltb : ℕ → ℕ → Bool
ltb a b = elim (compare a b) [ Ordering.lt ↦ true | _ ↦ false ]

abbrev pub leb : ℕ → ℕ → Bool
leb a b = elim (compare a b) [ Ordering.gt ↦ false | _ ↦ true ]

infix 50 ◌==◌
abbrev pub ◌==◌ : ℕ → ℕ → Bool
a == b = elim (compare a b) [ Ordering.eq ↦ true | _ ↦ false ]

infix 1 if◌then◌else◌
abbrev pub if◌then◌else◌ {ℓ} : {A : Type ℓ} → Bool → A → A → A
if true then x else y = x
if false then x else y = y

pub ltb→lt : (a b : ℕ) → ltb a b ≡ true → a < b
ltb→lt a b h = ground arith

pub leb→le : (a b : ℕ) → leb a b ≡ true → a ≤ b
leb→le a b h = ground arith

pub Bool-cases : (b : Bool) → (b ≡ true) ⊎ (b ≡ false)
Bool-cases true = inl refl
Bool-cases false = inr refl

pub Option-cases {ℓ} : {A : Type ℓ} (o : Option A) → (o ≡ none) ⊎ ((a : A) × (o ≡ some a))
Option-cases none = inl refl
Option-cases (some a) = inr (a, refl)

-- A Go pointer that is `nil` when `none`: `is_nil p` is `p == nil`.
abbrev pub is_nil {ℓ} : {A : Type ℓ} → Option A → Bool
is_nil none = true
is_nil (some _) = false

-- A computation that dereferences a nil pointer has no result: `none`.
infixl 5 ◌>>=◌
abbrev pub ◌>>=◌ {ℓ κ} : {A : Type ℓ} {B : Type κ} → Option A → (A → Option B) → Option B
none >>= f = none
some a >>= f = f a

pub some_inj {ℓ} : {A : Type ℓ} {a b : A} → some a ≡ some b → a ≡ b
some_inj h = cc

-- A sequence of two steps that are there.
pub bind_ne_none {ℓ ℓ'} :
    {A : Type ℓ} {B : Type ℓ'} (o : Option A) (f : A → Option B)
    → o ≢ none
    → ((a : A) → f a ≢ none)
    → (o >>= f) ≢ none
bind_ne_none none f ne next = absurd (ne refl)
bind_ne_none (some a) f ne next = next a

pub if_ne_none {ℓ} :
    {A : Type ℓ} (b : Bool) (x y : Option A) → x ≢ none → y ≢ none → (if b then x else y) ≢ none
if_ne_none true x y ne_x ne_y = ne_x
if_ne_none false x y ne_x ne_y = ne_y

pub some_ne_none {ℓ} : {A : Type ℓ} {a : A} → some a ≢ none
some_ne_none h = cc

-- A sequence whose result is there has both of its steps.
pub bind-some {ℓ ℓ'} :
    {A : Type ℓ} {B : Type ℓ'} (o : Option A) (f : A → Option B) {b : B}
    → (o >>= f) ≡ some b
    → (a : A) × (o ≡ some a) × (f a ≡ some b)
bind-some none f h = absurd (some_ne_none (sym h))
bind-some (some a) f h = (a, refl, h)

-- What holds of both branches holds of the conditional.
pub if_both {ℓ ℓ'} :
    {A : Type ℓ} (P : A → Type ℓ') (b : Bool) (x y : A) → P x → P y → P (if b then x else y)
if_both P true x y px py = px
if_both P false x y px py = py

-- An equation of a conditional is one of its branches', with the test decided.
pub if_split {ℓ ℓ'} :
    {A : Type ℓ} {z : A} {Q : Type ℓ'} (b : Bool) (x y : A)
    → (b ≡ true → x ≡ z → Q)
    → (b ≡ false → y ≡ z → Q)
    → (if b then x else y) ≡ z
    → Q
if_split true x y on_true on_false h = on_true refl h
if_split false x y on_true on_false h = on_false refl h

-- A sequence or a conditional is there if each step is that is taken.
pub bind_total {ℓ ℓ'} :
    {A : Type ℓ} {B : Type ℓ'} (o : Option A) (f : A → Option B)
    → o ≢ none
    → ((a : A) → o ≡ some a → f a ≢ none)
    → (o >>= f) ≢ none
bind_total none f ne next = absurd (ne refl)
bind_total (some a) f ne next = next a refl

pub if_total {ℓ} :
    {A : Type ℓ} (b : Bool) (x y : Option A)
    → (b ≡ true → x ≢ none)
    → (b ≡ false → y ≢ none)
    → (if b then x else y) ≢ none
if_total true x y on_true on_false = on_true refl
if_total false x y on_true on_false = on_false refl

-- What holds of a branch when its test is decided holds of the conditional.
pub if_cases {ℓ ℓ'} :
    {A : Type ℓ} (b : Bool) (P : A → Type ℓ') (x y : A)
    → (b ≡ true → P x)
    → (b ≡ false → P y)
    → P (if b then x else y)
if_cases true P x y on_true on_false = on_true refl
if_cases false P x y on_true on_false = on_false refl
