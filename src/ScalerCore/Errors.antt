-- ===== src/ScalerCore/Errors.antt =====
-- Go's errors: a new message, or another error wrapped with one (github.com/pkg/errors).
use general_pod_autoscaler.Common.{String, ◌≡◌, ◌≢◌, refl}

pub data GoError : Type 0 where
  message : String → GoError
  wrap : GoError → String → GoError

-- A value and an error, of which one is there.
pub data Result (A : Type 0) : Type 0 where
  ok : A → Result A
  err : GoError → Result A

-- `Result` in sequence; the error is given a new one.
abbrev pub then_do : {A B : Type 0} → Result A → (GoError → GoError) → (A → Result B) → Result B
then_do (ok a) context f = f a
then_do (err e) context f = err (context e)

abbrev pub unchanged : GoError → GoError
unchanged e = e

pub err_ne_ok : {A : Type 0} {a : A} {e : GoError} → err e ≢ ok a
err_ne_ok h = cc

pub ok_inj : {A : Type 0} {a b : A} → ok a ≡ ok b → a ≡ b
ok_inj h = cc

-- A sequence that is successful has both of its steps.
pub then_do-ok :
    {A B : Type 0} (r : Result A) (context : GoError → GoError) (f : A → Result B) {b : B}
    → then_do r context f ≡ ok b
    → (a : A) × (r ≡ ok a) × (f a ≡ ok b)
then_do-ok (ok a) context f h = (a, refl, h)
then_do-ok (err e) context f h = absurd (err_ne_ok h)
