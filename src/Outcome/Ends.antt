-- ===== src/Outcome/Ends.antt =====
-- Calls that do not end because the fuel of the model is used up.
use crypto_kernel.Prelude.{◌≡◌, ◌≢◌, refl, Bool, true, false, Option, none, some, arith}
use crypto_kernel.Outcome.{
  Outcome, Invalid, ok, invalid, not_found, uncaught, undefined, out_of_fuel, ◌>>=◌, throw_if,
  or_throws,
}

-- The call ends as the code does: with a value, an exception, or in undefined behaviour.
abbrev pub Ends : {A : Type 0} → Outcome A → Type 0
Ends o = o ≢ out_of_fuel

pub Ends-then :
    {A B : Type 0} (call : Outcome A) (rest : A → Outcome B)
    → Ends call
    → ((a : A) → call ≡ ok a → Ends (rest a))
    → Ends (call >>= rest)
Ends-then (ok a) rest ends next = next a refl
Ends-then (invalid message) rest ends next = λ e. absurd (ground arith)
Ends-then not_found rest ends next = λ e. absurd (ground arith)
Ends-then uncaught rest ends next = λ e. absurd (ground arith)
Ends-then undefined rest ends next = λ e. absurd (ground arith)
Ends-then out_of_fuel rest ends next = absurd (ends refl)

pub Ends-ok : {A : Type 0} (a : A) → Ends (ok a)
Ends-ok a e = absurd (ground arith)

pub Ends-throw_if : (test : Bool) (message : Invalid) → Ends (throw_if test message)
Ends-throw_if true message e = absurd (ground arith)
Ends-throw_if false message e = absurd (ground arith)

pub Ends-or_throws : {A : Type 0} (o : Option A) → Ends (or_throws o)
Ends-or_throws none e = absurd (ground arith)
Ends-or_throws (some a) e = absurd (ground arith)
