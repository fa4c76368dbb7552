-- ===== src/Outcome.antt =====
-- How a call ends: with a value, with an `InvalidElementException` or `NotFoundException` of
-- src/kernel/blockchain.h, with another exception that nothing caught, or in behaviour that C++
-- leaves undefined.
pub mod Ends
use crypto_kernel.Prelude.{◌≡◌, refl, arith, Option, none, some, Bool, true, false}

-- The messages, one constructor for each.
pub data Invalid : Type 0 where
  value_below_one public_key_invalid output_malformed : Invalid
  input_malformed : Invalid
  transaction_too_large transaction_without_outputs coinbase_with_inputs : Invalid
  transaction_without_inputs total_overflows output_ids_not_unique transaction_malformed : Invalid
  block_too_large data_too_large data_malformed outputs_not_unique : Invalid
  coinbase_outputs_not_unique inputs_not_unique root_incorrect block_malformed : Invalid
  proof_without_position proof_without_leaves proof_leaves_empty proof_malformed : Invalid
  consensus_malformed : Invalid

pub data Outcome (A : Type 0) : Type 0 where
  ok : A → Outcome A
  invalid : Invalid → Outcome A
  not_found : Outcome A
  uncaught : Outcome A
  undefined : Outcome A
  -- The model's fuel did not suffice.
  out_of_fuel : Outcome A

-- The statements after a call run only if it returned a value.
infixl 5 ◌>>◌
infixl 5 ◌>>=◌
abbrev pub ◌>>=◌ : {A B : Type 0} (call : Outcome A) (rest : A → Outcome B) → Outcome B
undefined >>= rest = undefined
out_of_fuel >>= rest = out_of_fuel
uncaught >>= rest = uncaught
not_found >>= rest = not_found
invalid message >>= rest = invalid message
ok value >>= rest = rest value

abbrev pub ◌>>◌ : {B : Type 0} (call : Outcome (Unit {0})) (rest : Outcome B) → Outcome B
call >> rest = call >>= (λ done. rest)

-- `if(test) throw InvalidElementException(e)`
abbrev pub throw_if : Bool → Invalid → Outcome (Unit {0})
throw_if false message = ok tt
throw_if true message = invalid message

-- `value.as…()`, which throws where the value has no such form
abbrev pub or_throws : {A : Type 0} → Option A → Outcome A
or_throws none = uncaught
or_throws (some a) = ok a

-- A call whose rest returned `result` has returned a value to it.
pub returned :
    {A B : Type 0} {result : B} (call : Outcome A) (rest : A → Outcome B)
    → (call >>= rest) ≡ ok result
    → (value : A) × (rest value ≡ ok result) × (call ≡ ok value)
returned undefined rest h = absurd (ground arith)
returned out_of_fuel rest h = absurd (ground arith)
returned uncaught rest h = absurd (ground arith)
returned not_found rest h = absurd (ground arith)
returned (invalid message) rest h = absurd (ground arith)
returned (ok value) rest h = (value, h, refl)

pub ok-injective : {A : Type 0} {a b : A} → ok a ≡ ok b → a ≡ b
ok-injective e = cc

pub or_throws-some : {A : Type 0} {a : A} (o : Option A) → or_throws o ≡ ok a → o ≡ some a
or_throws-some none e = absurd (ground arith)
or_throws-some (some b) e = ground arith
