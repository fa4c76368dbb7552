-- ===== src/Chain/Verify/Signed.antt =====
-- What signatures `verifyTransaction` of src/kernel/blockchain.cpp has checked when it accepts.
use crypto_kernel.Prelude.{
  ℕ, ◌≡◌, ◌≢◌, ◌⊎◌, refl, Bool, true, false, some, List, [], ◌∷◌, All, arith, Option-cases, inl,
  inr,
}
use crypto_kernel.BigNum.{Text}
use crypto_kernel.Env.{Env}
use crypto_kernel.OrderedMap.{Map, lookup}
use crypto_kernel.Outcome.{ok, returned}
use crypto_kernel.Types.{Input, public_key_name}
use crypto_kernel.Types.Stored.{DbOutput}
use crypto_kernel.Types.Transaction.{Transaction, get_output_set_id}
use crypto_kernel.Chain.{Tables, Rules}
use crypto_kernel.Chain.Spend.{
  Flow, go_on, leave, refuse, locked_by, message, signature_name, merkle_root_name, check_schnorr,
  check_merkle_root, check_key,
}
use crypto_kernel.Chain.Verify.{
  Round, check_locks, check_spend, check_input, check_inputs, after_inputs, check_new,
  verify_transaction,
}

Flow-cases : (f : Flow) → (f ≡ go_on) ⊎ (f ≢ go_on)
Flow-cases go_on = inl refl
Flow-cases leave = inr (λ e. absurd (ground arith))
Flow-cases (refuse ban) = inr (λ e. absurd (ground arith))

module _ (env : Env) (rules : Rules env) (tables : Tables env) (tx : Transaction env) where
  open env.signing use {verify}
  open env.json use {Json, member, as_text}

  -- The input has a signature of the output's identifier and `output_hash` under the output's key.
  pub record IsSigned (inp : Input env) (out : DbOutput env) (output_hash : ℕ) : Type 0 where
    pub key : Text
    pub signature : Text
    pub is_key : as_text (member out.output.content public_key_name) ≡ some key
    pub is_signature : as_text (member inp.content signature_name) ≡ some signature
    pub verifies : verify key (message env out output_hash) signature ≡ true

  -- The input spends an unspent output, and is signed if that has a public key and no contract.
  abbrev pub IsAuthorised : ℕ → Input env → Type 0
  IsAuthorised output_hash inp =
      (out : DbOutput env) × (lookup inp.output_id tables.utxos ≡ some out)
      × (locked_by env public_key_name out ≡ true → IsSigned inp out output_hash)

  -- What the input spends is no pay-to-merkleroot output.
  abbrev pub IsPlain : Input env → Type 0
  IsPlain inp =
      (out : DbOutput env)
      → lookup inp.output_id tables.utxos ≡ some out
      → locked_by env merkle_root_name out ≡ false

  check_schnorr-stays :
      (inp : Input env) (out : DbOutput env) (output_hash : ℕ) (maybe : Map (DbOutput env))
      (r : Flow × Map (DbOutput env))
      → check_schnorr env rules tables tx inp out output_hash maybe ≡ ok r
      → r.0 ≢ leave
  unfolding check_schnorr
  check_schnorr-stays inp out output_hash maybe r e = ground arith

  check_key-IsSigned :
      (inp : Input env) (out : DbOutput env) (output_hash : ℕ)
      → check_key env rules tables tx inp out output_hash ≡ ok go_on
      → locked_by env public_key_name out ≡ true
      → IsSigned inp out output_hash
  unfolding check_key
  check_key-IsSigned inp out output_hash e locked =
      elim (Option-cases (as_text (member out.output.content public_key_name))) [
        | inl no_key ↦ absurd (ground arith)
        | inr (key, is_key) ↦ elim (Option-cases (as_text (member inp.content signature_name))) [
          | inl no_signature ↦ absurd (ground arith)
          | inr (signature, is_signature) ↦ record {
            key = key;
            signature = signature;
            is_key = is_key;
            is_signature = is_signature;
            verifies = ground arith;
          }
        ]
      ]

  check_key-stays :
      (inp : Input env) (out : DbOutput env) (output_hash : ℕ)
      → check_key env rules tables tx inp out output_hash ≢ ok leave
  unfolding check_key
  check_key-stays inp out output_hash e = ground arith

  plain_root :
      (inp : Input env) (out : DbOutput env) (output_hash : ℕ)
      → locked_by env merkle_root_name out ≡ false
      → check_merkle_root env rules tables tx inp out output_hash ≡ ok go_on
  unfolding check_merkle_root
  plain_root inp out output_hash free = ground arith

  -- After the checks of an input that spends no pay-to-merkleroot output, the loop goes on only with
  -- an authorised input, and it is not left.
  check_spend-IsSigned :
      (inp : Input env) (out : DbOutput env) (output_hash total : ℕ) (maybe : Map (DbOutput env))
      (r : Round env rules tables tx)
      → locked_by env merkle_root_name out ≡ false
      → check_spend env rules tables tx inp out output_hash total maybe ≡ ok r
      → (r.flow ≢ leave)
        × (r.flow ≡ go_on → locked_by env public_key_name out ≡ true → IsSigned inp out output_hash)
  unfolding check_spend check_locks
  check_spend-IsSigned inp out output_hash total maybe r free e =
      let (first, rest, checked) =
        returned {result = r} (check_schnorr env rules tables tx inp out output_hash maybe) _ e in
      let root = plain_root inp out output_hash free in
      let stays = check_schnorr-stays inp out output_hash maybe first checked in
      let key_stays = check_key-stays inp out output_hash in
      (ground arith, λ on locked. check_key-IsSigned inp out output_hash (ground arith) locked)

  check_input-IsAuthorised :
      (inp : Input env) (output_hash total : ℕ) (maybe : Map (DbOutput env))
      (r : Round env rules tables tx)
      → IsPlain inp
      → check_input env rules tables tx inp output_hash total maybe ≡ ok r
      → (r.flow ≢ leave) × (r.flow ≡ go_on → IsAuthorised output_hash inp)
  unfolding check_input
  check_input-IsAuthorised inp output_hash total maybe r plain e =
      elim (Option-cases (lookup inp.output_id tables.utxos)) [
        | inl missing ↦ (ground arith, λ on. absurd (ground arith))
        | inr (out, found) ↦
            let (stays, signed) =
              check_spend-IsSigned inp out output_hash total maybe r (plain out found)
                (ground arith) in
            (stays, λ on. (out, found, signed on))
      ]

  check_inputs-IsAuthorised :
      (inps : List (Input env)) (output_hash total : ℕ) (maybe : Map (DbOutput env))
      (r : Round env rules tables tx)
      → All IsPlain inps
      → check_inputs env rules tables tx inps output_hash total maybe ≡ ok r
      → (r.flow ≢ leave) × (r.flow ≡ go_on → All (IsAuthorised output_hash) inps)
  unfolding check_inputs
  check_inputs-IsAuthorised [] output_hash total maybe r plain e = (ground arith, λ on. tt)
  check_inputs-IsAuthorised (inp ∷ inps) output_hash total maybe r (p, ps) e =
      let (q, rest, first) =
        returned {result = r} (check_input env rules tables tx inp output_hash total maybe) _ e in
      let (stays, one) = check_input-IsAuthorised inp output_hash total maybe q p first in
      elim (Flow-cases q.flow) [
        | inl on ↦
            let (stays', more) =
              check_inputs-IsAuthorised inps output_hash q.total q.maybe r ps (ground arith) in
            (stays', λ on'. (one on, more on'))
        | inr off ↦ (ground arith, λ on'. absurd (ground arith))
      ]

  after_inputs-goes_on :
      (coinbase ban : Bool) (output_hash : ℕ) (r : Round env rules tables tx)
      → r.flow ≢ leave
      → after_inputs env rules tables tx coinbase output_hash r ≡ ok (true, ban)
      → r.flow ≡ go_on
  unfolding after_inputs
  after_inputs-goes_on coinbase ban output_hash r stays e = ground arith

  check_new-IsAuthorised :
      (coinbase ban : Bool)
      → All IsPlain tx.inputs
      → check_new env rules tables tx coinbase ≡ ok (true, ban)
      → (output_hash : ℕ) × (get_output_set_id env tx.outputs ≡ ok output_hash)
        × All (IsAuthorised output_hash) tx.inputs
  unfolding check_new
  check_new-IsAuthorised coinbase ban plain e =
      let (output_hash, rest, hashed) =
        returned {result = (true, ban)} (get_output_set_id env tx.outputs) _ e in
      let (r, last, looped) =
        returned {result = (true, ban)}
          (check_inputs env rules tables tx tx.inputs output_hash 0 []) _ rest in
      let (stays, all) = check_inputs-IsAuthorised tx.inputs output_hash 0 [] r plain looped in
      (output_hash, hashed, all (after_inputs-goes_on coinbase ban output_hash r stays last))

  -- In a transaction that `verifyTransaction` accepts, and of which no input spends a
  -- pay-to-merkleroot output, every input spends an unspent output, and for every output with a public
  -- key and no contract the input has a valid signature, under that key, of the output's identifier and
  -- the hash of all outputs that the transaction makes.
  pub verify_transaction-IsAuthorised :
      (coinbase ban : Bool)
      → All IsPlain tx.inputs
      → verify_transaction env rules tables tx coinbase ≡ ok (true, ban)
      → (output_hash : ℕ) × (get_output_set_id env tx.outputs ≡ ok output_hash)
        × All (IsAuthorised output_hash) tx.inputs
  unfolding verify_transaction
  verify_transaction-IsAuthorised coinbase ban plain e =
      check_new-IsAuthorised coinbase ban plain (ground arith)
