-- ===== src/Types/Transaction.antt =====
-- `Blockchain::transaction` of src/kernel/blockchaintypes.cpp: its identifier and its `checkRep`. The
-- sets of inputs and outputs are lists without repetition, in increasing order of the identifiers.
pub mod Valid
use crypto_kernel.Prelude.{
  ℕ, ◌+◌, ◌*◌, ◌%◌, ◌^◌, Bool, true, false, not, ◌&&◌, Option, none, some, List, [], ◌∷◌, ◌++◌, map,
  length, ltb, ◌==◌, if◌then◌else◌,
}
use crypto_kernel.BigNum.{Text}
use crypto_kernel.BigNum
use crypto_kernel.Decimal.{to_decimal}
use crypto_kernel.Env.{Env}
use crypto_kernel.Json.{to_string as json_to_string}
use crypto_kernel.Merkle.{get_merkle_root}
use crypto_kernel.Merkle.Build.{make_merkle_tree}
use crypto_kernel.OrderedSet.{insert_ids, elements}
use crypto_kernel.Outcome.{
  Outcome, ok, invalid, undefined, ◌>>=◌, ◌>>◌, throw_if, transaction_too_large,
  transaction_without_outputs, coinbase_with_inputs, transaction_without_inputs, total_overflows,
  output_ids_not_unique,
}
use crypto_kernel.Types.{Output, Input, hash_id, input_to_json, output_to_json}

abbrev pub u64 : ℕ
u64 = 2 ^ 64

abbrev pub u32 : ℕ
u32 = 2 ^ 32

abbrev pub timestamp_name : Text
timestamp_name = b't' ∷ b'i' ∷ b'm' ∷ b'e' ∷ b's' ∷ b't' ∷ b'a' ∷ b'm' ∷ b'p' ∷ []

abbrev pub inputs_name : Text
inputs_name = b'i' ∷ b'n' ∷ b'p' ∷ b'u' ∷ b't' ∷ b's' ∷ []

abbrev pub outputs_name : Text
outputs_name = b'o' ∷ b'u' ∷ b't' ∷ b'p' ∷ b'u' ∷ b't' ∷ b's' ∷ []

-- The loop over the outputs' values: it throws where the running total falls.
pub total_fits : ℕ → ℕ → List ℕ → Bool
total_fits cur_total prev_total [] = true
total_fits cur_total prev_total (value ∷ values) =
    let next = (cur_total + value) % u64 in not (ltb next prev_total) && total_fits next next values

-- `makeMerkleTree(set)->getMerkleRoot()`, of the elements of a set in order; `nodes[0]` of no nodes
-- is undefined.
unfoldable pub root_of_set : Env → List ℕ → Outcome ℕ
root_of_set env ids = elim (make_merkle_tree env.hashing ids) [
  | none ↦ undefined
  | some tree ↦ ok (get_merkle_root tree)
]

-- The same of identifiers that a loop inserts into a set.
unfoldable pub root_of_ids : Env → List ℕ → Outcome ℕ
unfolding root_of_set
root_of_ids env ids = root_of_set env (elements (insert_ids ids []))

module _ (env : Env) where
  open env use {hashing, json}
  open env.json use {Json, null, member, set_member, of_uint, append}

  pub record Transaction : Type 0 where
    pub inputs : List (Input env)
    pub outputs : List (Output env)
    pub timestamp : ℕ
    pub bytes : ℕ
    pub id : ℕ

  -- `returning[name].append(value)`, for each value
  append_all : Text → List Json → Json → Json
  append_all name [] json = json
  append_all name (value ∷ values) json =
      append_all name values (set_member json name (append (member json name) value))

  -- `transaction::toJson`
  pub transaction_to_json : List (Input env) → List (Output env) → ℕ → Json
  unfolding append_all
  transaction_to_json inputs outputs timestamp =
      append_all outputs_name (map (output_to_json env) outputs) (
        append_all inputs_name (map (input_to_json env) inputs)
          (set_member null timestamp_name (of_uint timestamp)))

  -- `toString(toJson()).size()`, kept in an `unsigned int`
  pub size_of : List (Input env) → List (Output env) → ℕ → ℕ
  unfolding transaction_to_json
  size_of inputs outputs timestamp =
      length (json_to_string json (transaction_to_json inputs outputs timestamp) false) % u32

  -- The identifiers that `checkRep` collects: of the outputs spent, then of the outputs made.
  abbrev pub touched : List (Input env) → List (Output env) → List ℕ
  touched inputs outputs = map (λ i. i.output_id) inputs ++ map (λ o. o.id) outputs

  -- `transaction::checkRep`
  unfoldable pub check_transaction :
      List (Input env) → List (Output env) → ℕ → Bool → Outcome (Unit {0})
  unfolding total_fits
  check_transaction inputs outputs bytes coinbase = do
    throw_if (ltb (100 * 1024) bytes) transaction_too_large
    throw_if (ltb (length outputs) 1) transaction_without_outputs
    throw_if (coinbase && ltb 0 (length inputs)) coinbase_with_inputs
    throw_if (not coinbase && ltb (length inputs) 1) transaction_without_inputs
    throw_if (not (total_fits 0 0 (map (λ o. o.value) outputs))) total_overflows
    throw_if
        (not (length (insert_ids (touched inputs outputs) []) == length outputs + length inputs))
        output_ids_not_unique

  -- `getOutputSetId`
  unfoldable pub get_output_set_id : List (Output env) → Outcome ℕ
  unfolding root_of_ids
  get_output_set_id outputs = root_of_ids env (map (λ o. o.id) outputs)

  -- The inputs' part of the buffer of `calculateId`.
  unfoldable pub inputs_buffer : List (Input env) → Outcome Text
  unfolding root_of_ids
  inputs_buffer [] = ok []
  inputs_buffer (i ∷ inputs) = do
    root ← root_of_ids env (map (λ j. j.id) (i ∷ inputs))
    ok (BigNum.to_string hashing root)

  -- `transaction::calculateId`
  unfoldable pub calculate_transaction_id : List (Input env) → List (Output env) → ℕ → Outcome ℕ
  unfolding inputs_buffer get_output_set_id
  calculate_transaction_id inputs outputs timestamp = do
    head ← inputs_buffer inputs
    set_id ← get_output_set_id outputs
    ok (hash_id env (head ++ (BigNum.to_string hashing set_id ++ to_decimal timestamp)))

  -- `transaction(inputs, outputs, timestamp, coinbaseTx)`
  unfoldable pub new_transaction :
      List (Input env) → List (Output env) → ℕ → Bool → Outcome Transaction
  unfolding size_of check_transaction calculate_transaction_id
  new_transaction inputs outputs timestamp coinbase = do
    check_transaction inputs outputs (size_of inputs outputs timestamp) coinbase
    id ← calculate_transaction_id inputs outputs timestamp
    ok (record {
      inputs = inputs;
      outputs = outputs;
      timestamp = timestamp;
      bytes = size_of inputs outputs timestamp;
      id = id;
    })
