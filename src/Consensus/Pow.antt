-- ===== src/Consensus/Pow.antt =====
-- src/kernel/consensus/PoW.cpp: proof of work. The proof-of-work function and the target of a block,
-- which are virtual functions of the class, are arguments.
pub mod Retarget
pub mod Form
pub mod Work
pub mod Miner
pub mod Growth
use crypto_kernel.Prelude.{
  ℕ, zero, suc, ◌≡◌, Bool, true, false, Option, none, some, List, [], ◌∷◌, ◌++◌, if◌then◌else◌,
}
use crypto_kernel.Prelude.Int.{ℤ, pos}
use crypto_kernel.BigNum.{Text}
use crypto_kernel.BigNum
use crypto_kernel.BigNum.Arithmetic.{
  BnLib, of_hex_string, signed_to_string, plus, minus, is_at_most, is_greater,
}
use crypto_kernel.Chain.{Tables, Rules}
use crypto_kernel.Decimal.{to_decimal}
use crypto_kernel.Env.{Env}
use crypto_kernel.Json.{try_member}
use crypto_kernel.Outcome.{
  Outcome, ok, invalid, not_found, uncaught, undefined, out_of_fuel, ◌>>=◌, consensus_malformed,
}
use crypto_kernel.Types.Block.{Block}
use crypto_kernel.Types.Stored.{DbBlock}

abbrev pub target_name : Text
target_name = b't' ∷ b'a' ∷ b'r' ∷ b'g' ∷ b'e' ∷ b't' ∷ []

abbrev pub total_work_name : Text
total_work_name = b't' ∷ b'o' ∷ b't' ∷ b'a' ∷ b'l' ∷ b'W' ∷ b'o' ∷ b'r' ∷ b'k' ∷ []

abbrev pub nonce_name : Text
nonce_name = b'n' ∷ b'o' ∷ b'n' ∷ b'c' ∷ b'e' ∷ []

-- A text of `n` digits "f", for the constants of the source
abbrev pub digits_f : ℕ → Text
digits_f zero = []
digits_f (suc n) = b'f' ∷ digits_f n

module _ (env : Env) (bn : BnLib) where
  open env use {hashing, json}
  open env.json use {Json, null, set_member, of_uint, of_text, as_text, as_uint}

  -- `consensusData`
  pub record ConsensusData : Type 0 where
    pub total_work : ℤ
    pub target : ℤ
    pub nonce : ℕ

  -- The three conversions; `none` for a `Json::Exception`
  unfoldable pub read_text : Json → Text → Option Text
  read_text j name = elim (try_member json j name) [ none ↦ none | some value ↦ as_text value ]

  pub read_uint : Json → Text → Option ℕ
  read_uint j name = elim (try_member json j name) [ none ↦ none | some value ↦ as_uint value ]

  -- `getConsensusData`, of a block's or a stored block's consensus data
  unfoldable pub get_consensus_data : Json → Outcome ConsensusData
  unfolding read_text read_uint
  get_consensus_data j = elim (read_text j target_name) [
    | none ↦ invalid consensus_malformed
    | some target ↦ elim (read_text j total_work_name) [
      | none ↦ invalid consensus_malformed
      | some work ↦ elim (read_uint j nonce_name) [
        | none ↦ invalid consensus_malformed
        | some nonce ↦ ok (record {
          total_work = of_hex_string bn work;
          target = of_hex_string bn target;
          nonce = nonce;
        })
      ]
    ]
  ]

  -- `consensusDataToJson`
  unfoldable pub consensus_data_to_json : ConsensusData → Json
  consensus_data_to_json d =
      let j0 = set_member null target_name (of_text (signed_to_string bn d.target)) in
      let j1 = set_member j0 total_work_name (of_text (signed_to_string bn d.total_work)) in
      set_member j1 nonce_name (of_uint d.nonce)

  -- `block::setConsensusData`
  pub set_consensus_data : Block env → Json → Block env
  set_consensus_data block j = record block { fields = record block.fields { consensus_data = j } }

  -- `inverse`: what a target adds to the total work
  pub inverse : ℤ → ℤ
  inverse target = minus bn (of_hex_string bn (digits_f 64)) target

  -- `isBlockBetter`
  unfoldable pub is_block_better : Block env → DbBlock env → Outcome Bool
  is_block_better block tip = do
    block_data ← get_consensus_data block.fields.consensus_data
    tip_data ← get_consensus_data tip.consensus_data
    ok (is_greater bn block_data.total_work tip_data.total_work)

  -- `catch(const InvalidElementException& e) { return false; }`
  abbrev pub false_if_invalid : Outcome (Option (Block env)) → Outcome (Option (Block env))
  false_if_invalid (ok answer) = ok answer
  false_if_invalid (invalid message) = ok none
  false_if_invalid not_found = not_found
  false_if_invalid uncaught = uncaught
  false_if_invalid undefined = undefined
  false_if_invalid out_of_fuel = out_of_fuel

  module _ (pow_function : Text → ℤ) (calculate_target : Tables env → ℕ → Outcome ℤ) where
    -- `calculatePoW`
    unfoldable pub calculate_pow : Block env → ℕ → ℤ
    calculate_pow block nonce = pow_function (BigNum.to_string hashing block.id ++ to_decimal nonce)

    -- The `try` of `checkConsensusRules`
    pub check_work : Tables env → Block env → DbBlock env → Outcome (Option (Block env))
    unfolding calculate_pow inverse set_consensus_data
    check_work t block previous = get_consensus_data block.fields.consensus_data >>= λ block_data.
        calculate_target t block.fields.previous_block_id >>= λ target.
        if is_at_most bn target (calculate_pow block block_data.nonce)
        then ok none
        else (get_consensus_data previous.consensus_data >>= λ tip_data. ok (
            some (
              set_consensus_data block (
                consensus_data_to_json (record {
                  total_work = plus bn (inverse target) tip_data.total_work;
                  target = target;
                  nonce = block_data.nonce;
                })))))

    -- `checkConsensusRules`; `none` for false
    unfoldable pub check_consensus_rules :
        Tables env → Block env → DbBlock env → Outcome (Option (Block env))
    unfolding check_work
    check_consensus_rules t block previous = false_if_invalid (check_work t block previous)

    -- `generateConsensusData`, which leaves the nonce as its memory was: the last argument
    unfoldable pub generate_consensus_data : Tables env → ℕ → ℕ → Outcome Json
    generate_consensus_data t previous_block_id unset_nonce =
        calculate_target t previous_block_id >>= λ target. ok (
          consensus_data_to_json
            (record { total_work = pos 0; target = target; nonce = unset_nonce }))
