-- ===== src/Consensus/Regtest.antt =====
-- src/kernel/consensus/regtest.cpp: a consensus method for tests, whose blocks say themselves whether they are
-- better than the tip.
use crypto_kernel.Prelude.{◌≡◌, Bool, true, arith, none, some, [], ◌∷◌}
use crypto_kernel.BigNum.{Text}
use crypto_kernel.Chain.{Rules}
use crypto_kernel.Env.{Env}
use crypto_kernel.Json.{HasMembers, try_member}
use crypto_kernel.Json.Objects.{null-IsContainer, try_member-set_same}
use crypto_kernel.Outcome.{Outcome, ok, invalid, consensus_malformed}
use crypto_kernel.Consensus.Pow.Growth.{Setting}

abbrev pub is_better_name : Text
is_better_name = b'i' ∷ b's' ∷ b'B' ∷ b'e' ∷ b't' ∷ b't' ∷ b'e' ∷ b'r' ∷ []

module _ (env : Env) where
  open env.json use {Json, null, set_member, of_bool, as_bool}

  -- `getConsensusData`: the member `isBetter`
  pub get_is_better : Json → Outcome Bool
  get_is_better j = elim (try_member env.json j is_better_name) [
    | none ↦ invalid consensus_malformed
    | some value ↦ elim (as_bool value) [
      | none ↦ invalid consensus_malformed
      | some better ↦ ok better
    ]
  ]

  -- `consensusDataToJson`
  pub is_better_to_json : Bool → Json
  is_better_to_json better = set_member null is_better_name (of_bool better)

  -- The methods that the chain calls
  unfoldable pub regtest_rules : Setting env → Rules env
  regtest_rules setting = record {
    check_consensus_rules = λ t block previous. ok (some block);
    is_block_better = λ t block tip. get_is_better block.fields.consensus_data;
    submits_block = λ t block. true;
    verifies_transaction = λ t tx. true;
    submits_transaction = λ t tx. true;
    evaluate_script = setting.evaluate_script;
    block_reward = setting.block_reward;
  }

  -- What a block says is read back.
  get_is_better-is_better_to_json :
      HasMembers env.json → (better : Bool) → get_is_better (is_better_to_json better) ≡ ok better
  unfolding get_is_better is_better_to_json
  get_is_better-is_better_to_json members better = ground (
    arith,
    try_member-set_same env.json members null (of_bool better) is_better_name
        (null-IsContainer env.json members),
    members.bool_of_bool better,
  )
