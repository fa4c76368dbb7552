-- ===== src/Consensus/Avrr/Tests.antt =====
-- A block of the second of two verifiers, with concrete parameters.
use crypto_kernel.Prelude.{ℕ, ◌≡◌, refl, true, List, [], ◌∷◌}
use crypto_kernel.BigNum.{Text}
use crypto_kernel.KeyMap.{text_eq}
use crypto_kernel.Json.{try_member}
use crypto_kernel.Outcome.{ok}
use crypto_kernel.Sample.{sample_env as env, nothing}
use crypto_kernel.Types.Block.{Block}
use crypto_kernel.Consensus.Avrr.{
  text_member, uint_member, get_consensus_data, consensus_data_to_json, get_verifier, slot_of,
  check_verifier, check_consensus_rules,
}
use crypto_kernel.Consensus.Avrr.Slots.{IsScheduled, check_consensus_rules-IsScheduled}

abbrev verifiers : List Text
verifiers = (b'a' ∷ []) ∷ (b'b' ∷ []) ∷ []

abbrev made_at : ℕ → ℕ → Text → ℕ → Block env
made_at timestamp number key id = record {
  fields = record {
    transactions = [];
    coinbase_tx = record { inputs = []; outputs = []; timestamp = 0; bytes = 0; id = 41 };
    previous_block_id = 0;
    timestamp = timestamp;
    consensus_data =
        consensus_data_to_json env
          (record { sequence_number = number; signature = key; public_key = key });
    content = nothing;
    height = 1;
    transaction_merkle_root = 0;
  };
  id = id;
}

abbrev first : Block env
first = made_at 600 6 (b'a' ∷ []) 70

abbrev second : Block env
second = made_at 715 7 (b'b' ∷ []) 71

accepts : check_consensus_rules env verifiers 100 720 second first ≡ ok true
unfolding check_consensus_rules check_verifier slot_of get_verifier get_consensus_data text_member
    uint_member consensus_data_to_json try_member text_eq
accepts = refl

check_consensus_rules-IsScheduled_example : IsScheduled env verifiers 100 720 second first
check_consensus_rules-IsScheduled_example =
    check_consensus_rules-IsScheduled env verifiers 100 720 second first accepts
