-- ===== src/Chain/Spend/Malformed.antt =====
-- A malformed Merkle proof in the data of an input, for `verifyTransaction` of
-- src/kernel/blockchain.cpp.
use crypto_kernel.Prelude.{ℕ, ◌≡◌, true, false, ◌&&◌, some, [], arith}
use crypto_kernel.BigNum.{Text}
use crypto_kernel.Env.{Env}
use crypto_kernel.KeyMap.{text_eq}
use crypto_kernel.Merkle.Proof.Form.{position_name, leaves_name, proof_from_json}
use crypto_kernel.Outcome.{ok, uncaught}
use crypto_kernel.Types.{Input}
use crypto_kernel.Types.Stored.{DbOutput}
use crypto_kernel.Types.Transaction.{Transaction}
use crypto_kernel.Chain.{Tables, Rules}
use crypto_kernel.Chain.Spend.{
  locked_by, unsigned, has_members, merkle_root_name, spend_type_name, key_or_script_name,
  merkle_proof_name, pubkey_word, check_merkle_root, load_and_check_proof, check_proof,
}

module _ (env : Env) where
  open env.json use {Json, member, is_null, is_text, is_object, empty, as_text, as_int, items}

  -- The input's data asks for a pay-to-merkleroot spend, with a signature if that is by public key, and
  -- with a proof whose leaves are a value that is neither null nor a container: JsonCpp does not call it
  -- empty, and a loop over it visits nothing.
  pub record HasHollowProof (inp : Input env) : Type 0 where
    pub members : has_members env inp ≡ true
    pub spend_type : is_text (member inp.content spend_type_name) ≡ true
    pub spend_type_text : Text
    pub is_spend_type : as_text (member inp.content spend_type_name) ≡ some spend_type_text
    pub signed : (text_eq spend_type_text pubkey_word && unsigned env inp) ≡ false
    pub script : is_text (member inp.content key_or_script_name) ≡ true
    pub script_text : Text
    pub is_script_text : as_text (member inp.content key_or_script_name) ≡ some script_text
    pub proof : is_object (member inp.content merkle_proof_name) ≡ true
    pub has_position : is_null (member (member inp.content merkle_proof_name) position_name) ≡ false
    pub position : ℕ
    pub is_position :
        as_int (member (member inp.content merkle_proof_name) position_name) ≡ some position
    pub has_leaves : is_null (member (member inp.content merkle_proof_name) leaves_name) ≡ false
    pub leaves_filled : empty (member (member inp.content merkle_proof_name) leaves_name) ≡ false
    pub no_leaf : items (member (member inp.content merkle_proof_name) leaves_name) ≡ []

  hollow_proof :
      (inp : Input env) (h : HasHollowProof inp)
      → proof_from_json env.hashing env.json (member inp.content merkle_proof_name)
        ≡ ok (record { leaves = []; position_in_total_set = h.position })
  unfolding proof_from_json
  hollow_proof inp h =
      ground (arith, h.has_position, h.is_position, h.has_leaves, h.leaves_filled, h.no_leaf)

  -- The proof passes the tests of its constructor, and `leaves.at(0)` then throws.
  pub check_merkle_root-uncaught :
      (rules : Rules env) (tables : Tables env) (tx : Transaction env) (inp : Input env)
      (out : DbOutput env) (output_hash : ℕ)
      → locked_by env merkle_root_name out ≡ true
      → HasHollowProof inp
      → check_merkle_root env rules tables tx inp out output_hash ≡ uncaught
  unfolding check_merkle_root load_and_check_proof check_proof
  check_merkle_root-uncaught rules tables tx inp out output_hash locked h =
      rw (h.is_spend_type, h.is_script_text)
        (ground
          (arith, hollow_proof inp h, locked, h.members, h.spend_type, h.script, h.proof, h.signed))
