-- ===== src/Chain/Spend/ByKey.antt =====
-- A pay-to-merkleroot spend by public key, for `verifyTransaction` of src/kernel/blockchain.cpp.
use crypto_kernel.Prelude.{ℕ, ◌≡◌, refl, true, false, some, List, ◌∷◌, ==_refl, arith}
use crypto_kernel.BigNum.{Text}
use crypto_kernel.BigNum
use crypto_kernel.Env.{Env}
use crypto_kernel.KeyMap.{text_eq, text_eq_refl}
use crypto_kernel.Merkle.{MerkleNode, get_merkle_root}
use crypto_kernel.Merkle.Proof.{MerkleProof, tree_from_proof}
use crypto_kernel.Merkle.Proof.Form.{proof_from_json}
use crypto_kernel.Outcome.{ok}
use crypto_kernel.Types.{Input}
use crypto_kernel.Types.Stored.{DbOutput}
use crypto_kernel.Types.Transaction.{Transaction}
use crypto_kernel.Chain.{Tables, Rules}
use crypto_kernel.Chain.Spend.{
  leave, locked_by, has_members, unsigned, message, signature_name, merkle_root_name,
  spend_type_name, key_or_script_name, merkle_proof_name, pubkey_word, check_merkle_root,
  load_and_check_proof, check_proof, check_spend_type,
}

module _ (env : Env) where
  open env use {hashing, json}
  open env.signing use {verify}
  open env.json use {member, is_text, is_object, empty, as_text}

  -- A proof that starts with the hash of the key
  abbrev pub starting_with : Text → List ℕ → ℕ → MerkleProof
  starting_with key others position = record {
    leaves = hashing.from_hex (hashing.sha256 key) ∷ others;
    position_in_total_set = position;
  }

  -- The input spends the pay-to-merkleroot output by a key, with a proof that starts with the key's hash
  -- and leads to the output's root, and with a signature under that key.
  pub record IsKeySpend (inp : Input env) (out : DbOutput env) (output_hash : ℕ) : Type 0 where
    pub locked : locked_by env merkle_root_name out ≡ true
    pub members : has_members env inp ≡ true
    pub spend_type : is_text (member inp.content spend_type_name) ≡ true
    pub by_key : as_text (member inp.content spend_type_name) ≡ some pubkey_word
    pub has_key : is_text (member inp.content key_or_script_name) ≡ true
    pub key : Text
    pub is_key : as_text (member inp.content key_or_script_name) ≡ some key
    pub has_proof : is_object (member inp.content merkle_proof_name) ≡ true
    pub others : List ℕ
    pub position : ℕ
    pub is_proof :
        proof_from_json hashing json (member inp.content merkle_proof_name)
        ≡ ok (starting_with key others position)
    pub tree : MerkleNode
    pub is_tree : tree_from_proof hashing (starting_with key others position) ≡ some tree
    pub leads_to :
        as_text (member out.output.content merkle_root_name)
        ≡ some (BigNum.to_string hashing (get_merkle_root tree))
    pub signed : unsigned env inp ≡ false
    pub signature : Text
    pub is_signature : as_text (member inp.content signature_name) ≡ some signature
    pub verifies : verify key (message env out output_hash) signature ≡ true

module _ (env : Env) (rules : Rules env) (tables : Tables env) (tx : Transaction env) where
  open env use {hashing}

  key_spend-check_proof :
      (inp : Input env) (out : DbOutput env) (output_hash : ℕ)
      (h : IsKeySpend env inp out output_hash)
      → check_proof env rules tables tx inp out output_hash pubkey_word h.key
          (starting_with env h.key h.others h.position)
        ≡ ok leave
  unfolding check_proof check_spend_type text_eq
  key_spend-check_proof inp out output_hash h =
      let root = BigNum.to_string hashing (get_merkle_root h.tree) in
      rw
        (
          ==_refl (hashing.from_hex (hashing.sha256 h.key)),
          h.is_tree,
          h.leads_to,
          text_eq_refl root,
          h.is_signature,
          h.verifies,
        )
        refl

  pub key_spend-leaves :
      (inp : Input env) (out : DbOutput env) (output_hash : ℕ)
      → IsKeySpend env inp out output_hash
      → check_merkle_root env rules tables tx inp out output_hash ≡ ok leave
  unfolding check_merkle_root load_and_check_proof
  key_spend-leaves inp out output_hash h =
      let proven = key_spend-check_proof inp out output_hash h in
      rw (h.locked, h.members, h.spend_type, h.has_key, h.has_proof, h.by_key, h.is_key, h.signed)
        (ground (arith, text_eq_refl pubkey_word, h.is_proof, proven))
