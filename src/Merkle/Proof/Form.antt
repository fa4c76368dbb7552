-- ===== src/Merkle/Proof/Form.antt =====
-- The JSON form of a proof: `MerkleProof::toJson` and `MerkleProof(jsonProof)` of
-- src/kernel/merkletree.cpp.
use crypto_kernel.Prelude.{ℕ, Option, none, some, List, [], ◌∷◌}
use crypto_kernel.BigNum.{Text, Hashing, to_string}
use crypto_kernel.Json.{JsonLib}
use crypto_kernel.Merkle.Proof.{MerkleProof}
use crypto_kernel.Outcome.{
  Outcome, ok, invalid, ◌>>◌, throw_if, proof_without_position, proof_without_leaves,
  proof_leaves_empty, proof_malformed,
}

abbrev pub position_name : Text
position_name = b'p' ∷ b'o' ∷ b's' ∷ b'i' ∷ b't' ∷ b'i' ∷ b'o' ∷ b'n' ∷ []

abbrev pub leaves_name : Text
leaves_name = b'l' ∷ b'e' ∷ b'a' ∷ b'v' ∷ b'e' ∷ b's' ∷ []

module _ (hashing : Hashing) (json : JsonLib) where
  open json use {
    Json, null, member, set_member, append, of_uint, of_text, is_null, empty, as_text, as_int,
    items,
  }

  append_leaves : List ℕ → Json → Json
  append_leaves [] j = j
  append_leaves (n ∷ ns) j =
      append_leaves ns
        (set_member j leaves_name (append (member j leaves_name) (of_text (to_string hashing n))))

  -- `MerkleProof::toJson`
  pub proof_to_json : MerkleProof → Json
  unfolding append_leaves
  proof_to_json p =
      append_leaves p.leaves (set_member null position_name (of_uint p.position_in_total_set))

  -- The loop over the leaves; `none` for a `Json::Exception`
  pub read_leaves : List Json → Option (List ℕ)
  read_leaves [] = some []
  read_leaves (j ∷ js) = elim (as_text j) [
    | none ↦ none
    | some s ↦ elim (read_leaves js) [ none ↦ none | some ns ↦ some (hashing.from_hex s ∷ ns) ]
  ]

  -- The `try` of the constructor
  pub read_fields : Json → Outcome MerkleProof
  unfolding read_leaves
  read_fields j = elim (as_int (member j position_name)) [
    | none ↦ invalid proof_malformed
    | some position ↦ elim (read_leaves (items (member j leaves_name))) [
      | none ↦ invalid proof_malformed
      | some leaves ↦ ok (record { leaves = leaves; position_in_total_set = position })
    ]
  ]

  -- `MerkleProof(jsonProof)`
  unfoldable pub proof_from_json : Json → Outcome MerkleProof
  unfolding read_fields
  proof_from_json j = do
    throw_if (is_null (member j position_name)) proof_without_position
    throw_if (is_null (member j leaves_name)) proof_without_leaves
    throw_if (empty (member j leaves_name)) proof_leaves_empty
    read_fields j
