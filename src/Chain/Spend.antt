-- ===== src/Chain/Spend.antt =====
-- The checks of one spent output in `verifyTransaction` of src/kernel/blockchain.cpp: the signature
-- under a Schnorr key, the pay-to-merkleroot spend, and the signature under a public key.
pub mod Malformed
pub mod ByKey
use crypto_kernel.Prelude.{
  ℕ, Bool, true, not, ◌&&◌, ◌||◌, none, some, [], ◌∷◌, ◌++◌, ◌==◌, if◌then◌else◌,
}
use crypto_kernel.BigNum.{Text}
use crypto_kernel.BigNum
use crypto_kernel.Env.{Env}
use crypto_kernel.KeyMap.{text_eq}
use crypto_kernel.OrderedMap.{Map, lookup, contains}
use crypto_kernel.OrderedMap
use crypto_kernel.Merkle.{get_merkle_root}
use crypto_kernel.Merkle.Proof.{MerkleProof, tree_from_proof}
use crypto_kernel.Merkle.Proof.Form.{proof_from_json}
use crypto_kernel.Outcome.{
  Outcome, ok, invalid, not_found, uncaught, undefined, out_of_fuel, ◌>>=◌, or_throws,
}
use crypto_kernel.Types.{Input, contract_name, public_key_name}
use crypto_kernel.Types.Stored.{DbOutput}
use crypto_kernel.Types.Transaction.{Transaction}
use crypto_kernel.Chain.{Tables, Rules}

abbrev pub schnorr_key_name : Text
schnorr_key_name = b's' ∷ b'c' ∷ b'h' ∷ b'n' ∷ b'o' ∷ b'r' ∷ b'r' ∷ b'K' ∷ b'e' ∷ b'y' ∷ []

abbrev pub signature_name : Text
signature_name = b's' ∷ b'i' ∷ b'g' ∷ b'n' ∷ b'a' ∷ b't' ∷ b'u' ∷ b'r' ∷ b'e' ∷ []

abbrev pub merkle_root_name : Text
merkle_root_name = b'm' ∷ b'e' ∷ b'r' ∷ b'k' ∷ b'l' ∷ b'e' ∷ b'R' ∷ b'o' ∷ b'o' ∷ b't' ∷ []

abbrev pub spend_type_name : Text
spend_type_name = b's' ∷ b'p' ∷ b'e' ∷ b'n' ∷ b'd' ∷ b'T' ∷ b'y' ∷ b'p' ∷ b'e' ∷ []

abbrev pub key_or_script_name : Text
key_or_script_name =
    b'p' ∷ b'u' ∷ b'b' ∷ b'K' ∷ b'e' ∷ b'y' ∷ b'O' ∷ b'r' ∷ b'S' ∷ b'c' ∷ b'r' ∷ b'i' ∷ b'p' ∷ b't'
    ∷ []

abbrev pub merkle_proof_name : Text
merkle_proof_name = b'm' ∷ b'e' ∷ b'r' ∷ b'k' ∷ b'l' ∷ b'e' ∷ b'P' ∷ b'r' ∷ b'o' ∷ b'o' ∷ b'f' ∷ []

abbrev pub pubkey_word : Text
pubkey_word = b'p' ∷ b'u' ∷ b'b' ∷ b'k' ∷ b'e' ∷ b'y' ∷ []

abbrev pub script_word : Text
script_word = b's' ∷ b'c' ∷ b'r' ∷ b'i' ∷ b'p' ∷ b't' ∷ []

-- How the body of the loop over the inputs ends: it falls through to the next part or the next input,
-- leaves the loop by `break`, or returns `(false, ban)`.
pub data Flow : Type 0 where
  go_on : Flow
  leave : Flow
  refuse : Bool → Flow

module _ (env : Env) where
  open env use {hashing, json}
  open env.json use {Json, member, is_text, is_object, is_null, empty}

  -- Whether `spendData[...]` can be read: JsonCpp throws if the input's data is neither an object nor
  -- null, and `verifyTransaction` does not catch it.
  abbrev pub has_members : Input env → Bool
  has_members inp = is_object inp.content || is_null inp.content

  -- `out.getId().toString() + outputHash.toString()`
  abbrev pub message : DbOutput env → ℕ → Text
  message out output_hash =
      BigNum.to_string hashing out.output.id ++ BigNum.to_string hashing output_hash

  -- `out`'s data holds the member, and no contract.
  abbrev pub locked_by : Text → DbOutput env → Bool
  locked_by name out =
      not (empty (member out.output.content name))
      && empty (member out.output.content contract_name)

  -- `signature.empty() || !signature.isString()`
  abbrev pub unsigned : Input env → Bool
  unsigned inp =
      empty (member inp.content signature_name) || not (is_text (member inp.content signature_name))

module _ (env : Env) (rules : Rules env) (tables : Tables env) (tx : Transaction env) where
  open env use {hashing, json}
  open env.signing use {
    set_public_key, verify, schnorr_set_public_key, schnorr_verify, pubkey_aggregate,
  }
  open env.json use {Json, member, is_text, is_object, empty, as_text}

  -- The signature under the output's Schnorr key, where there is one.
  check_schnorr_signature : Input env → DbOutput env → ℕ → Outcome Flow
  check_schnorr_signature inp out output_hash = do
    key ← or_throws (as_text (member out.output.content schnorr_key_name))
    signature ← or_throws (as_text (member inp.content signature_name))
    (if not (schnorr_set_public_key key)
        then ok (refuse true)
        else if not (schnorr_verify key (message env out output_hash) signature)
        then ok (refuse true)
        else ok go_on)

  -- An output under a Schnorr key, with the outputs that may yet be covered by an aggregate signature.
  unfoldable pub check_schnorr :
      Input env → DbOutput env → ℕ → Map (DbOutput env) → Outcome (Flow × Map (DbOutput env))
  unfolding check_schnorr_signature
  check_schnorr inp out output_hash maybe =
      if locked_by env schnorr_key_name out
      then (if not (has_members env inp)
          then uncaught
          else (let added =
                if unsigned env inp then OrderedMap.insert out.output.id out maybe else maybe in
              if not (is_text (member out.output.content schnorr_key_name))
              then ok (go_on, OrderedMap.erase out.output.id added)
              else if is_text (member inp.content signature_name)
              then (check_schnorr_signature inp out output_hash >>= λ flow. ok (flow, added))
              else ok (go_on, added)))
      else ok (go_on, maybe)

  -- The last part of a pay-to-merkleroot spend: by its `spendType`.
  check_spend_type : Input env → DbOutput env → ℕ → Text → Text → Outcome Flow
  check_spend_type inp out output_hash spend_type key_or_script =
      if text_eq spend_type script_word
      then (or_throws (rules.evaluate_script tables tx inp key_or_script) >>= λ valid.
          ok (if valid then go_on else refuse true))
      else if text_eq spend_type pubkey_word
      then (or_throws (as_text (member inp.content signature_name)) >>= λ signature. ok (
          if verify key_or_script (message env out output_hash) signature
          then leave
          else refuse true))
      else ok (refuse true)

  -- The proof starts with the hash of the key or script, and leads to the output's root.
  check_proof : Input env → DbOutput env → ℕ → Text → Text → MerkleProof → Outcome Flow
  unfolding check_spend_type
  check_proof inp out output_hash spend_type key_or_script proof = elim proof.leaves [
    | [] ↦ uncaught
    | first ∷ _ ↦
        if not (first == hashing.from_hex (hashing.sha256 key_or_script))
        then ok (refuse true)
        else elim (tree_from_proof hashing proof) [
          | none ↦ uncaught
          | some tree ↦ (do
            root ← or_throws (as_text (member out.output.content merkle_root_name))
            (if not (text_eq (BigNum.to_string hashing (get_merkle_root tree)) root)
                then ok (refuse true)
                else check_spend_type inp out output_hash spend_type key_or_script))
        ]
  ]

  -- The proof in the input's data is loaded: only its `InvalidElementException` is caught.
  load_and_check_proof : Input env → DbOutput env → ℕ → Text → Text → Outcome Flow
  unfolding check_proof
  load_and_check_proof inp out output_hash spend_type key_or_script =
      elim (proof_from_json hashing json (member inp.content merkle_proof_name)) [
        | ok proof ↦ check_proof inp out output_hash spend_type key_or_script proof
        | invalid _ ↦ ok (refuse true)
        | not_found ↦ not_found
        | uncaught ↦ uncaught
        | undefined ↦ undefined
        | out_of_fuel ↦ out_of_fuel
      ]

  -- Pay-to-merkleroot
  unfoldable pub check_merkle_root : Input env → DbOutput env → ℕ → Outcome Flow
  unfolding load_and_check_proof
  check_merkle_root inp out output_hash =
      if locked_by env merkle_root_name out
      then (if not (has_members env inp)
          then uncaught
          else if not (is_text (member inp.content spend_type_name))
              || not (is_text (member inp.content key_or_script_name))
              || not (is_object (member inp.content merkle_proof_name))
          then ok (refuse true)
          else (do
            spend_type ← or_throws (as_text (member inp.content spend_type_name))
            key_or_script ← or_throws (as_text (member inp.content key_or_script_name))
            (if text_eq spend_type pubkey_word && unsigned env inp
                then ok (refuse true)
                else load_and_check_proof inp out output_hash spend_type key_or_script)))
      else ok go_on

  -- An output under a public key
  unfoldable pub check_key : Input env → DbOutput env → ℕ → Outcome Flow
  check_key inp out output_hash =
      if locked_by env public_key_name out
      then (if not (has_members env inp)
          then uncaught
          else if unsigned env inp
          then ok (refuse true)
          else (do
            key ← or_throws (as_text (member out.output.content public_key_name))
            signature ← or_throws (as_text (member inp.content signature_name))
            if verify key (message env out output_hash) signature
                then ok go_on
                else ok (refuse true)))
      else ok go_on
