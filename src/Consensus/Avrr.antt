-- ===== src/Consensus/Avrr.antt =====
-- src/kernel/consensus/AVRR.cpp: authorised verifiers in a round-robin. The class stands by itself: the chain
-- calls the methods of a later interface. A signature is verified under the key that was set, even if it
-- is improper.
pub mod Slots
mod Tests
use crypto_kernel.Prelude.{
  ℕ, ◌/◌, ◌%◌, Bool, true, false, not, ◌&&◌, Option, none, some, List, [], ◌∷◌, ◌++◌, if◌then◌else◌,
  ltb, leb, ◌==◌, length, get_elem?,
}
use crypto_kernel.BigNum.{Text}
use crypto_kernel.BigNum
use crypto_kernel.Env.{Env}
use crypto_kernel.Json.{try_member}
use crypto_kernel.KeyMap.{text_eq}
use crypto_kernel.Outcome.{Outcome, ok, uncaught, undefined, ◌>>=◌, or_throws}
use crypto_kernel.Types.{public_key_name}
use crypto_kernel.Types.Block.{Block}
use crypto_kernel.Types.Stored.{DbBlock}

abbrev pub signature_name : Text
signature_name = b's' ∷ b'i' ∷ b'g' ∷ b'n' ∷ b'a' ∷ b't' ∷ b'u' ∷ b'r' ∷ b'e' ∷ []

abbrev pub sequence_name : Text
sequence_name =
    b's' ∷ b'e' ∷ b'q' ∷ b'u' ∷ b'e' ∷ b'n' ∷ b'c' ∷ b'e' ∷ b'N' ∷ b'u' ∷ b'm' ∷ b'b' ∷ b'e' ∷ b'r'
    ∷ []

module _ (env : Env) where
  open env use {hashing, json}
  open env.json use {Json, null, set_member, of_uint, of_text, as_text, as_uint}
  open env.signing use {verify}

  -- `consensusData`
  pub record ConsensusData : Type 0 where
    pub sequence_number : ℕ
    pub signature : Text
    pub public_key : Text

  -- `data[name].asString()` and `data[name].asUInt64()`
  pub text_member : Json → Text → Outcome Text
  text_member j name = or_throws (try_member json j name) >>= λ value. or_throws (as_text value)

  pub uint_member : Json → Text → Outcome ℕ
  uint_member j name = or_throws (try_member json j name) >>= λ value. or_throws (as_uint value)

  -- `getConsensusData`, where nothing catches what the conversions throw
  unfoldable pub get_consensus_data : Json → Outcome ConsensusData
  unfolding text_member uint_member
  get_consensus_data j = text_member j public_key_name >>= λ key.
      text_member j signature_name >>= λ signature. uint_member j sequence_name >>= λ number.
      ok (record { sequence_number = number; signature = signature; public_key = key })

  -- `consensusDataToJson`
  unfoldable pub consensus_data_to_json : ConsensusData → Json
  consensus_data_to_json d =
      set_member
        (set_member (set_member null public_key_name (of_text d.public_key)) signature_name
          (of_text d.signature))
        sequence_name (of_uint d.sequence_number)

  -- `isBlockBetter`
  unfoldable pub is_block_better : DbBlock env → DbBlock env → Outcome Bool
  unfolding uint_member
  is_block_better block tip = uint_member block.consensus_data sequence_name >>= λ number.
      uint_member tip.consensus_data sequence_name >>= λ tip_number.
      ok (ltb number tip_number && leb tip.height block.height)

  -- `serializeConsensusData`; a number is written as a text.
  unfoldable pub serialize_consensus_data : Block env → Outcome Text
  unfolding text_member
  serialize_consensus_data block =
      text_member block.fields.consensus_data public_key_name >>= λ key.
      text_member block.fields.consensus_data sequence_name >>= λ number. ok (key ++ number)

  -- The verifiers in the order of their keys, and the seconds between two blocks
  module _ (verifiers : List Text) (block_target : ℕ) where
    -- `getVerifier` for a sequence number; without verifiers it divides by 0.
    pub get_verifier : ℕ → Outcome Text
    get_verifier number =
        if length verifiers == 0
        then undefined
        else elim (get_elem? verifiers (number % length verifiers)) [
          | none ↦ undefined
          | some key ↦ ok key
        ]

    -- `block.getTimestamp() / blockTarget`
    pub slot_of : ℕ → Outcome ℕ
    slot_of timestamp = if block_target == 0 then undefined else ok (timestamp / block_target)

    -- The tests after the sequence number, at the time `now`
    pub check_verifier : ℕ → Block env → ConsensusData → Outcome Bool
    unfolding get_verifier
    check_verifier now block d =
        if ltb now block.fields.timestamp
        then ok false
        else (get_verifier d.sequence_number >>= λ key.
            if not (text_eq key d.public_key)
            then ok false
            else ok (verify d.public_key (BigNum.to_string hashing block.id) d.signature))

    -- `checkConsensusRules`
    unfoldable pub check_consensus_rules : ℕ → Block env → Block env → Outcome Bool
    unfolding get_consensus_data slot_of check_verifier
    check_consensus_rules now block previous =
        get_consensus_data block.fields.consensus_data >>= λ d.
        get_consensus_data previous.fields.consensus_data >>= λ p.
        if leb d.sequence_number p.sequence_number
        then ok false
        else (slot_of block.fields.timestamp >>= λ slot.
            if not (slot == d.sequence_number) then ok false else check_verifier now block d)

    -- `generateConsensusData`, which leaves the signature empty
    unfoldable pub generate_consensus_data : Block env → Text → Outcome Json
    unfolding slot_of consensus_data_to_json
    generate_consensus_data block public_key = slot_of block.fields.timestamp >>= λ slot. ok (
        consensus_data_to_json
          (record { sequence_number = slot; signature = []; public_key = public_key }))
