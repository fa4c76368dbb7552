-- ===== src/Types.antt =====
-- src/kernel/blockchaintypes.cpp: outputs and inputs. Their identifiers are computed when they are
-- made, as the source's constructors do.
pub mod Transaction
pub mod Identity
pub mod Block
pub mod Stored
mod Tests
use crypto_kernel.Prelude.{
  ℕ, Bool, true, false, not, ◌&&◌, Option, none, some, List, [], ◌∷◌, ◌++◌, ltb, if◌then◌else◌,
}
use crypto_kernel.BigNum.{Text}
use crypto_kernel.BigNum
use crypto_kernel.Decimal.{to_decimal}
use crypto_kernel.Env.{Env}
use crypto_kernel.Json.{to_string as json_to_string}
use crypto_kernel.Outcome.{
  Outcome, ok, invalid, ◌>>=◌, ◌>>◌, throw_if, value_below_one, public_key_invalid,
  output_malformed,
}

-- A member's name, as bytes.
abbrev pub contract_name : Text
contract_name = b'c' ∷ b'o' ∷ b'n' ∷ b't' ∷ b'r' ∷ b'a' ∷ b'c' ∷ b't' ∷ []

abbrev pub public_key_name : Text
public_key_name = b'p' ∷ b'u' ∷ b'b' ∷ b'l' ∷ b'i' ∷ b'c' ∷ b'K' ∷ b'e' ∷ b'y' ∷ []

abbrev pub value_name : Text
value_name = b'v' ∷ b'a' ∷ b'l' ∷ b'u' ∷ b'e' ∷ []

abbrev pub nonce_name : Text
nonce_name = b'n' ∷ b'o' ∷ b'n' ∷ b'c' ∷ b'e' ∷ []

abbrev pub data_name : Text
data_name = b'd' ∷ b'a' ∷ b't' ∷ b'a' ∷ []

abbrev pub output_id_name : Text
output_id_name = b'o' ∷ b'u' ∷ b't' ∷ b'p' ∷ b'u' ∷ b't' ∷ b'I' ∷ b'd' ∷ []

module _ (env : Env) where
  open env use {hashing, json}
  open env.signing use {set_public_key}
  open env.json use {Json, null, member, set_member, of_uint, of_text, empty, as_text}

  -- `Blockchain::output`; the source's `data` is `content`.
  pub record Output : Type 0 where
    pub value : ℕ
    pub nonce : ℕ
    pub content : Json
    pub id : ℕ

  -- `BigNum(crypto.sha256(buffer.str()))`
  pub hash_id : Text → ℕ
  hash_id buffer = hashing.from_hex (hashing.sha256 buffer)

  -- The buffer of `output::calculateId`: value, nonce and data, one after the other.
  pub output_buffer : ℕ → ℕ → Json → Text
  output_buffer value nonce content =
      to_decimal value ++ (to_decimal nonce ++ json_to_string json content false)

  -- `output::calculateId`
  pub calculate_output_id : ℕ → ℕ → Json → ℕ
  unfolding hash_id output_buffer
  calculate_output_id value nonce content = hash_id (output_buffer value nonce content)

  -- The second test of `output::checkRep`: a public key without a contract must be well formed.
  pub check_public_key : Json → Outcome (Unit {0})
  check_public_key content =
      if empty (member content contract_name) && not (empty (member content public_key_name))
      then elim (as_text (member content public_key_name)) [
        | none ↦ invalid output_malformed
        | some key ↦ throw_if (not (set_public_key key)) public_key_invalid
      ]
      else ok tt

  -- `output::checkRep`
  pub check_output : ℕ → Json → Outcome (Unit {0})
  unfolding check_public_key
  check_output value content = do throw_if (ltb value 1) value_below_one; check_public_key content

  -- `output(value, nonce, data)`
  unfoldable pub new_output : ℕ → ℕ → Json → Outcome Output
  unfolding check_output calculate_output_id
  new_output value nonce content = do
    check_output value content
    ok (record {
      value = value;
      nonce = nonce;
      content = content;
      id = calculate_output_id value nonce content;
    })

  -- `output::toJson`
  pub output_to_json : Output → Json
  output_to_json out =
      let with_value = set_member null value_name (of_uint out.value) in
      let with_nonce = set_member with_value nonce_name (of_uint out.nonce) in
      set_member with_nonce data_name out.content

  -- `Blockchain::input`
  pub record Input : Type 0 where
    pub output_id : ℕ
    pub content : Json
    pub id : ℕ

  -- `input::calculateId`
  pub calculate_input_id : ℕ → Json → ℕ
  unfolding hash_id
  calculate_input_id output_id content =
      hash_id (BigNum.to_string hashing output_id ++ json_to_string json content false)

  -- `input(outputId, data)`; its `checkRep` is empty.
  pub new_input : ℕ → Json → Input
  unfolding calculate_input_id
  new_input output_id content = record {
    output_id = output_id;
    content = content;
    id = calculate_input_id output_id content;
  }

  -- `input::toJson`
  pub input_to_json : Input → Json
  input_to_json inp =
      set_member (set_member null output_id_name (of_text (BigNum.to_string hashing inp.output_id)))
        data_name inp.content
