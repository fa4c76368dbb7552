-- ===== src/Wallet/Spend.antt =====
-- src/client/wallet.cpp: the password, new accounts, and the choice of the outputs that `sendToAddress`
-- spends. The entries of the table of outputs, in the order of an iterator over it, are an argument.
pub mod Change
pub mod Pays
pub mod Send
use crypto_kernel.Prelude.{
  ℕ, ◌+◌, ◌-◌, ◌*◌, ◌%◌, Bool, true, false, not, ◌&&◌, Option, none, some, List, [], ◌∷◌, ◌++◌,
  if◌then◌else◌, ltb, ◌==◌, length,
}
use crypto_kernel.BigNum.{Text}
use crypto_kernel.BigNum
use crypto_kernel.Chain.{Tables, Chain, Rules}
use crypto_kernel.Chain.Spend.{signature_name}
use crypto_kernel.Chain.Submit.{submit_transaction}
use crypto_kernel.Env.{Env}
use crypto_kernel.Json.{to_string as json_to_string}
use crypto_kernel.KeyMap.{text_eq}
use crypto_kernel.KeyMap
use crypto_kernel.OrderedMap.{Map}
use crypto_kernel.OrderedMap
use crypto_kernel.Outcome.{
  Outcome, ok, invalid, not_found, uncaught, undefined, out_of_fuel, ◌>>=◌, or_throws,
}
use crypto_kernel.Types.{Input, Output, new_input, new_output, public_key_name, contract_name}
use crypto_kernel.Types.Transaction.{Transaction, u64, new_transaction, get_output_set_id}
use crypto_kernel.Wallet.{Cipher, Txo, Account, Wallet, get_account_by_key, get_output}

abbrev correct : Text
correct = b'C' ∷ b'O' ∷ b'R' ∷ b'R' ∷ b'E' ∷ b'C' ∷ b'T' ∷ []

-- The keys of `Crypto`
pub record Signer : Type 0 where
  -- `setPrivateKey`, which throws for `none`
  pub set_private_key : Text → Option Bool
  -- `getPublicKey` and `getPrivateKey` once a private key is set
  pub public_key_of : Text → Text
  pub private_key_of : Text → Text
  -- `setPrivateKey` and then `sign`; `none` where one of them throws.
  pub sign : Text → Text → Option Text

module _ (env : Env) where
  open env use {hashing, json}
  open env.json use {Json, null, is_null, member, set_member, of_text, as_text}

  -- `toSpend.insert(out)`, in the order of the identifiers
  unfoldable pub insert_output : Output env → List (Output env) → List (Output env)
  insert_output out [] = out ∷ []
  insert_output out (o ∷ outs) =
      if ltb out.id o.id
      then out ∷ o ∷ outs
      else if out.id == o.id
      then o ∷ outs
      else o ∷ insert_output out outs

  unfoldable pub insert_input : Input env → List (Input env) → List (Input env)
  insert_input inp [] = inp ∷ []
  insert_input inp (i ∷ inps) =
      if ltb inp.id i.id
      then inp ∷ i ∷ inps
      else if inp.id == i.id
      then i ∷ inps
      else i ∷ insert_input inp inps

  -- The variables of the loop over the outputs
  pub record Selection : Type 0 where
    pub to_spend : List (Output env)
    pub accumulator : ℕ
    pub fee : ℕ

  unfoldable pub start_selection : Selection
  start_selection = record { to_spend = []; accumulator = 0; fee = 15000 }

  unfoldable pub spending_fee : Output env → ℕ
  spending_fee out = length (json_to_string json out.content false) * 60

  unfoldable pub select_output : Output env → Selection → Selection
  unfolding spending_fee insert_output
  select_output out s =
      if is_null (member out.content contract_name)
      then record {
        to_spend = insert_output out s.to_spend;
        accumulator = (s.accumulator + out.value) % u64;
        fee = (s.fee + spending_fee out) % u64;
      }
      else s

  unfoldable pub is_enough : ℕ → Selection → Bool
  is_enough amount s = not (ltb s.accumulator ((amount + s.fee) % u64))

  -- `accumulator - amount - fee`
  pub change_of : ℕ → Selection → ℕ
  change_of amount s = (s.accumulator + 2 * u64 - amount - s.fee) % u64

  module _ (cipher : Cipher) where
    -- A round for an output that is kept and not spent; one that is not on the chain is passed over.
    unfoldable pub consider : Tables env → ℕ → Selection → Outcome Selection
    unfolding select_output
    consider t id s = elim (get_output env cipher t id) [
      | ok out ↦ ok (select_output out s)
      | not_found ↦ ok s
      | invalid message ↦ invalid message
      | uncaught ↦ uncaught
      | undefined ↦ undefined
      | out_of_fuel ↦ out_of_fuel
    ]

    -- The loop over the outputs, which ends once they are worth enough
    unfoldable pub select : Tables env → ℕ → Map Txo → Selection → Outcome Selection
    unfolding consider is_enough
    select t amount [] s = ok s
    select t amount (e ∷ listed) s =
        if is_enough amount s
        then ok s
        else ((if e.1.spent then ok s else consider t e.0 s) >>= select t amount listed)

    -- `checkPassword`
    unfoldable pub check_password : Text → Wallet env cipher → Bool
    check_password password w = elim (cipher.unseal w.password_check password) [
      | none ↦ false
      | some text ↦ text_eq text correct
    ]

    -- What `sendToAddress` draws: the nonces of the outputs, the name and the keys of the account for
    -- the change, and the time.
    pub record Draw : Type 0 where
      pub their_nonce : ℕ
      pub account_name : Text
      pub public_key : Text
      pub private_key : cipher.Sealed
      pub change_nonce : ℕ
      pub now : ℕ

    -- `newAccount`, with the keys that it makes; `none` for a `WalletException`
    unfoldable pub new_account :
        Text → Text → Text → cipher.Sealed → Wallet env cipher → Option (Wallet env cipher)
    new_account name password public_key private_key w = elim (KeyMap.lookup name w.accounts) [
      | some account ↦ none
      | none ↦
          if check_password password w
          then some (record w {
            accounts =
                KeyMap.assign name
                  (record { name = name; balance = 0; keys = (public_key, private_key) ∷ [] })
                  w.accounts;
            key_names = KeyMap.assign public_key name w.key_names;
          })
          else none
    ]
