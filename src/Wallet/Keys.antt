-- ===== src/Wallet/Keys.antt =====
-- src/client/wallet.cpp: accounts by their names, signatures under the wallet's keys, and the import of a
-- private key.
pub mod Import
pub mod Registered
mod Tests
use crypto_kernel.Prelude.{
  ℕ, Bool, true, false, not, ◌&&◌, Option, none, some, List, [], ◌∷◌, ◌++◌, if◌then◌else◌,
}
use crypto_kernel.BigNum.{Text}
use crypto_kernel.BigNum
use crypto_kernel.Chain.{Tables}
use crypto_kernel.Chain.Spend.{signature_name}
use crypto_kernel.Env.{Env}
use crypto_kernel.KeyMap.{KeyMap}
use crypto_kernel.KeyMap
use crypto_kernel.Outcome.{
  Outcome, ok, invalid, not_found, uncaught, undefined, out_of_fuel, ◌>>=◌, or_throws,
}
use crypto_kernel.Types.{Input, new_input, public_key_name}
use crypto_kernel.Types.Transaction.{Transaction, new_transaction, get_output_set_id}
use crypto_kernel.Wallet.{Cipher, Account, Wallet, get_account_by_key, get_output}
use crypto_kernel.Wallet.Spend.{Signer, check_password, new_account, insert_input}
use crypto_kernel.Wallet.Sync.{clear_db}

module _ (env : Env) (cipher : Cipher) where
  open env use {hashing, json}
  open env.json use {Json, member, set_member, of_text, as_text}

  -- `getAccountByName`; `none` for a `WalletException`
  pub get_account_by_name : Wallet env cipher → Text → Option (Account env cipher)
  get_account_by_name w name = KeyMap.lookup name w.accounts

  -- `addKeyPair`: a key that is there stays.
  pub add_key_pair : Text → cipher.Sealed → Account env cipher → Account env cipher
  add_key_pair public_key private_key account = elim (KeyMap.lookup public_key account.keys) [
    | some sealed ↦ account
    | none ↦ record account { keys = KeyMap.assign public_key private_key account.keys }
  ]

  -- The loop over the keys of an account: the private key under a public one, or an empty text
  find_private_key : Text → Text → Account env cipher → Outcome Text
  find_private_key public_key password account = elim (KeyMap.lookup public_key account.keys) [
    | none ↦ ok []
    | some sealed ↦ or_throws (cipher.unseal sealed password)
  ]

  module _ (signer : Signer) where
    -- `signMessage`
    sign_message : Text → Text → Text → Wallet env cipher → Outcome Text
    unfolding find_private_key
    sign_message message public_key password w =
        if check_password env cipher password w
        then (or_throws (get_account_by_key env cipher w public_key) >>= λ account.
            find_private_key public_key password account >>= λ private_key.
            or_throws (signer.sign private_key message))
        else uncaught

    -- The loop of `signTransaction` over the inputs; `none` where an output is not on the chain
    sign_again :
        Tables env
        → Text
        → Text
        → List (Input env)
        → List (Input env)
        → Wallet env cipher
        → Outcome (Option (List (Input env)))
    unfolding find_private_key
    sign_again t password output_hash [] signed w = ok (some signed)
    sign_again t password output_hash (inp ∷ inps) signed w =
        elim (get_output env cipher t inp.output_id) [
          | not_found ↦ ok none
          | ok out ↦ or_throws (as_text (member out.content public_key_name)) >>= λ key.
              or_throws (get_account_by_key env cipher w key) >>= λ account.
              find_private_key key password account >>= λ private_key.
              or_throws
                (signer.sign private_key (BigNum.to_string hashing inp.output_id ++ output_hash))
              >>= λ signature.
                  let spend = set_member inp.content signature_name (of_text signature) in
                  sign_again t password output_hash inps
                    (insert_input env (new_input env inp.output_id spend) signed) w
          | invalid message ↦ invalid message
          | uncaught ↦ uncaught
          | undefined ↦ undefined
          | out_of_fuel ↦ out_of_fuel
        ]

    -- `signTransaction`, at the time `now`
    sign_transaction :
        Tables env → Transaction env → Text → ℕ → Wallet env cipher → Outcome (Transaction env)
    unfolding sign_again
    sign_transaction t tx password now w =
        if check_password env cipher password w
        then (get_output_set_id env tx.outputs >>= λ hash.
            sign_again t password (BigNum.to_string hashing hash) tx.inputs [] w >>= λ signed.
            elim signed [
              | none ↦ ok tx
              | some inputs ↦ new_transaction env inputs tx.outputs now false
            ])
        else uncaught

    -- The account that a key is added to: it is made where it does not exist.
    pub account_for :
        Text → Text → Text → cipher.Sealed → Wallet env cipher → Option (Wallet env cipher)
    account_for name password new_public new_private w = elim (KeyMap.lookup name w.accounts) [
      | some account ↦ some w
      | none ↦ new_account env cipher name password new_public new_private w
    ]

    -- The key pair is put into the account and into the index, and then `clearDB`.
    pub store_key :
        Text → Text → cipher.Sealed → Account env cipher → Wallet env cipher → Wallet env cipher
    unfolding add_key_pair
    store_key name public_key sealed account w = clear_db env cipher (record w {
      accounts = KeyMap.assign name (add_key_pair public_key sealed account) w.accounts;
      key_names = KeyMap.assign public_key name w.key_names;
    })

    -- `importPrivKey`, with the keys of the account that it may make; `none` where it throws
    pub import_priv_key :
        Text → Text → Text → Text → cipher.Sealed → Wallet env cipher → Option (Wallet env cipher)
    unfolding account_for store_key get_account_by_name
    import_priv_key name private_key password new_public new_private w =
        if not (check_password env cipher password w)
        then none
        else elim (signer.set_private_key private_key) [
          | none ↦ none
          | some false ↦ none
          | some true ↦
              let public_key = signer.public_key_of private_key in
              elim (get_account_by_key env cipher w public_key) [
                | some account ↦ none
                | none ↦ elim (account_for name password new_public new_private w) [
                  | none ↦ none
                  | some w' ↦ elim (get_account_by_name w' name) [
                    | none ↦ none
                    | some account ↦ some (
                        store_key name public_key
                          (cipher.seal password (signer.private_key_of private_key)) account w')
                  ]
                ]
              ]
        ]
