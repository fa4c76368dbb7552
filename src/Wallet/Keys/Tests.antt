-- ===== src/Wallet/Keys/Tests.antt =====
-- The import of a second key into an account, with concrete parameters.
use crypto_kernel.Prelude.{
  ◌≡◌, refl, ◌∙◌, ap, Bool-cases, inl, inr, true, false, some, none, [], ◌∷◌, arith,
}
use crypto_kernel.BigNum.{Text}
use crypto_kernel.KeyMap.{text_eq, text_eq→eq}
use crypto_kernel.KeyMap
use crypto_kernel.Sample.{sample_env as env}
use crypto_kernel.Wallet.Plain.{plain, key_name, account_name}
use crypto_kernel.Wallet.{Account, Wallet, get_account_by_key}
use crypto_kernel.Wallet.Spend.{Signer, check_password}
use crypto_kernel.Wallet.Sync.{clear_accounts, clear_db}
use crypto_kernel.Wallet.Keys.{
  get_account_by_name, add_key_pair, account_for, store_key, import_priv_key,
}
use crypto_kernel.Wallet.Keys.Import.{IsImported}
use crypto_kernel.Wallet.Keys.Registered.{AreIndexed, import_priv_key-IsImported}

abbrev signer : Signer
signer = record {
  set_private_key = λ key. some true;
  public_key_of = λ key. b'q' ∷ key;
  private_key_of = λ key. key;
  sign = λ key message. some key;
}

abbrev imported : Text
imported = b'p' ∷ []

abbrev public_imported : Text
public_imported = b'q' ∷ imported

abbrev account : Account env plain
account = record { name = account_name; balance = 7; keys = (key_name, b'x' ∷ []) ∷ [] }

abbrev wallet : Wallet env plain
wallet = record {
  password_check = b'C' ∷ b'O' ∷ b'R' ∷ b'R' ∷ b'E' ∷ b'C' ∷ b'T' ∷ [];
  accounts = (account_name, account) ∷ [];
  key_names = (key_name, account_name) ∷ [];
  utxos = (5, record { spent = false; value = 7 }) ∷ [];
  transactions = (9, false) ∷ [];
  height = 12;
  tip_id = some 70;
}

abbrev cleared : Wallet env plain
cleared = record {
  password_check = wallet.password_check;
  accounts =
      (
        account_name,
        record {
          name = account_name;
          balance = 0;
          keys = (key_name, b'x' ∷ []) ∷ (public_imported, imported) ∷ [];
        },
      )
      ∷ [];
  key_names = (key_name, account_name) ∷ (public_imported, account_name) ∷ [];
  utxos = [];
  transactions = [];
  height = 0;
  tip_id = none;
}

wallet-AreIndexed : AreIndexed env plain wallet
wallet-AreIndexed name key a sealed stands held = elim (Bool-cases (text_eq name account_name)) [
  | inr other ↦ absurd (ground arith)
  | inl here ↦
      let same : account ≡ a = ground arith in
      let in_account = ap (λ c. KeyMap.lookup key c.keys) same ∙ held in
      elim (Bool-cases (text_eq key key_name)) [
        | inl is_key ↦ (account_name, ground arith)
        | inr differs ↦ absurd (ground arith)
      ]
]

is_imported :
    import_priv_key env plain signer account_name imported [] (b'n' ∷ []) [] wallet ≡ some cleared
unfolding import_priv_key account_for store_key get_account_by_name get_account_by_key
    check_password add_key_pair clear_db clear_accounts KeyMap.assign text_eq
is_imported = refl

differs_from_new : text_eq public_imported (b'n' ∷ []) ≡ false
unfolding text_eq
differs_from_new = refl

import_priv_key-IsImported_example :
    IsImported env plain account_name public_imported imported cleared
import_priv_key-IsImported_example =
    import_priv_key-IsImported env plain signer account_name imported [] (b'n' ∷ []) [] wallet
      cleared wallet-AreIndexed differs_from_new is_imported
