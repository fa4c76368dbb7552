-- ===== src/Wallet/Keys/Import.antt =====
-- What `importPrivKey` of src/client/wallet.cpp makes of an account.
use crypto_kernel.Prelude.{◌≡◌, refl, ap, none, some, [], ◌∷◌, arith, Bool-cases, inl, inr}
use crypto_kernel.BigNum.{Text}
use crypto_kernel.Env.{Env}
use crypto_kernel.KeyMap.{KeyMap, text_eq, text_eq→eq, text_eq_refl}
use crypto_kernel.KeyMap
use crypto_kernel.Wallet.{Cipher, Account, Wallet, get_account_by_key}
use crypto_kernel.Wallet.Balance.{balances}
use crypto_kernel.Wallet.Spend.{Signer}
use crypto_kernel.Wallet.Sync.{clear_accounts, clear_db}
use crypto_kernel.Wallet.Keys.{get_account_by_name, add_key_pair, store_key}

module _ (env : Env) (cipher : Cipher) where
  abbrev cleared : Account env cipher → Account env cipher
  cleared account = record account { balance = 0 }

  lookup-clear_accounts :
      (name : Text) (accounts : KeyMap (Account env cipher)) (a : Account env cipher)
      → KeyMap.lookup name accounts ≡ some a
      → KeyMap.lookup name (clear_accounts env cipher accounts) ≡ some (cleared a)
  unfolding clear_accounts
  lookup-clear_accounts name [] a found = absurd (ground arith)
  lookup-clear_accounts name ((n, b) ∷ accounts) a found = elim (Bool-cases (text_eq name n)) [
    | inl here ↦ let same : b ≡ a = ground arith in rw here (ap (λ c. some (cleared c)) same)
    | inr other ↦ rw other (lookup-clear_accounts name accounts a (ground arith))
  ]

  balances-clear_accounts :
      (accounts : KeyMap (Account env cipher))
      → balances env cipher (clear_accounts env cipher accounts) ≡ 0
  unfolding clear_accounts balances
  balances-clear_accounts [] = refl
  balances-clear_accounts ((n, b) ∷ accounts) = ground (arith, balances-clear_accounts accounts)

  add_key_pair-added :
      (public_key : Text) (sealed : cipher.Sealed) (a : Account env cipher)
      → KeyMap.lookup public_key a.keys ≡ none
      → KeyMap.lookup public_key (add_key_pair env cipher public_key sealed a).keys ≡ some sealed
  unfolding add_key_pair
  add_key_pair-added public_key sealed a absent = ground (
    arith,
    absent,
    KeyMap.lookup-assign public_key public_key sealed a.keys,
    text_eq_refl public_key,
  )

  get_account_by_key-known :
      (w : Wallet env cipher) (key name : Text) (a : Account env cipher)
      → KeyMap.lookup key w.key_names ≡ some name
      → KeyMap.lookup name w.accounts ≡ some a
      → get_account_by_key env cipher w key ≡ some a
  unfolding get_account_by_key
  get_account_by_key-known w key name a indexed stands = ground (arith, indexed, stands)

  -- What the wallet is once a key is imported under `name`.
  pub record IsImported (name public_key : Text) (sealed : cipher.Sealed) (w : Wallet env cipher)
      : Type 0 where
    pub account : Account env cipher
    pub by_name : get_account_by_name env cipher w name ≡ some account
    pub by_key : get_account_by_key env cipher w public_key ≡ some account
    pub has_key : KeyMap.lookup public_key account.keys ≡ some sealed
    pub is_cleared : balances env cipher w.accounts ≡ 0
    pub no_outputs : w.utxos ≡ []
    pub no_transactions : w.transactions ≡ []
    pub rescans : w.height ≡ 0

  pub store_key-IsImported :
      (signer : Signer) (name public_key : Text) (sealed : cipher.Sealed) (a : Account env cipher)
      (w : Wallet env cipher)
      → KeyMap.lookup public_key a.keys ≡ none
      → IsImported name public_key sealed (store_key env cipher signer name public_key sealed a w)
  unfolding store_key clear_db get_account_by_name
  store_key-IsImported signer name public_key sealed a w absent =
      let b = add_key_pair env cipher public_key sealed a in
      let named =
        lookup-clear_accounts name (KeyMap.assign name b w.accounts) b
          (ground (arith, KeyMap.lookup-assign name name b w.accounts, text_eq_refl name)) in
      record {
        account = cleared b;
        by_name = named;
        by_key =
            get_account_by_key-known (store_key env cipher signer name public_key sealed a w)
              public_key name (cleared b)
              (ground (
                arith,
                KeyMap.lookup-assign public_key public_key name w.key_names,
                text_eq_refl public_key,
              ))
              named;
        has_key = add_key_pair-added public_key sealed a absent;
        is_cleared = balances-clear_accounts (KeyMap.assign name b w.accounts);
        no_outputs = refl;
        no_transactions = refl;
        rescans = refl;
      }
