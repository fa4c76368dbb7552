-- ===== src/Wallet/Balance.antt =====
-- The balances of the wallet of src/client/wallet.cpp and the outputs that it keeps: their sums agree, and
-- `digestTx` keeps it so.
pub mod Booking
pub mod Digest
pub mod Undo
pub mod Rewind
use crypto_kernel.Prelude.{
  ℕ, ◌+◌, ◌-◌, ◌%◌, ◌<◌, ◌≡◌, refl, sym, ◌∙◌, ap, Bool, true, false, Option, none, some, List, [],
  ◌∷◌, arith, if◌then◌else◌, Option-cases, Bool-cases, inl, inr, ◌==◌, ==→eq,
}
use crypto_kernel.BigNum.{Text}
use crypto_kernel.Chain.{Tables}
use crypto_kernel.Env.{Env}
use crypto_kernel.KeyMap.{KeyMap, text_eq, text_eq→eq, text_eq_refl}
use crypto_kernel.KeyMap
use crypto_kernel.OrderedMap.{Map, IsSorted}
use crypto_kernel.OrderedMap
use crypto_kernel.Outcome.{ok}
use crypto_kernel.Types.{Output}
use crypto_kernel.Types.Transaction.{u64}
use crypto_kernel.Wallet.{
  Cipher, Txo, Account, Wallet, get_account_by_key, put_balance, credit, debit, get_output,
}

-- The sum of the values of the outputs that are kept, spent or not
unfoldable pub coins : Map Txo → ℕ
coins [] = 0
coins (e ∷ m) = e.1.value + coins m

pub coins-erase :
    (id : ℕ) (m : Map Txo) (txo : Txo)
    → OrderedMap.lookup id m ≡ some txo
    → coins (OrderedMap.erase id m) + txo.value ≡ coins m
unfolding coins OrderedMap.erase
coins-erase id [] txo found = absurd (ground arith)
coins-erase id (e ∷ m) txo found = ground (arith, coins-erase id m txo)

pub coins-assign :
    (id : ℕ) (m : Map Txo) (txo : Txo)
    → OrderedMap.lookup id m ≡ none
    → coins (OrderedMap.assign id txo m) ≡ coins m + txo.value
unfolding coins OrderedMap.assign
coins-assign id [] txo absent = ground arith
coins-assign id (e ∷ m) txo absent = ground (arith, coins-assign id m txo)

module _ (env : Env) (cipher : Cipher) where
  unfoldable pub balances : KeyMap (Account env cipher) → ℕ
  balances [] = 0
  balances (e ∷ m) = e.1.balance + balances m

  pub balances-assign :
      (name : Text) (m : KeyMap (Account env cipher)) (a b : Account env cipher)
      → KeyMap.lookup name m ≡ some a
      → balances (KeyMap.assign name b m) + a.balance ≡ balances m + b.balance
  unfolding balances KeyMap.assign
  balances-assign name [] a b found = absurd (ground arith)
  balances-assign name (e ∷ m) a b found = ground (arith, balances-assign name m a b)

  -- Every account stands under its name, and every key leads to an account.
  pub record IsNamed (accounts : KeyMap (Account env cipher)) (key_names : KeyMap Text)
      : Type 0 where
    pub named :
        (name : Text) (a : Account env cipher)
        → KeyMap.lookup name accounts ≡ some a
        → a.name ≡ name
    pub indexed :
        (key name : Text)
        → KeyMap.lookup key key_names ≡ some name
        → (a : Account env cipher) × (KeyMap.lookup name accounts ≡ some a)

  -- An output of the chain with a value of a `uint64_t`
  abbrev pub IsOutput : Tables env → ℕ → ℕ → Type 0
  IsOutput t id value =
      (out : Output env) × (get_output env cipher t id ≡ ok out)
      × (out.value ≡ value)
      × (value < u64)

  -- The names are right, every output kept has a value that `Stands` admits under its identifier, and
  -- the sum of the balances is the sum of these values, in 64 bits.
  pub record IsBooked (Stands : ℕ → ℕ → Type 0) (w : Wallet env cipher) : Type 0 where
    pub names : IsNamed w.accounts w.key_names
    pub sorted : IsSorted w.utxos
    pub valued :
        (id : ℕ) (txo : Txo) → OrderedMap.lookup id w.utxos ≡ some txo → Stands id txo.value
    pub balanced : balances w.accounts % u64 ≡ coins w.utxos % u64

  -- Every output kept is one of the chain, with its value.
  abbrev pub IsConsistent : Tables env → Wallet env cipher → Type 0
  IsConsistent t w = IsBooked (IsOutput t) w

  -- An account that is put under its name again
  pub assign-IsNamed :
      (accounts : KeyMap (Account env cipher)) (key_names : KeyMap Text) (a b : Account env cipher)
      → KeyMap.lookup a.name accounts ≡ some a
      → b.name ≡ a.name
      → IsNamed accounts key_names
      → IsNamed (KeyMap.assign a.name b accounts) key_names
  assign-IsNamed accounts key_names a b stands same names = record {
    named = λ name c found. elim (Bool-cases (text_eq name a.name)) [
      | inl here ↦
          let is_b : c ≡ b = ground (arith, KeyMap.lookup-assign name a.name b accounts) in
          ap (λ d. d.name) is_b ∙ (same ∙ sym (text_eq→eq name a.name here))
      | inr other ↦ names.named name c (ground (arith, KeyMap.lookup-assign name a.name b accounts))
    ];
    indexed = λ key name found. elim (Bool-cases (text_eq name a.name)) [
      | inl here ↦ (b, ground (arith, KeyMap.lookup-assign name a.name b accounts))
      | inr other ↦
          let (c, before) = names.indexed key name found in
          (c, ground (arith, KeyMap.lookup-assign name a.name b accounts))
    ];
  }

  pub get_account_by_key-stored :
      (w : Wallet env cipher) (key : Text) (a : Account env cipher)
      → IsNamed w.accounts w.key_names
      → get_account_by_key env cipher w key ≡ some a
      → KeyMap.lookup a.name w.accounts ≡ some a
  unfolding get_account_by_key
  get_account_by_key-stored w key a names found =
      elim (Option-cases (KeyMap.lookup key w.key_names)) [
        | inl absent ↦ absurd (ground arith)
        | inr (name, indexed) ↦
            let (b, stands) = names.indexed key name indexed in
            let same : b ≡ a = ground arith in
            ap (λ n. KeyMap.lookup n w.accounts)
              (ap (λ c. c.name) (sym same) ∙ names.named name b stands)
            ∙ (stands ∙ ap some same)
      ]
