-- ===== src/Wallet/Keys/Registered.antt =====
-- `importPrivKey` of src/client/wallet.cpp registers the key, and the wallet is scanned again.
use crypto_kernel.Prelude.{
  ◌≡◌, ◌∙◌, ap, subst, true, false, none, some, [], ◌∷◌, arith, Option-cases, Bool-cases, inl, inr,
}
use crypto_kernel.BigNum.{Text}
use crypto_kernel.Env.{Env}
use crypto_kernel.KeyMap.{KeyMap, text_eq, text_eq→eq, text_eq_refl}
use crypto_kernel.KeyMap
use crypto_kernel.Wallet.{Cipher, Account, Wallet, get_account_by_key}
use crypto_kernel.Wallet.Spend.{Signer, check_password, new_account}
use crypto_kernel.Wallet.Keys.{get_account_by_name, account_for, store_key, import_priv_key}
use crypto_kernel.Wallet.Keys.Import.{IsImported, store_key-IsImported}

module _ (env : Env) (cipher : Cipher) where
  -- Every key of an account is in the index.
  abbrev pub AreIndexed : Wallet env cipher → Type 0
  AreIndexed w =
      (name key : Text) (a : Account env cipher) (sealed : cipher.Sealed)
      → KeyMap.lookup name w.accounts ≡ some a
      → KeyMap.lookup key a.keys ≡ some sealed
      → (n : Text) × (KeyMap.lookup key w.key_names ≡ some n)

  -- A key under which no account is found is not in the index.
  unknown_key :
      (w : Wallet env cipher) (key : Text)
      → get_account_by_key env cipher w key ≡ none
      → KeyMap.lookup key w.key_names ≡ none
  unfolding get_account_by_key
  unknown_key w key unknown = elim (Option-cases (KeyMap.lookup key w.key_names)) [
    | inl absent ↦ absent
    | inr (name, indexed) ↦ elim (Option-cases (KeyMap.lookup name w.accounts)) [
      | inl missing ↦ absurd (ground arith)
      | inr (a, stands) ↦ absurd (ground arith)
    ]
  ]

  unknown_key-absent :
      (w : Wallet env cipher) (name key : Text) (a : Account env cipher)
      → AreIndexed w
      → get_account_by_key env cipher w key ≡ none
      → KeyMap.lookup name w.accounts ≡ some a
      → KeyMap.lookup key a.keys ≡ none
  unknown_key-absent w name key a indexed unknown stands =
      elim (Option-cases (KeyMap.lookup key a.keys)) [
        | inl absent ↦ absent
        | inr (sealed, held) ↦
            let (n, found) = indexed name key a sealed stands held in
            let missing = unknown_key w key unknown in absurd (ground arith)
      ]

  new_account-keys :
      (name password new_public key : Text) (new_private : cipher.Sealed) (w w' : Wallet env cipher)
      (a : Account env cipher)
      → new_account env cipher name password new_public new_private w ≡ some w'
      → KeyMap.lookup name w'.accounts ≡ some a
      → text_eq key new_public ≡ false
      → KeyMap.lookup key a.keys ≡ none
  unfolding new_account
  new_account-keys name password new_public key new_private w w' a made stands other =
      elim (Option-cases (KeyMap.lookup name w.accounts)) [
        | inr (old, there) ↦ absurd (ground arith)
        | inl free ↦ elim (Bool-cases (check_password env cipher password w)) [
          | inr wrong ↦ absurd (ground arith)
          | inl right ↦
              let fresh : Account env cipher = record {
                name = name;
                balance = 0;
                keys = (new_public, new_private) ∷ [];
              } in
              let put : KeyMap.assign name fresh w.accounts ≡ w'.accounts = ground arith in
              let same : fresh ≡ a = ground (
                arith,
                ap (KeyMap.lookup name) put,
                KeyMap.lookup-assign name name fresh w.accounts,
                text_eq_refl name,
              ) in
              subst (λ (c : Account env cipher). KeyMap.lookup key c.keys ≡ none) same
                (ground (arith, other))
        ]
      ]

  module _ (signer : Signer) where
    -- The calls of an import that returned
    record Steps (name private_key password new_public : Text) (new_private : cipher.Sealed)
        (w w' : Wallet env cipher) : Type 0 where
      pub unknown : get_account_by_key env cipher w (signer.public_key_of private_key) ≡ none
      pub opened : Wallet env cipher
      pub is_opened :
          account_for env cipher signer name password new_public new_private w ≡ some opened
      pub account : Account env cipher
      pub stands : KeyMap.lookup name opened.accounts ≡ some account
      pub is_stored :
          store_key env cipher signer name
            (signer.public_key_of private_key)
            (cipher.seal password (signer.private_key_of private_key))
            account
            opened
          ≡ w'

    import_priv_key-Steps :
        (name private_key password new_public : Text) (new_private : cipher.Sealed)
        (w w' : Wallet env cipher)
        → import_priv_key env cipher signer name private_key password new_public new_private w
          ≡ some w'
        → Steps name private_key password new_public new_private w w'
    unfolding import_priv_key get_account_by_name
    import_priv_key-Steps name private_key password new_public new_private w w' e =
        elim (Bool-cases (check_password env cipher password w)) [
          | inr wrong ↦ absurd (ground arith)
          | inl right ↦ elim (Option-cases (signer.set_private_key private_key)) [
            | inl thrown ↦ absurd (ground arith)
            | inr (false, improper) ↦ absurd (ground arith)
            | inr (true, proper) ↦
                elim (Option-cases
                  (get_account_by_key env cipher w (signer.public_key_of private_key))) [
                    | inr (old, known) ↦ absurd (ground arith)
                    | inl unknown ↦
                        elim (Option-cases
                          (account_for env cipher signer name password new_public new_private w)) [
                            | inl refused ↦ absurd (ground arith)
                            | inr (u, is_opened) ↦
                                elim (Option-cases (KeyMap.lookup name u.accounts)) [
                                  | inl missing ↦ absurd (ground arith)
                                  | inr (a, stands) ↦ record {
                                    unknown = unknown;
                                    opened = u;
                                    is_opened = is_opened;
                                    account = a;
                                    stands = stands;
                                    is_stored = ground arith;
                                  }
                                ]
                          ]
                  ]
          ]
        ]

    account_for-absent :
        (name password new_public key : Text) (new_private : cipher.Sealed)
        (w u : Wallet env cipher) (a : Account env cipher)
        → AreIndexed w
        → get_account_by_key env cipher w key ≡ none
        → text_eq key new_public ≡ false
        → account_for env cipher signer name password new_public new_private w ≡ some u
        → KeyMap.lookup name u.accounts ≡ some a
        → KeyMap.lookup key a.keys ≡ none
    unfolding account_for
    account_for-absent name password new_public key new_private w u a indexed unknown other e
          stands =
        elim (Option-cases (KeyMap.lookup name w.accounts)) [
          | inr (b, there) ↦
              let same : w ≡ u = ground arith in
              unknown_key-absent w name key a indexed unknown
                (ap (λ v. KeyMap.lookup name v.accounts) same ∙ stands)
          | inl free ↦
              new_account-keys name password new_public key new_private w u a (ground arith) stands
                other
        ]

    -- A wallet in which every key of an account is in the index imports a private key. If that returns,
    -- the account is found under its name and under the public key and holds the private key under
    -- the password, all balances are 0, no output and no transaction is kept, and the chain is read again
    -- from its start. The key differs from the one of the account that the call may make.
    pub import_priv_key-IsImported :
        (name private_key password new_public : Text) (new_private : cipher.Sealed)
        (w w' : Wallet env cipher)
        → AreIndexed w
        → text_eq (signer.public_key_of private_key) new_public ≡ false
        → import_priv_key env cipher signer name private_key password new_public new_private w
          ≡ some w'
        → IsImported env cipher name
            (signer.public_key_of private_key)
            (cipher.seal password (signer.private_key_of private_key))
            w'
    import_priv_key-IsImported name private_key password new_public new_private w w' indexed other
          e =
        let key = signer.public_key_of private_key in
        let sealed = cipher.seal password (signer.private_key_of private_key) in
        let steps = import_priv_key-Steps name private_key password new_public new_private w w' e in
        subst (IsImported env cipher name key sealed) steps.is_stored (
          store_key-IsImported env cipher signer name key sealed steps.account steps.opened (
            account_for-absent name password new_public key new_private w steps.opened steps.account
              indexed steps.unknown other steps.is_opened steps.stands))
