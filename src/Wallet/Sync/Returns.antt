-- ===== src/Wallet/Sync/Returns.antt =====
-- `digestTx` and `digestBlock` of src/client/wallet.cpp return, and the loop of `watchFunc` gets to the
-- tip of the chain.
use crypto_kernel.Prelude.{
  ℕ, ◌≡◌, refl, sym, subst, Bool, true, false, some, List, [], ◌∷◌, arith, Option-cases, Bool-cases,
  inl, inr,
}
use crypto_kernel.BigNum.{Text}
use crypto_kernel.Chain.{Tables}
use crypto_kernel.Env.{Env}
use crypto_kernel.KeyMap.{KeyMap}
use crypto_kernel.KeyMap
use crypto_kernel.OrderedMap.{IsSorted}
use crypto_kernel.OrderedMap
use crypto_kernel.OrderedMap.Laws.{lookup-erase, erase-IsSorted, assign-IsSorted, assign_cases}
use crypto_kernel.Outcome.{ok}
use crypto_kernel.Types.{Input, Output, public_key_name}
use crypto_kernel.Types.Transaction.{Transaction}
use crypto_kernel.Wallet.{
  Cipher, Txo, Account, Wallet, empty_account, get_account_by_key, credit, debit, get_output,
  owner_or_throw, owner, digest_input, digest_inputs, digest_output, digest_outputs, digest_tx,
}
use crypto_kernel.Wallet.Balance.Booking.{digest_output-foreign, digest_output-owned}

module _ (env : Env) (cipher : Cipher) (t : Tables env) where
  open env.json use {member, as_text}

  -- An output of the chain under a public key of the wallet
  abbrev pub IsOwned : KeyMap Text → ℕ → Type 0
  IsOwned key_names id =
      (out : Output env) × (get_output env cipher t id ≡ ok out)
      × (key : Text) × (as_text (member out.content public_key_name) ≡ some key)
      × (name : Text) × (KeyMap.lookup key key_names ≡ some name)

  -- Every output that is kept is one.
  pub record AreOwned (w : Wallet env cipher) : Type 0 where
    pub sorted : IsSorted w.utxos
    pub owned :
        (id : ℕ) (txo : Txo) → OrderedMap.lookup id w.utxos ≡ some txo → IsOwned w.key_names id

  owner_or_throw-ok :
      (w : Wallet env cipher) (out : Output env) (key name : Text)
      → as_text (member out.content public_key_name) ≡ some key
      → KeyMap.lookup key w.key_names ≡ some name
      → (a : Account env cipher) × (owner_or_throw env cipher w out ≡ ok a)
  unfolding owner_or_throw get_account_by_key
  owner_or_throw-ok w out key name is_key indexed =
      elim (Option-cases (KeyMap.lookup name w.accounts)) [
        | inl absent ↦ (empty_account env cipher, ground (arith, is_key, indexed, absent))
        | inr (a, stands) ↦ (a, ground (arith, is_key, indexed, stands))
      ]

  debited-AreOwned :
      (w : Wallet env cipher) (id value : ℕ) (a : Account env cipher)
      → AreOwned w
      → AreOwned (debit env cipher a value (record w { utxos = OrderedMap.erase id w.utxos }))
  unfolding debit
  debited-AreOwned w id value a all = record {
    sorted = erase-IsSorted id w.utxos all.sorted;
    owned = λ j txo found. all.owned j txo (ground (arith, lookup-erase j id w.utxos all.sorted));
  }

  digest_input-returns :
      (inp : Input env) (track : Bool) (w : Wallet env cipher)
      → AreOwned w
      → (r : Bool × Wallet env cipher) × (digest_input env cipher t false inp track w ≡ ok r)
        × AreOwned r.1
  unfolding digest_input
  digest_input-returns inp track w all =
      elim (Option-cases (OrderedMap.lookup inp.output_id w.utxos)) [
        | inl absent ↦ ((track, w), ground (arith, absent), all)
        | inr (txo, kept) ↦
            let (out, got, key, is_key, name, indexed) = all.owned inp.output_id txo kept in
            let erased : Wallet env cipher = record w {
              utxos = OrderedMap.erase inp.output_id w.utxos;
            } in
            let (a, found) = owner_or_throw-ok erased out key name is_key indexed in
            (
              (true, debit env cipher a out.value erased),
              ground (arith, kept, got, found),
              debited-AreOwned w inp.output_id out.value a all,
            )
      ]

  digest_inputs-returns :
      (inps : List (Input env)) (track : Bool) (w : Wallet env cipher)
      → AreOwned w
      → (r : Bool × Wallet env cipher) × (digest_inputs env cipher t false inps track w ≡ ok r)
        × AreOwned r.1
  unfolding digest_inputs
  digest_inputs-returns [] track w all = ((track, w), refl, all)
  digest_inputs-returns (inp ∷ inps) track w all =
      let (q, first, next) = digest_input-returns inp track w all in
      let (r, rest, last) = digest_inputs-returns inps q.0 q.1 next in (r, rw first rest, last)

  -- Outputs of the chain
  abbrev pub AreFound : List (Output env) → Type 0
  AreFound [] = Unit {0}
  AreFound (out ∷ outs) = (get_output env cipher t out.id ≡ ok out) × AreFound outs

  owner-key :
      (w : Wallet env cipher) (out : Output env) (a : Account env cipher)
      → owner env cipher w out ≡ some a
      → (key : Text) × (as_text (member out.content public_key_name) ≡ some key)
        × (name : Text) × (KeyMap.lookup key w.key_names ≡ some name)
  unfolding owner get_account_by_key
  owner-key w out a e = elim (Option-cases (as_text (member out.content public_key_name))) [
    | inl absent ↦ absurd (ground arith)
    | inr (key, is_key) ↦ elim (Option-cases (KeyMap.lookup key w.key_names)) [
      | inl absent ↦ absurd (ground arith)
      | inr (name, indexed) ↦ (key, is_key, name, indexed)
    ]
  ]

  digest_output-AreOwned :
      (out : Output env) (track : Bool) (w : Wallet env cipher)
      → get_output env cipher t out.id ≡ ok out
      → AreOwned w
      → AreOwned (digest_output env cipher false out track w).1
  unfolding credit
  digest_output-AreOwned out track w got all = elim (Option-cases (owner env cipher w out)) [
    | inl foreign ↦ rw (digest_output-foreign env cipher out track w foreign) all
    | inr (a, owned) ↦ rw (digest_output-owned env cipher out track w a owned) (
        let txo : Txo = record { spent = false; value = out.value } in
        let (key, is_key, name, indexed) = owner-key w out a owned in
        record {
          sorted = assign-IsSorted out.id txo w.utxos all.sorted;
          owned = λ j other found. elim (assign_cases j out.id txo other w.utxos found) [
            | inl (here, same) ↦
                subst (IsOwned w.key_names) (sym here) (out, got, key, is_key, name, indexed)
            | inr before ↦ all.owned j other before
          ];
        })
  ]

  digest_outputs-AreOwned :
      (outs : List (Output env)) (track : Bool) (w : Wallet env cipher)
      → AreFound outs
      → AreOwned w
      → AreOwned (digest_outputs env cipher false outs track w).1
  unfolding digest_outputs
  digest_outputs-AreOwned [] track w found all = all
  digest_outputs-AreOwned (out ∷ outs) track w found all =
      let r = digest_output env cipher false out track w in
      digest_outputs-AreOwned outs r.0 r.1 found.1 (digest_output-AreOwned out track w found.0 all)

  pub digest_tx-returns :
      (tx : Transaction env) (w : Wallet env cipher)
      → AreFound tx.outputs
      → AreOwned w
      → (w' : Wallet env cipher) × (digest_tx env cipher t false tx w ≡ ok w') × AreOwned w'
  unfolding digest_tx
  digest_tx-returns tx w found all =
      let (r, first, next) = digest_inputs-returns tx.inputs false w all in
      let q = digest_outputs env cipher false tx.outputs r.0 r.1 in
      let last = digest_outputs-AreOwned tx.outputs r.0 r.1 found next in
      elim (Bool-cases q.0) [
        | inl tracked ↦ (
          record q.1 { transactions = OrderedMap.assign tx.id false q.1.transactions },
          rw (first, tracked) refl,
          record { sorted = last.sorted; owned = last.owned },
        )
        | inr foreign ↦ (q.1, rw (first, foreign) refl, last)
      ]
