-- ===== src/Wallet/Balance/Rewind.antt =====
-- `rewindTx` of src/client/wallet.cpp keeps the wallet consistent.
use crypto_kernel.Prelude.{
  ℕ, ◌≡◌, sym, ◌∙◌, ap, subst, Bool, false, none, some, List, [], ◌∷◌, arith, Option-cases, inl,
  inr, ◌==◌, elem, map,
}
use crypto_kernel.Chain.{Tables}
use crypto_kernel.Env.{Env}
use crypto_kernel.OrderedMap
use crypto_kernel.Outcome.{ok, ◌>>=◌, returned, ok-injective}
use crypto_kernel.Types.{Input, Output}
use crypto_kernel.Types.Transaction.{Transaction}
use crypto_kernel.Wallet.{
  Cipher, Account, Wallet, get_output, owner, rewind_outputs, rewind_inputs, rewind_tx,
}
use crypto_kernel.Wallet.Balance.{IsBooked}
use crypto_kernel.Wallet.Balance.Booking.{
  keep-IsBooked, owner-stored, with_output, with_output-absent,
}
use crypto_kernel.Wallet.Balance.Undo.{IsWorth, AreWorth, rewind_outputs-IsBooked}

module _ (env : Env) (cipher : Cipher) (value_of : ℕ → ℕ) (t : Tables env) where
  -- The outputs that the inputs spend are not kept and differ, and those that stand on the chain do so
  -- under their identifiers, with the values that these commit to.
  abbrev pub AreSpent : List (Input env) → Wallet env cipher → Type 0
  AreSpent [] w = Unit {0}
  AreSpent (inp ∷ inps) w =
      (OrderedMap.lookup inp.output_id w.utxos ≡ none)
      × (elem inp.output_id (map (λ i. i.output_id) inps) ≡ false)
      × ((out : Output env)
          → get_output env cipher t inp.output_id ≡ ok out
          → (out.id ≡ inp.output_id) × IsWorth value_of out.id out.value)
      × AreSpent inps w

  AreSpent-keep :
      (inps : List (Input env)) (w w' : Wallet env cipher) (id : ℕ)
      → ((j : ℕ)
          → (j == id) ≡ false
          → OrderedMap.lookup j w.utxos ≡ none
          → OrderedMap.lookup j w'.utxos ≡ none)
      → elem id (map (λ i. i.output_id) inps) ≡ false
      → AreSpent inps w
      → AreSpent inps w'
  AreSpent-keep [] w w' id kept other new = tt
  AreSpent-keep (inp ∷ inps) w w' id kept other new = (
    kept inp.output_id (ground arith) new.0,
    new.1,
    new.2,
    AreSpent-keep inps w w' id kept (ground arith) new.3,
  )

  AreSpent-mono :
      (inps : List (Input env)) (w w' : Wallet env cipher)
      → ((j : ℕ) → OrderedMap.lookup j w.utxos ≡ none → OrderedMap.lookup j w'.utxos ≡ none)
      → AreSpent inps w
      → AreSpent inps w'
  AreSpent-mono [] w w' kept spent = tt
  AreSpent-mono (inp ∷ inps) w w' kept spent =
      (kept inp.output_id spent.0, spent.1, spent.2, AreSpent-mono inps w w' kept spent.3)

  -- What a round of the loop over the inputs makes of the wallet
  abbrev give_back : Output env → Wallet env cipher → Wallet env cipher
  give_back out w = elim (owner env cipher w out) [
    | none ↦ w
    | some a ↦ with_output env cipher out a w
  ]

  give_back-foreign :
      (out : Output env) (w : Wallet env cipher)
      → owner env cipher w out ≡ none
      → give_back out w ≡ w
  give_back-foreign out w foreign = ground (arith, foreign)

  give_back-owned :
      (out : Output env) (w : Wallet env cipher) (a : Account env cipher)
      → owner env cipher w out ≡ some a
      → give_back out w ≡ with_output env cipher out a w
  give_back-owned out w a owned = ground (arith, owned)

  abbrev Keeps : Output env → Wallet env cipher → Wallet env cipher → Type 0
  Keeps out w w' =
      IsBooked env cipher (IsWorth value_of) w'
      × ((j : ℕ)
          → (j == out.id) ≡ false
          → OrderedMap.lookup j w.utxos ≡ none
          → OrderedMap.lookup j w'.utxos ≡ none)

  give_back-IsBooked :
      (out : Output env) (w : Wallet env cipher)
      → IsBooked env cipher (IsWorth value_of) w
      → OrderedMap.lookup out.id w.utxos ≡ none
      → IsWorth value_of out.id out.value
      → Keeps out w (give_back out w)
  give_back-IsBooked out w consistent absent worth = elim (Option-cases (owner env cipher w out)) [
    | inl foreign ↦
        subst (Keeps out w) (sym (give_back-foreign out w foreign))
          (consistent, λ j other before. before)
    | inr (a, owned) ↦ subst (Keeps out w) (sym (give_back-owned out w a owned)) (
      keep-IsBooked env cipher (IsWorth value_of) (λ i v h. h.1) w out a consistent absent worth
          (owner-stored env cipher w out a consistent.names owned),
      with_output-absent env cipher out a w,
    )
  ]

  rewind_inputs-IsBooked :
      (inps : List (Input env)) (w w' : Wallet env cipher)
      → IsBooked env cipher (IsWorth value_of) w
      → AreSpent inps w
      → rewind_inputs env cipher t inps w ≡ ok w'
      → IsBooked env cipher (IsWorth value_of) w'
  unfolding rewind_inputs
  rewind_inputs-IsBooked [] w w' consistent spent e =
      subst (IsBooked env cipher (IsWorth value_of)) (ok-injective e) consistent
  rewind_inputs-IsBooked (inp ∷ inps) w w' consistent spent e =
      let (out, rest, is_out) =
        returned {result = w'} (get_output env cipher t inp.output_id) _ e in
      let (same_id, worth) = spent.2 out is_out in
      let step =
        give_back-IsBooked out w consistent
          (ap (λ i. OrderedMap.lookup i w.utxos) same_id ∙ spent.0) worth in
      rewind_inputs-IsBooked inps (give_back out w) w' step.0
        (AreSpent-keep inps w (give_back out w) out.id step.1
          (ap (λ i. elem i (map (λ n. n.output_id) inps)) same_id ∙ spent.1) spent.3)
        rest

  rewind_tx-unknown :
      (tx : Transaction env) (w : Wallet env cipher)
      → OrderedMap.lookup tx.id w.transactions ≡ none
      → rewind_tx env cipher t tx w ≡ ok w
  unfolding rewind_tx
  rewind_tx-unknown tx w unknown = ground (arith, unknown)

  rewind_tx-known :
      (tx : Transaction env) (w : Wallet env cipher) (unconfirmed : Bool)
      → OrderedMap.lookup tx.id w.transactions ≡ some unconfirmed
      → rewind_tx env cipher t tx w ≡ (
          rewind_outputs env cipher tx.outputs
            (record w { transactions = OrderedMap.erase tx.id w.transactions })
          >>= rewind_inputs env cipher t tx.inputs)
  unfolding rewind_tx
  rewind_tx-known tx w unconfirmed known = ground (arith, known)

  -- `rewindTx` keeps the wallet's books if it returns, whether or not the transaction's own outputs still
  -- stand on the chain, as `reverseBlock` erases them: the names of the accounts and keys are right, each
  -- output that is kept has the value that its identifier commits to, and the balances of all accounts
  -- have the sum of the values of the outputs that are kept, in 64 bits. The values of the transaction's
  -- outputs are those that their identifiers commit to, below 2^64; what its inputs spend is not kept,
  -- and stands on the chain, if it does, under its identifier and with that value.
  pub rewind_tx-IsBooked :
      (tx : Transaction env) (w w' : Wallet env cipher)
      → IsBooked env cipher (IsWorth value_of) w
      → AreWorth env cipher value_of tx.outputs
      → AreSpent tx.inputs w
      → rewind_tx env cipher t tx w ≡ ok w'
      → IsBooked env cipher (IsWorth value_of) w'
  rewind_tx-IsBooked tx w w' consistent worth spent e =
      elim (Option-cases (OrderedMap.lookup tx.id w.transactions)) [
        | inl unknown ↦
            subst (IsBooked env cipher (IsWorth value_of))
              (ok-injective (sym (rewind_tx-unknown tx w unknown) ∙ e)) consistent
        | inr (unconfirmed, known) ↦
            let forgotten : Wallet env cipher = record w {
              transactions = OrderedMap.erase tx.id w.transactions;
            } in
            let start : IsBooked env cipher (IsWorth value_of) forgotten = record {
              names = consistent.names;
              sorted = consistent.sorted;
              valued = consistent.valued;
              balanced = consistent.balanced;
            } in
            let (q, rest, first) =
              returned {result = w'} (rewind_outputs env cipher tx.outputs forgotten) _
                (sym (rewind_tx-known tx w unconfirmed known) ∙ e) in
            let step =
              rewind_outputs-IsBooked env cipher value_of tx.outputs forgotten q start worth
                first in
            rewind_inputs-IsBooked tx.inputs q w' step.0 (AreSpent-mono tx.inputs w q step.1 spent)
              rest
      ]
