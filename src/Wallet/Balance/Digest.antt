-- ===== src/Wallet/Balance/Digest.antt =====
-- `digestTx` of src/client/wallet.cpp, for a confirmed transaction, keeps the wallet consistent.
use crypto_kernel.Prelude.{
  elem, map, ℕ, ◌≡◌, refl, sym, ◌∙◌, ap, subst, Bool, true, false, none, some, List, [], ◌∷◌, arith,
  if◌then◌else◌, Option-cases, inl, inr, ◌==◌,
}
use crypto_kernel.Chain.{Tables}
use crypto_kernel.Env.{Env}
use crypto_kernel.OrderedMap.{Map, IsSorted}
use crypto_kernel.OrderedMap
use crypto_kernel.Outcome.{ok, ◌>>=◌, returned, ok-injective}
use crypto_kernel.Types.{Input, Output}
use crypto_kernel.Types.Transaction.{Transaction}
use crypto_kernel.Wallet.{
  Cipher, Txo, Wallet, debit, get_output, owner_or_throw, owner, digest_input, digest_inputs,
  digest_output, digest_outputs, digest_tx,
}
use crypto_kernel.Wallet.Balance.{IsOutput, IsConsistent}
use crypto_kernel.Wallet.Balance.Booking.{
  spend-IsBooked, keep-IsBooked, owner_or_throw-stored, owner-stored, Spends, Spends-absent,
  with_output-absent, digest_output-foreign, digest_output-owned,
}

module _ (env : Env) (cipher : Cipher) (t : Tables env) where
  open env.json use {member, as_text}

  book-IsConsistent :
      (w : Wallet env cipher) (id : ℕ) (txo : Txo) {r : Bool × Wallet env cipher}
      → IsConsistent env cipher t w
      → OrderedMap.lookup id w.utxos ≡ some txo
      → (get_output env cipher t id >>= λ out.
          let w' = record w { utxos = OrderedMap.erase id w.utxos } in
          owner_or_throw env cipher w' out >>= λ a. ok (true, debit env cipher a out.value w'))
        ≡ ok r
      → IsConsistent env cipher t r.1 × Spends env cipher id w r.1
  unfolding debit
  book-IsConsistent w id txo {r} consistent kept e =
      let erased : Wallet env cipher = record w { utxos = OrderedMap.erase id w.utxos } in
      let (out, rest, is_out) = returned {result = r} (get_output env cipher t id) _ e in
      let (a, last, owned) = returned {result = r} (owner_or_throw env cipher erased out) _ rest in
      let (known, got, value, small) = consistent.valued id txo kept in
      let same_value : out.value ≡ txo.value =
        ap (λ o. o.value) (ok-injective (sym is_out ∙ got)) ∙ value in
      let result : (true, debit env cipher a txo.value erased) ≡ r =
        ap (λ v. (true, debit env cipher a v erased)) (sym same_value) ∙ ok-injective last in
      let stands = owner_or_throw-stored env cipher erased out a consistent.names owned in
      subst (λ q. IsConsistent env cipher t q.1 × Spends env cipher id w q.1) result
        (
          spend-IsBooked env cipher (IsOutput env cipher t) (λ i v h. h.3) w id txo a consistent
              kept stands,
          inr refl,
        )

  digest_input-absent :
      (inp : Input env) (track : Bool) (w : Wallet env cipher)
      → OrderedMap.lookup inp.output_id w.utxos ≡ none
      → digest_input env cipher t false inp track w ≡ ok (track, w)
  unfolding digest_input
  digest_input-absent inp track w absent = ground (arith, absent)

  digest_input-kept :
      (inp : Input env) (track : Bool) (w : Wallet env cipher) (txo : Txo)
      → OrderedMap.lookup inp.output_id w.utxos ≡ some txo
      → digest_input env cipher t false inp track w ≡ (
          get_output env cipher t inp.output_id >>= λ out.
          let w' = record w { utxos = OrderedMap.erase inp.output_id w.utxos } in
          owner_or_throw env cipher w' out >>= λ a. ok (true, debit env cipher a out.value w'))
  unfolding digest_input
  digest_input-kept inp track w txo kept = ground (arith, kept)

  -- A round that finds no output of the wallet leaves it as it is; another books the output.
  digest_input-IsConsistent :
      (inp : Input env) (track : Bool) (w : Wallet env cipher) {r : Bool × Wallet env cipher}
      → IsConsistent env cipher t w
      → digest_input env cipher t false inp track w ≡ ok r
      → IsConsistent env cipher t r.1 × Spends env cipher inp.output_id w r.1
  digest_input-IsConsistent inp track w {r} consistent e =
      elim (Option-cases (OrderedMap.lookup inp.output_id w.utxos)) [
        | inl absent ↦
            subst (λ q. IsConsistent env cipher t q.1 × Spends env cipher inp.output_id w q.1)
              (ok-injective (sym (digest_input-absent inp track w absent) ∙ e))
              (consistent, inl refl)
        | inr (txo, kept) ↦
            book-IsConsistent w inp.output_id txo consistent kept
              (sym (digest_input-kept inp track w txo kept) ∙ e)
      ]

  digest_inputs-IsConsistent :
      (inps : List (Input env)) (track : Bool) (w : Wallet env cipher)
      {r : Bool × Wallet env cipher}
      → IsConsistent env cipher t w
      → digest_inputs env cipher t false inps track w ≡ ok r
      → IsConsistent env cipher t r.1
        × ((j : ℕ) → OrderedMap.lookup j w.utxos ≡ none → OrderedMap.lookup j r.1.utxos ≡ none)
  unfolding digest_inputs
  digest_inputs-IsConsistent [] track w {r} consistent e =
      subst
        (λ q.
          IsConsistent env cipher t q.1
          × ((j : ℕ) → OrderedMap.lookup j w.utxos ≡ none → OrderedMap.lookup j q.1.utxos ≡ none))
        (ok-injective e) (consistent, λ j absent. absent)
  digest_inputs-IsConsistent (inp ∷ inps) track w {r} consistent e =
      let (q, rest, first) =
        returned {result = r} (digest_input env cipher t false inp track w) _ e in
      let step = digest_input-IsConsistent inp track w consistent first in
      let others = digest_inputs-IsConsistent inps q.0 q.1 step.0 rest in
      (
        others.0,
        λ j absent.
            others.1 j
              (Spends-absent env cipher inp.output_id j w q.1 consistent.sorted step.1 absent),
      )

  -- The outputs of a transaction are new to the wallet, differ, and are outputs of the chain.
  abbrev pub AreNew : List (Output env) → Wallet env cipher → Type 0
  AreNew [] w = Unit {0}
  AreNew (out ∷ outs) w =
      (OrderedMap.lookup out.id w.utxos ≡ none)
      × (elem out.id (map (λ o. o.id) outs) ≡ false)
      × IsOutput env cipher t out.id out.value
      × AreNew outs w

  AreNew-keep :
      (outs : List (Output env)) (w w' : Wallet env cipher) (id : ℕ)
      → ((j : ℕ)
          → (j == id) ≡ false
          → OrderedMap.lookup j w.utxos ≡ none
          → OrderedMap.lookup j w'.utxos ≡ none)
      → elem id (map (λ o. o.id) outs) ≡ false
      → AreNew outs w
      → AreNew outs w'
  AreNew-keep [] w w' id kept other new = tt
  AreNew-keep (out ∷ outs) w w' id kept other new = (
    kept out.id (ground arith) new.0,
    new.1,
    new.2,
    AreNew-keep outs w w' id kept (ground arith) new.3,
  )

  digest_output-IsConsistent :
      (out : Output env) (track : Bool) (w : Wallet env cipher)
      → IsConsistent env cipher t w
      → OrderedMap.lookup out.id w.utxos ≡ none
      → IsOutput env cipher t out.id out.value
      → IsConsistent env cipher t (digest_output env cipher false out track w).1
        × ((j : ℕ)
            → (j == out.id) ≡ false
            → OrderedMap.lookup j w.utxos ≡ none
            → OrderedMap.lookup j (digest_output env cipher false out track w).1.utxos ≡ none)
  digest_output-IsConsistent out track w consistent absent of_chain =
      elim (Option-cases (owner env cipher w out)) [
        | inl foreign ↦
            rw (digest_output-foreign env cipher out track w foreign)
              (consistent, λ j other before. before)
        | inr (a, owned) ↦ rw (digest_output-owned env cipher out track w a owned) (
          keep-IsBooked env cipher (IsOutput env cipher t) (λ i v h. h.3) w out a consistent absent
              of_chain (owner-stored env cipher w out a consistent.names owned),
          with_output-absent env cipher out a w,
        )
      ]

  digest_outputs-IsConsistent :
      (outs : List (Output env)) (track : Bool) (w : Wallet env cipher)
      → IsConsistent env cipher t w
      → AreNew outs w
      → IsConsistent env cipher t (digest_outputs env cipher false outs track w).1
  unfolding digest_outputs
  digest_outputs-IsConsistent [] track w consistent new = consistent
  digest_outputs-IsConsistent (out ∷ outs) track w consistent new =
      let r = digest_output env cipher false out track w in
      let step = digest_output-IsConsistent out track w consistent new.0 new.2 in
      digest_outputs-IsConsistent outs r.0 r.1 step.0
        (AreNew-keep outs w r.1 out.id step.1 new.1 new.3)

  AreNew-mono :
      (outs : List (Output env)) (w w' : Wallet env cipher)
      → ((j : ℕ) → OrderedMap.lookup j w.utxos ≡ none → OrderedMap.lookup j w'.utxos ≡ none)
      → AreNew outs w
      → AreNew outs w'
  AreNew-mono [] w w' kept new = tt
  AreNew-mono (out ∷ outs) w w' kept new =
      (kept out.id new.0, new.1, new.2, AreNew-mono outs w w' kept new.3)

  tracked-IsConsistent :
      (w : Wallet env cipher) (track : Bool) (id : ℕ)
      → IsConsistent env cipher t w
      → IsConsistent env cipher t (
          if track
          then record w { transactions = OrderedMap.assign id false w.transactions }
          else w)
  tracked-IsConsistent w true id consistent = record {
    names = consistent.names;
    sorted = consistent.sorted;
    valued = consistent.valued;
    balanced = consistent.balanced;
  }
  tracked-IsConsistent w false id consistent = consistent

  -- `digestTx` of a confirmed transaction, whose outputs are new to the wallet and stand on the chain,
  -- keeps the wallet consistent if it returns: the names of the accounts and keys are right, each
  -- output that is kept is an output of the chain with its value, and the balances of all accounts
  -- have the sum of the values of the outputs that are kept, in 64 bits.
  pub digest_tx-IsConsistent :
      (tx : Transaction env) (w w' : Wallet env cipher)
      → IsConsistent env cipher t w
      → AreNew tx.outputs w
      → digest_tx env cipher t false tx w ≡ ok w'
      → IsConsistent env cipher t w'
  unfolding digest_tx
  digest_tx-IsConsistent tx w w' consistent new e =
      let (r, rest, spent) =
        returned {result = w'} (digest_inputs env cipher t false tx.inputs false w) _ e in
      let inputs_done = digest_inputs-IsConsistent tx.inputs false w consistent spent in
      let q = digest_outputs env cipher false tx.outputs r.0 r.1 in
      let outputs_done =
        digest_outputs-IsConsistent tx.outputs r.0 r.1 inputs_done.0
          (AreNew-mono tx.outputs w r.1 inputs_done.1 new) in
      subst (IsConsistent env cipher t) (ok-injective rest)
        (tracked-IsConsistent q.1 q.0 tx.id outputs_done)
