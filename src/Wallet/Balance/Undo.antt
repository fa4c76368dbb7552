-- ===== src/Wallet/Balance/Undo.antt =====
-- The loop of `rewindTx` of src/client/wallet.cpp over the outputs keeps the wallet consistent.
use crypto_kernel.Prelude.{
  ℕ, ◌<◌, ◌≡◌, refl, sym, ◌∙◌, ap, subst, none, some, List, [], ◌∷◌, arith, Option-cases, inl, inr,
}
use crypto_kernel.Env.{Env}
use crypto_kernel.OrderedMap
use crypto_kernel.Outcome.{Outcome, ok, ◌>>=◌, returned, ok-injective}
use crypto_kernel.Types.{Output}
use crypto_kernel.Types.Transaction.{u64}
use crypto_kernel.Wallet.{Cipher, Txo, Account, Wallet, debit, owner_or_throw, rewind_outputs}
use crypto_kernel.Wallet.Balance.{IsBooked}
use crypto_kernel.Wallet.Balance.Booking.{
  spend-IsBooked, owner_or_throw-stored, Spends, Spends-absent,
}

-- Identifiers commit to values: `value_of` says to which, whether or not the output still stands on the
-- chain. The value is that one, of a `uint64_t`.
abbrev pub IsWorth : (ℕ → ℕ) → ℕ → ℕ → Type 0
IsWorth value_of id value = (value_of id ≡ value) × (value < u64)

module _ (env : Env) (cipher : Cipher) (value_of : ℕ → ℕ) where
  -- A round of the loop over the outputs
  abbrev take_back : Output env → Wallet env cipher → Outcome (Wallet env cipher)
  take_back out w = elim (OrderedMap.lookup out.id w.utxos) [
    | none ↦ ok w
    | some txo ↦
        let w' = record w { utxos = OrderedMap.erase out.id w.utxos } in
        owner_or_throw env cipher w' out >>= λ a. ok (debit env cipher a out.value w')
  ]

  take_back-kept :
      (out : Output env) (w : Wallet env cipher) (txo : Txo)
      → OrderedMap.lookup out.id w.utxos ≡ some txo
      → take_back out w ≡ (
          let w' = record w { utxos = OrderedMap.erase out.id w.utxos } in
          owner_or_throw env cipher w' out >>= λ a. ok (debit env cipher a out.value w'))
  take_back-kept out w txo kept = ground (arith, kept)

  take_back-absent :
      (out : Output env) (w : Wallet env cipher)
      → OrderedMap.lookup out.id w.utxos ≡ none
      → take_back out w ≡ ok w
  take_back-absent out w absent = ground (arith, absent)

  debit_utxos :
      (a : Account env cipher) (value : ℕ) (w : Wallet env cipher)
      → (debit env cipher a value w).utxos ≡ w.utxos
  unfolding debit
  debit_utxos a value w = refl

  take_back-IsBooked :
      (out : Output env) (w w' : Wallet env cipher)
      → IsBooked env cipher (IsWorth value_of) w
      → IsWorth value_of out.id out.value
      → take_back out w ≡ ok w'
      → IsBooked env cipher (IsWorth value_of) w' × Spends env cipher out.id w w'
  take_back-IsBooked out w w' consistent (value, small) e =
      elim (Option-cases (OrderedMap.lookup out.id w.utxos)) [
        | inl absent ↦
            subst (λ q. IsBooked env cipher (IsWorth value_of) q × Spends env cipher out.id w q)
              (ok-injective (sym (take_back-absent out w absent) ∙ e)) (consistent, inl refl)
        | inr (txo, kept) ↦
            let erased : Wallet env cipher = record w { utxos = OrderedMap.erase out.id w.utxos } in
            let (a, last, owned) =
              returned {result = w'} (owner_or_throw env cipher erased out) _
                (sym (take_back-kept out w txo kept) ∙ e) in
            let (other_value, other_small) = consistent.valued out.id txo kept in
            let same_value : out.value ≡ txo.value = sym value ∙ other_value in
            let result : debit env cipher a txo.value erased ≡ w' =
              ap (λ v. debit env cipher a v erased) (sym same_value) ∙ ok-injective last in
            let stands = owner_or_throw-stored env cipher erased out a consistent.names owned in
            subst (λ q. IsBooked env cipher (IsWorth value_of) q × Spends env cipher out.id w q)
              result
              (
                spend-IsBooked env cipher (IsWorth value_of) (λ i v h. h.1) w out.id txo a
                    consistent kept stands,
                inr (debit_utxos a txo.value erased),
              )
      ]

  abbrev pub AreWorth : List (Output env) → Type 0
  AreWorth [] = Unit {0}
  AreWorth (out ∷ outs) = IsWorth value_of out.id out.value × AreWorth outs

  pub rewind_outputs-IsBooked :
      (outs : List (Output env)) (w w' : Wallet env cipher)
      → IsBooked env cipher (IsWorth value_of) w
      → AreWorth outs
      → rewind_outputs env cipher outs w ≡ ok w'
      → IsBooked env cipher (IsWorth value_of) w'
        × ((j : ℕ) → OrderedMap.lookup j w.utxos ≡ none → OrderedMap.lookup j w'.utxos ≡ none)
  unfolding rewind_outputs
  rewind_outputs-IsBooked [] w w' consistent worth e =
      subst
        (λ q.
          IsBooked env cipher (IsWorth value_of) q
          × ((j : ℕ) → OrderedMap.lookup j w.utxos ≡ none → OrderedMap.lookup j q.utxos ≡ none))
        (ok-injective e) (consistent, λ j absent. absent)
  rewind_outputs-IsBooked (out ∷ outs) w w' consistent worth e =
      let (q, rest, first) = returned {result = w'} (take_back out w) _ e in
      let step = take_back-IsBooked out w q consistent worth.0 first in
      let others = rewind_outputs-IsBooked outs q w' step.0 worth.1 rest in
      (
        others.0,
        λ j absent.
            others.1 j (Spends-absent env cipher out.id j w q consistent.sorted step.1 absent),
      )
