-- ===== src/Chain/Confirm/Reverse.antt =====
-- What `reverseBlock` of src/kernel/blockchain.cpp does to a transaction takes back what
-- `confirmTransaction` did to the unspent and the spent outputs.
use crypto_kernel.Prelude.{
  All, ℕ, ◌≡◌, ◌∙◌, refl, Bool, true, none, List, [], ◌∷◌, map, elem, arith,
}
use crypto_kernel.Env.{Env}
use crypto_kernel.OrderedMap
use crypto_kernel.OrderedMap.{Map, lookup, IsSorted}
use crypto_kernel.OrderedSet.{Distinct}
use crypto_kernel.Outcome.{ok, returned}
use crypto_kernel.Types.{Input}
use crypto_kernel.Types.Stored.{new_db_transaction}
use crypto_kernel.Types.Transaction.{Transaction}
use crypto_kernel.Chain.{Tables, Chain}
use crypto_kernel.Chain.Confirm.{
  spend_inputs, move_outputs, reverse_transaction, confirm_transaction,
}
use crypto_kernel.Chain.Confirm.Coins.{Coins, Holds, Holds-update, moved, taken}
use crypto_kernel.Chain.Confirm.Spent.{Found, spend_inputs-Found, spend_inputs-Holds}
use crypto_kernel.Chain.Confirm.Undo.{
  AgreeOutside, Keyed, add_outputs-Holds, erase_utxos-Holds, ids_of, restore_inputs-Holds,
}

module _ (env : Env) where
  -- One list of identifiers, spent.
  abbrev spent_ids : Transaction env → List ℕ
  spent_ids tx = map (λ i. i.output_id) tx.inputs

  Found-moved :
      (ids : List ℕ) (u s : Coins env) (inps : List (Input env))
      → ((x : ℕ) → elem x (map (λ i. i.output_id) inps) ≡ true → elem x ids ≡ true)
      → All (Found env u) inps
      → All (Found env (moved env ids u s)) inps
  Found-moved ids u s [] inside f = tt
  Found-moved ids u s (inp ∷ inps) inside (f, fs) = (
    (f.0, f.1, ground (arith, inside inp.output_id, f.2), f.3),
    Found-moved ids u s inps (λ x m. inside x (ground arith)) fs,
  )

  move_outputs-Holds :
      (tx : Transaction env) (t t' : Tables env) (u s : Coins env)
      → Distinct (spent_ids tx)
      → Holds env u s t
      → move_outputs env tx t ≡ ok t'
      → All (Found env u) tx.inputs
        × All (Keyed env) tx.outputs
        × ((u' : Coins env) × AgreeOutside env
              (ids_of env tx.outputs)
              (taken env (spent_ids tx) u)
              u'
            × Holds env u' (moved env (spent_ids tx) u s) t')
  unfolding move_outputs
  move_outputs-Holds tx t t' u s d h e =
      let (t1, rest, first) = returned {result = t'} (spend_inputs env tx.inputs t) _ e in
      let one = spend_inputs-Holds env tx.inputs t t1 u s d h first in
      let (keyed, more) = add_outputs-Holds env tx.id tx.outputs t1 t' _ _ one rest in
      (spend_inputs-Found env tx.inputs t t1 u s d h first, keyed, more)

  reverse_transaction-Holds :
      (tx : Transaction env) (t : Tables env) (u s : Coins env)
      → Distinct (spent_ids tx)
      → All (Found env s) tx.inputs
      → All (Keyed env) tx.outputs
      → Holds env u s t
      → (t' : Tables env) × (reverse_transaction env tx t ≡ ok t')
        × Holds env
            (moved env (spent_ids tx) s (taken env (ids_of env tx.outputs) u))
            (taken env (spent_ids tx) s)
            t'
  unfolding reverse_transaction
  reverse_transaction-Holds tx t u s d f k h =
      let (t1, first, one) = erase_utxos-Holds env tx.outputs t u s k h in
      let (t2, second, two) = restore_inputs-Holds env tx.inputs t1 _ s d f one in
      (
        record t2 { transactions = OrderedMap.erase tx.id t2.transactions },
        ground arith,
        Holds-update env two.sorted_utxos two.sorted_stxos two.utxo two.stxo refl refl,
      )

  -- What `reverseBlock` does to a transaction that `confirmTransaction` has confirmed does not throw,
  -- and it restores every lookup of an unspent and of a spent output. It is assumed that the
  -- transaction spends no output twice, that what it spends had not been spent before, and that what
  -- it makes was new, as `checkRep` and `verifyTransaction` ensure.
  pub reverse_transaction-confirm_transaction :
      (tx : Transaction env) (block : ℕ) (coinbase : Bool) (chain chain' : Chain env)
      → IsSorted chain.tables.utxos
      → IsSorted chain.tables.stxos
      → Distinct (spent_ids tx)
      → ((x : ℕ) → elem x (ids_of env tx.outputs) ≡ true → lookup x chain.tables.utxos ≡ none)
      → ((x : ℕ) → elem x (spent_ids tx) ≡ true → lookup x chain.tables.stxos ≡ none)
      → confirm_transaction env tx block coinbase chain ≡ ok chain'
      → (t : Tables env) × (reverse_transaction env tx chain'.tables ≡ ok t)
        × ((x : ℕ) → lookup x t.utxos ≡ lookup x chain.tables.utxos)
        × ((x : ℕ) → lookup x t.stxos ≡ lookup x chain.tables.stxos)
  unfolding confirm_transaction
  reverse_transaction-confirm_transaction tx block coinbase chain chain' su ss d new unspent e =
      let u : Coins env = λ x. lookup x chain.tables.utxos in
      let s : Coins env = λ x. lookup x chain.tables.stxos in
      let before : Holds env u s chain.tables = record {
        sorted_utxos = su;
        sorted_stxos = ss;
        utxo = λ x. refl;
        stxo = λ x. refl;
      } in
      let (t1, rest, moves) = returned {result = chain'} (move_outputs env tx chain.tables) _ e in
      let (stored, last, made) =
        returned {result = chain'} (new_db_transaction env tx block coinbase) _ rest in
      let (found, keyed, (u', agree, after)) =
        move_outputs-Holds tx chain.tables t1 u s d before moves in
      let after' : Holds env u' (moved env (spent_ids tx) u s) chain'.tables =
        Holds-update env after.sorted_utxos after.sorted_stxos after.utxo after.stxo (ground arith)
          (ground arith) in
      let (t, reversed, final) =
        reverse_transaction-Holds tx chain'.tables u' (moved env (spent_ids tx) u s) d
          (Found-moved (spent_ids tx) u s tx.inputs (λ x m. m) found) keyed after' in
      (
        t,
        reversed,
        (λ x. final.utxo x ∙ ground (arith, agree x, new x)),
        (λ x. final.stxo x ∙ ground (arith, unspent x)),
      )
