-- ===== src/Mempool/Tests.antt =====
-- A mempool of two transactions, and the theorems of src/kernel/blockchain.cpp's mempool at it.
use crypto_kernel.Prelude.{
  ℕ, ◌≤◌, ◌≡◌, refl, true, false, Bool, none, some, [], ◌∷◌, elem, length, take, sum, inl, inr, ltb,
  if◌then◌else◌, arith,
}
use crypto_kernel.OrderedMap.{lookup, contains}
use crypto_kernel.OrderedMap
use crypto_kernel.Example.{toy_env}
use crypto_kernel.Types.Transaction.{Transaction}
use crypto_kernel.Mempool.{
  Mempool, empty_mempool, insert, remove, rescan_mempool, get_transactions, inputs_conflict,
  outputs_conflict, index_inputs, index_outputs, failing, remove_all,
}
use crypto_kernel.Mempool.Consistent.{
  IsConsistent, empty_mempool-IsConsistent, insert-IsConsistent, remove-IsConsistent,
}
use crypto_kernel.Mempool.Index.{input_ids, output_ids}
use crypto_kernel.Mempool.Rescan.{fails, rescan_mempool_lem}
use crypto_kernel.Mempool.Reachable.{Reached, starts, inserts, removes, rescans, no_double_spend}
use crypto_kernel.Mempool.RoundTrip.{remove-insert}
use crypto_kernel.Mempool.Select.{sizes, values_of, max_total, get_transactions_longest}

abbrev Tx : Type 0
Tx = Transaction toy_env

-- A transaction that spends the output `o` by the input `i` and makes the output `n`.
abbrev pay : ℕ → ℕ → ℕ → ℕ → ℕ → Tx
pay id i o n bytes = record {
  inputs = record { output_id = o; content = []; id = i } ∷ [];
  outputs = record { value = 5; nonce = 0; content = []; id = n } ∷ [];
  timestamp = 0;
  bytes = bytes;
  id = id;
}

abbrev first : Tx
first = pay 10 1 100 200 300

abbrev second : Tx
second = pay 20 2 101 201 400

-- Spends the output 100, as `first` does.
abbrev rival : Tx
rival = pay 30 3 100 202 500

abbrev one : Mempool toy_env
one = (insert toy_env first (empty_mempool toy_env)).0

abbrev two : Mempool toy_env
two = (insert toy_env second one).0

one-IsConsistent : IsConsistent toy_env one
one-IsConsistent =
    insert-IsConsistent toy_env first (empty_mempool toy_env) (empty_mempool-IsConsistent toy_env)
      (omega arith)

two-IsConsistent : IsConsistent toy_env two
two-IsConsistent = insert-IsConsistent toy_env second one one-IsConsistent (omega arith)

insert-IsConsistent_example : IsConsistent toy_env (insert toy_env rival two).0
insert-IsConsistent_example = insert-IsConsistent toy_env rival two two-IsConsistent (omega arith)

-- The state `two`, written out.
abbrev literal : Mempool toy_env
literal = record {
  txs = (10, first) ∷ (20, second) ∷ [];
  outputs = (100, 10) ∷ (101, 20) ∷ (200, 10) ∷ (201, 20) ∷ [];
  inputs = (1, 10) ∷ (2, 20) ∷ [];
  bytes = 700;
}

two-literal : two ≡ literal
unfolding insert inputs_conflict outputs_conflict index_inputs index_outputs OrderedMap.insert
two-literal = refl

refused : (insert toy_env rival literal).1 ≡ false
unfolding insert inputs_conflict outputs_conflict
refused = refl

taken : (insert toy_env second one).1 ≡ true
unfolding insert inputs_conflict outputs_conflict index_inputs index_outputs OrderedMap.insert
taken = refl

literal-IsConsistent : IsConsistent toy_env literal
literal-IsConsistent = rw two-literal at two-IsConsistent

-- `first` comes, `second` comes, `rival` is refused and removed, and all stay in a rescan.
abbrev settled : Mempool toy_env
settled =
    rescan_mempool toy_env (λ tx. true) (remove toy_env rival (insert toy_env rival literal).0)

rival_refused : lookup 30 (insert toy_env rival literal).0.txs ≡ none
unfolding insert inputs_conflict outputs_conflict
rival_refused = refl

first_stands : lookup 10 settled.txs ≡ some first
unfolding insert inputs_conflict outputs_conflict remove rescan_mempool failing remove_all
first_stands = refl

second_stands : lookup 20 settled.txs ≡ some second
unfolding insert inputs_conflict outputs_conflict remove rescan_mempool failing remove_all
second_stands = refl

settled-Reached : Reached toy_env settled
settled-Reached =
    rescans (λ tx. true) _
      (removes rival _ (inl rival_refused) (
        inserts rival literal (omega arith) (
          rw (← two-literal) (
            inserts second one (omega arith)
              (inserts first (empty_mempool toy_env) (omega arith) starts)))))

no_double_spend_example :
    (elem 100 (input_ids toy_env first) ≡ true → elem 100 (input_ids toy_env second) ≡ false)
    × (elem 100 (output_ids toy_env first) ≡ true → elem 100 (output_ids toy_env second) ≡ false)
no_double_spend_example =
    no_double_spend toy_env settled-Reached 10 20 100 (omega arith) first_stands second_stands

remove-IsConsistent_example : IsConsistent toy_env (remove toy_env first literal)
remove-IsConsistent_example =
    remove-IsConsistent toy_env first literal literal-IsConsistent (inr refl)

abbrev is_first : Tx → Bool
is_first tx = ltb tx.id 15

rescan_mempool_lem_example :
    IsConsistent toy_env (rescan_mempool toy_env is_first literal)
    × ((k : ℕ)
        → lookup k (rescan_mempool toy_env is_first literal).txs
          ≡ (if fails toy_env is_first (lookup k literal.txs) then none else lookup k literal.txs))
rescan_mempool_lem_example = rescan_mempool_lem toy_env is_first literal literal-IsConsistent

remove-insert_example :
    let m' = remove toy_env second (insert toy_env second one).0 in
    ((k : ℕ) → lookup k m'.txs ≡ lookup k one.txs)
    × ((k : ℕ) → lookup k m'.inputs ≡ lookup k one.inputs)
    × ((k : ℕ) → lookup k m'.outputs ≡ lookup k one.outputs)
    × (m'.bytes ≡ one.bytes)
remove-insert_example = remove-insert toy_env second one one-IsConsistent (omega arith) taken

get_transactions_longest_example :
    let chosen = get_transactions toy_env literal in
    (sum (sizes toy_env chosen) ≤ max_total toy_env)
    × (chosen ≡ take (length chosen) (values_of toy_env literal.txs))
    × ((n : ℕ)
        → n ≤ length literal.txs
        → sum (sizes toy_env (take n (values_of toy_env literal.txs))) ≤ max_total toy_env
        → n ≤ length chosen)
get_transactions_longest_example =
    get_transactions_longest toy_env literal (omega arith, (omega arith, tt))
