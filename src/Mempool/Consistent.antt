-- ===== src/Mempool/Consistent.antt =====
-- The invariant of src/kernel/blockchain.cpp's mempool: its maps say exactly which transaction
-- touches which input and output, so no two transactions touch the same.
use crypto_kernel.Prelude.{
  ℕ, ◌+◌, ◌-◌, ◌%◌, ◌<◌, ◌≡◌, ◌↔◌, ◌⊎◌, refl, Bool, true, false, Option, none, some, List, [], ◌∷◌,
  elem, ◌==◌, ◌||◌, if◌then◌else◌, arith, Bool-cases, inl, inr,
}
use crypto_kernel.OrderedMap.{Map, lookup, contains, IsSorted}
use crypto_kernel.OrderedMap
use crypto_kernel.OrderedMap.Laws.{
  lookup-insert, insert-IsSorted, lookup-erase, erase-IsSorted, contains-eq-false, lookup-eq-none,
  lookup-eq-some,
}
use crypto_kernel.Env.{Env}
use crypto_kernel.Types.Transaction.{Transaction, u32}
use crypto_kernel.Mempool.{Mempool, empty_mempool, insert, remove}
use crypto_kernel.Mempool.Index.{
  insert_all, erase_all, insert_all-IsSorted, erase_all-IsSorted, lookup-insert_all,
  lookup-erase_all, any_in, lookup-any_in, input_ids, output_ids, conflicts_lem, index_lem,
  drop_lem,
}

or_false : (a b : Bool) → (a || b) ≡ false → (a ≡ false) × (b ≡ false)
or_false a b h = ground arith

module _ (env : Env) where
  -- Whether the transaction, if there is one, has the identifier among those that `f` lists.
  abbrev pub holds : (Transaction env → List ℕ) → Option (Transaction env) → ℕ → Bool
  holds f none x = false
  holds f (some tx) x = elem x (f tx)

  -- The map `m` leads from each identifier that `f` lists for a transaction to that transaction, and
  -- from no other identifier.
  abbrev pub Indexes : (Transaction env → List ℕ) → Map (Transaction env) → Map ℕ → Type 0
  Indexes f txs m = (x t : ℕ) → (lookup x m ≡ some t) ↔ (holds f (lookup t txs) x ≡ true)

  pub total_bytes : Map (Transaction env) → ℕ
  total_bytes [] = 0
  total_bytes (e ∷ txs) = e.1.bytes + total_bytes txs

  pub record IsConsistent (m : Mempool env) : Type 0 where
    pub sorted_txs : IsSorted m.txs
    pub sorted_inputs : IsSorted m.inputs
    pub sorted_outputs : IsSorted m.outputs
    pub indexed_inputs : Indexes (input_ids env) m.txs m.inputs
    pub indexed_outputs : Indexes (output_ids env) m.txs m.outputs
    pub entries :
        (k : ℕ) (tx : Transaction env) → lookup k m.txs ≡ some tx → (tx.id ≡ k) × (tx.bytes < u32)
    pub counted : m.bytes ≡ total_bytes m.txs % u32

  total_bytes-insert :
      (k : ℕ) (tx : Transaction env) (txs : Map (Transaction env))
      → lookup k txs ≡ none
      → total_bytes (OrderedMap.insert k tx txs) ≡ total_bytes txs + tx.bytes
  unfolding total_bytes OrderedMap.insert
  total_bytes-insert k tx [] h = omega arith
  total_bytes-insert k tx (e ∷ txs) h = ground (arith, total_bytes-insert k tx txs)

  total_bytes-erase :
      (k : ℕ) (tx : Transaction env) (txs : Map (Transaction env))
      → lookup k txs ≡ some tx
      → total_bytes (OrderedMap.erase k txs) + tx.bytes ≡ total_bytes txs
  unfolding total_bytes OrderedMap.erase
  total_bytes-erase k tx [] h = absurd (ground arith)
  total_bytes-erase k tx (e ∷ txs) h = ground (arith, total_bytes-erase k tx txs)

  -- One map and the transactions, after a transaction with new identifiers has come.
  Indexes-insert :
      (f : Transaction env → List ℕ) (tx : Transaction env) (txs : Map (Transaction env))
      (m : Map ℕ)
      → IsSorted txs
      → IsSorted m
      → Indexes f txs m
      → lookup tx.id txs ≡ none
      → any_in (f tx) m ≡ false
      → Indexes f (OrderedMap.insert tx.id tx txs) (insert_all (f tx) tx.id m)
  Indexes-insert f tx txs m hs hm h new free x t = ground (
    arith,
    lookup-insert_all x (f tx) tx.id m hm,
    lookup-insert t tx.id tx txs hs,
    lookup-any_in x (f tx) m free,
    h x t,
    h x tx.id,
  )

  -- One map and the transactions, after a transaction of the map has gone.
  Indexes-erase :
      (f : Transaction env → List ℕ) (tx : Transaction env) (txs : Map (Transaction env))
      (m : Map ℕ)
      → IsSorted txs
      → IsSorted m
      → Indexes f txs m
      → lookup tx.id txs ≡ some tx
      → Indexes f (OrderedMap.erase tx.id txs) (erase_all (f tx) m)
  Indexes-erase f tx txs m hs hm h there x t =
      ground (arith, lookup-erase_all x (f tx) m hm, lookup-erase t tx.id txs hs, h x t, h x tx.id)

  -- The mempool starts consistent.
  pub empty_mempool-IsConsistent : IsConsistent (empty_mempool env)
  unfolding total_bytes
  empty_mempool-IsConsistent = record {
    sorted_txs = tt;
    sorted_inputs = tt;
    sorted_outputs = tt;
    indexed_inputs = λ x t. ground arith;
    indexed_outputs = λ x t. ground arith;
    entries = λ k tx e. absurd (ground arith);
    counted = refl;
  }

  module _ (tx : Transaction env) (m : Mempool env) (h : IsConsistent m) where
    -- The state that `insert` makes of `m` when nothing conflicts.
    unfoldable pub inserted : Mempool env
    inserted = record {
      txs = OrderedMap.insert tx.id tx m.txs;
      outputs = insert_all (output_ids env tx) tx.id m.outputs;
      inputs = insert_all (input_ids env tx) tx.id m.inputs;
      bytes = (m.bytes + tx.bytes) % u32;
    }

    -- `insert`, in a consistent mempool, refuses exactly a transaction whose identifier is there,
    -- or that has an input or touches an output in common with one that is there; it then changes
    -- nothing.
    pub insert_lem :
        let clash =
          contains tx.id m.txs
          || any_in (input_ids env tx) m.inputs
          || any_in (output_ids env tx) m.outputs in
        insert env tx m ≡ (if clash then (m, false) else (inserted, true))
    unfolding insert inserted
    insert_lem = rw (index_lem env tx _) (ground (arith, conflicts_lem env tx m))

    inserted-IsConsistent :
        tx.bytes < u32
        → lookup tx.id m.txs ≡ none
        → any_in (input_ids env tx) m.inputs ≡ false
        → any_in (output_ids env tx) m.outputs ≡ false
        → IsConsistent inserted
    unfolding inserted
    inserted-IsConsistent small new free_inputs free_outputs = record {
      sorted_txs = insert-IsSorted tx.id tx m.txs h.sorted_txs;
      sorted_inputs = insert_all-IsSorted (input_ids env tx) tx.id m.inputs h.sorted_inputs;
      sorted_outputs = insert_all-IsSorted (output_ids env tx) tx.id m.outputs h.sorted_outputs;
      indexed_inputs =
          Indexes-insert (input_ids env) tx m.txs m.inputs h.sorted_txs h.sorted_inputs
            h.indexed_inputs new free_inputs;
      indexed_outputs =
          Indexes-insert (output_ids env) tx m.txs m.outputs h.sorted_txs h.sorted_outputs
            h.indexed_outputs new free_outputs;
      entries = λ k t e. ground (arith, lookup-insert k tx.id tx m.txs h.sorted_txs, h.entries k t);
      counted = omega (arith, total_bytes-insert tx.id tx m.txs new, h.counted);
    }

    -- `insert` keeps a consistent mempool consistent, whether it takes the transaction or not, if
    -- the transaction's size is an `unsigned int`.
    pub insert-IsConsistent : tx.bytes < u32 → IsConsistent (insert env tx m).0
    insert-IsConsistent small =
        let known = contains tx.id m.txs in
        let spent = any_in (input_ids env tx) m.inputs in
        let made = any_in (output_ids env tx) m.outputs in
        elim (Bool-cases (known || spent || made)) [
          | inl clash ↦ rw (insert_lem, clash) h
          | inr free ↦
              rw (insert_lem, free)
                (inserted-IsConsistent small
                  (contains-eq-false tx.id m.txs
                    (or_false known spent (or_false (known || spent) made free).0).0)
                  (or_false known spent (or_false (known || spent) made free).0).1
                  (or_false (known || spent) made free).1)
        ]

    -- The state that `remove` makes of `m` if the transaction is there.
    unfoldable pub removed : Mempool env
    removed = record {
      txs = OrderedMap.erase tx.id m.txs;
      outputs = erase_all (output_ids env tx) m.outputs;
      inputs = erase_all (input_ids env tx) m.inputs;
      bytes = (m.bytes + u32 - tx.bytes) % u32;
    }

    pub remove_lem : remove env tx m ≡ (if contains tx.id m.txs then removed else m)
    unfolding remove removed
    remove_lem = rw (drop_lem env tx _)

    removed-IsConsistent : lookup tx.id m.txs ≡ some tx → IsConsistent removed
    unfolding removed
    removed-IsConsistent there = record {
      sorted_txs = erase-IsSorted tx.id m.txs h.sorted_txs;
      sorted_inputs = erase_all-IsSorted (input_ids env tx) m.inputs h.sorted_inputs;
      sorted_outputs = erase_all-IsSorted (output_ids env tx) m.outputs h.sorted_outputs;
      indexed_inputs =
          Indexes-erase (input_ids env) tx m.txs m.inputs h.sorted_txs h.sorted_inputs
            h.indexed_inputs there;
      indexed_outputs =
          Indexes-erase (output_ids env) tx m.txs m.outputs h.sorted_txs h.sorted_outputs
            h.indexed_outputs there;
      entries = λ k t e. ground (arith, lookup-erase k tx.id m.txs h.sorted_txs, h.entries k t);
      counted =
          omega (
            arith,
            total_bytes-erase tx.id tx m.txs there,
            h.counted,
            (h.entries tx.id tx there).1,
          );
    }

    -- What stands under the transaction's identifier, if anything, is the transaction.
    abbrev pub IsItself : Type 0
    IsItself = (lookup tx.id m.txs ≡ none) ⊎ (lookup tx.id m.txs ≡ some tx)

    -- `remove` keeps a consistent mempool consistent, if what stands under the identifier is the
    -- transaction, or nothing.
    pub remove-IsConsistent : IsItself → IsConsistent (remove env tx m)
    remove-IsConsistent (inl absent) = rw (remove_lem, lookup-eq-none tx.id m.txs absent) h
    remove-IsConsistent (inr there) =
        rw (remove_lem, lookup-eq-some tx.id m.txs there) (removed-IsConsistent there)

    pub lookup-remove :
        (k : ℕ) → lookup k (remove env tx m).txs ≡ (if k == tx.id then none else lookup k m.txs)
    unfolding removed
    lookup-remove k =
        rw remove_lem
          (ground (arith, lookup-erase k tx.id m.txs h.sorted_txs, contains-eq-false tx.id m.txs))
