-- ===== src/Chain/Submit/Pool.antt =====
-- What `submitTransaction` of src/kernel/blockchain.cpp does to the mempool.
use crypto_kernel.Prelude.{
  ◌<◌, ◌≡◌, ◌∙◌, sym, ap, subst, Bool, true, false, ◌⊎◌, inl, inr, Bool-cases, arith,
}
use crypto_kernel.Env.{Env}
use crypto_kernel.Mempool
use crypto_kernel.Mempool.Consistent.{IsConsistent, insert_lem, insert-IsConsistent}
use crypto_kernel.Outcome.{ok, returned}
use crypto_kernel.Types.Transaction.{Transaction, u32}
use crypto_kernel.Chain.{Chain, Rules}
use crypto_kernel.Chain.Verify.{Verdict, verify_transaction}
use crypto_kernel.Chain.Submit.{submit_transaction}

module _ (env : Env) (rules : Rules env) where
  submitted :
      (tx : Transaction env) (chain chain' : Chain env) (verdict : Verdict)
      → submit_transaction env rules tx chain ≡ ok (chain', verdict)
      → ((chain' ≡ chain) × (verdict.0 ≡ false))
        ⊎ ((chain' ≡ record chain { unconfirmed = (Mempool.insert env tx chain.unconfirmed).0 })
            × (verdict.0 ≡ (Mempool.insert env tx chain.unconfirmed).1)
            × ((ban : Bool) × (verify_transaction env rules chain.tables tx false
                  ≡ ok (true, ban))))
  unfolding submit_transaction
  submitted tx chain chain' verdict e =
      let (first, rest, verified) =
        returned {result = (chain', verdict)} (verify_transaction env rules chain.tables tx false) _
          e in
      elim (Bool-cases first.0) [
        | inr bad ↦ inl (ground arith, ground arith)
        | inl good ↦ elim (Bool-cases (rules.submits_transaction chain.tables tx)) [
          | inr bad ↦ inl (ground arith, ground arith)
          | inl fine ↦ inr (ground arith, ground arith, (first.1, ground (arith, verified)))
        ]
      ]

  refused_same :
      (tx : Transaction env) (chain : Chain env)
      → IsConsistent env chain.unconfirmed
      → (Mempool.insert env tx chain.unconfirmed).1 ≡ false
      → record chain { unconfirmed = (Mempool.insert env tx chain.unconfirmed).0 } ≡ chain
  refused_same tx chain h kept =
      ap (λ m. record chain { unconfirmed = m })
        (ground (arith, insert_lem env tx chain.unconfirmed h))

  -- `submitTransaction` keeps a consistent mempool consistent and changes no table, if the
  -- transaction's size is an `unsigned int`; it accepts only a transaction that `verifyTransaction`
  -- accepts and that `insert` takes, and what it refuses leaves the chain as it was.
  pub submit_transaction-IsConsistent :
      (tx : Transaction env) (chain chain' : Chain env) (verdict : Verdict)
      → tx.bytes < u32
      → IsConsistent env chain.unconfirmed
      → submit_transaction env rules tx chain ≡ ok (chain', verdict)
      → IsConsistent env chain'.unconfirmed
        × (chain'.tables ≡ chain.tables)
        × (verdict.0 ≡ true
            → ((ban : Bool) × (verify_transaction env rules chain.tables tx false ≡ ok (true, ban)))
              × ((Mempool.insert env tx chain.unconfirmed).1 ≡ true))
        × (verdict.0 ≡ false → chain' ≡ chain)
  submit_transaction-IsConsistent tx chain chain' verdict small h e =
      elim (submitted tx chain chain' verdict e) [
        | inl (same, refused) ↦ (
          subst (λ c. IsConsistent env c.unconfirmed) (sym same) h,
          ap (λ c. c.tables) same,
          λ took. absurd (ground arith),
          λ kept. same,
        )
        | inr (new, took, verified) ↦ (
          subst (λ c. IsConsistent env c.unconfirmed) (sym new)
              (insert-IsConsistent env tx chain.unconfirmed h small),
          ap (λ c. c.tables) new,
          λ passed. (verified, sym took ∙ passed),
          λ kept. new ∙ refused_same tx chain h (sym took ∙ kept),
        )
      ]
