-- ===== src/Wallet/Sync/Follows.antt =====
-- The loop of `watchFunc` of src/client/wallet.cpp gets to the tip of the chain.
use crypto_kernel.Prelude.{
  ℕ, zero, suc, ◌+◌, ◌<◌, ◌≤◌, ◌≡◌, refl, sym, ◌∙◌, ap, false, some, List, [], ◌∷◌, ◌⊎◌, arith,
  Bool-cases, inl, inr, ltb,
}
use crypto_kernel.Chain.{Tables}
use crypto_kernel.Chain.Build.{get_block_by_height}
use crypto_kernel.Env.{Env}
use crypto_kernel.Outcome.{ok}
use crypto_kernel.Types.Block.{Block}
use crypto_kernel.Types.Transaction.{Transaction}
use crypto_kernel.Wallet.{Cipher, Wallet}
use crypto_kernel.Wallet.Sync.{block_transactions, digest_transactions, digest_block, follow}
use crypto_kernel.Wallet.Sync.Returns.{AreOwned, AreFound, digest_tx-returns}

module _ (env : Env) (cipher : Cipher) (t : Tables env) where
  abbrev pub AreReadable : List (Transaction env) → Type 0
  AreReadable [] = Unit {0}
  AreReadable (tx ∷ txs) = AreFound env cipher t tx.outputs × AreReadable txs

  -- A block stands at every height up to `height`, with that height and with outputs of the chain.
  abbrev pub HasBlocks : ℕ → Type 0
  HasBlocks height =
      (h : ℕ)
      → h < height
      → (block : Block env) × (get_block_by_height env t (h + 1) ≡ ok block)
        × (block.fields.height ≡ h + 1)
        × AreReadable (block_transactions env block)

  digest_transactions-returns :
      (txs : List (Transaction env)) (w : Wallet env cipher)
      → AreReadable txs
      → AreOwned env cipher t w
      → (w' : Wallet env cipher) × (digest_transactions env cipher t false txs w ≡ ok w')
        × AreOwned env cipher t w'
  unfolding digest_transactions
  digest_transactions-returns [] w readable all = (w, refl, all)
  digest_transactions-returns (tx ∷ txs) w readable all =
      let (u, first, next) = digest_tx-returns env cipher t tx w readable.0 all in
      let (w', rest, last) = digest_transactions-returns txs u readable.1 next in
      (w', rw first rest, last)

  -- What a wallet has become that has digested a block.
  pub record HasDigested (block : Block env) (w' : Wallet env cipher) : Type 0 where
    pub height_is : w'.height ≡ block.fields.height
    pub tip_is : w'.tip_id ≡ some block.id
    pub all_owned : AreOwned env cipher t w'

  digest_block-returns :
      (block : Block env) (w : Wallet env cipher)
      → AreReadable (block_transactions env block)
      → AreOwned env cipher t w
      → (w' : Wallet env cipher) × (digest_block env cipher t block w ≡ ok w')
        × HasDigested block w'
  unfolding digest_block
  digest_block-returns block w readable all =
      let (u, first, next) =
        digest_transactions-returns (block_transactions env block) w readable all in
      (
        record u { height = block.fields.height; tip_id = some block.id },
        rw first refl,
        record {
          height_is = refl;
          tip_is = refl;
          all_owned = record { sorted = next.sorted; owned = next.owned };
        },
      )

  -- The wallet is where it was, at the height asked for, or has digested the block there last.
  pub record HasFollowed (height : ℕ) (w w' : Wallet env cipher) : Type 0 where
    pub height_is : w'.height ≡ height
    pub all_owned : AreOwned env cipher t w'
    pub tip_is :
        (w' ≡ w)
        ⊎ ((block : Block env) × (get_block_by_height env t height ≡ ok block)
            × (w'.tip_id ≡ some block.id))

  follow_step :
      (fuel height : ℕ) (w u : Wallet env cipher) (block : Block env)
      → w.height < height
      → get_block_by_height env t (w.height + 1) ≡ ok block
      → digest_block env cipher t block w ≡ ok u
      → follow env cipher t (suc fuel) height w ≡ follow env cipher t fuel height u
  unfolding follow
  follow_step fuel height w u block below got digested = ground (arith, below, got, digested)

  follow_done :
      (fuel height : ℕ) (w : Wallet env cipher)
      → w.height ≡ height
      → follow env cipher t fuel height w ≡ ok w
  unfolding follow
  follow_done zero height w there = ground (arith, there)
  follow_done (suc fuel) height w there = ground (arith, there)

  followed_next :
      (height : ℕ) (w u w' : Wallet env cipher) (block : Block env)
      → get_block_by_height env t (w.height + 1) ≡ ok block
      → block.fields.height ≡ w.height + 1
      → HasDigested block u
      → HasFollowed height u w'
      → HasFollowed height w w'
  followed_next height w u w' block got numbered done last = record {
    height_is = last.height_is;
    all_owned = last.all_owned;
    tip_is = elim last.tip_is [
      | inr at_tip ↦ inr at_tip
      | inl same ↦
          let here : w.height + 1 ≡ height =
            sym (done.height_is ∙ numbered) ∙ (ap (λ v. v.height) (sym same) ∙ last.height_is) in
          inr (
            block,
            ap (get_block_by_height env t) (sym here) ∙ got,
            ap (λ v. v.tip_id) same ∙ done.tip_is,
          )
    ];
  }

  -- Where a block stands at every height of the chain, with outputs of the chain, and every output that
  -- the wallet keeps is an output of the chain under one of its keys, the loop of `watchFunc` returns
  -- within as many rounds as the wallet is behind. The wallet is then at the height of the chain's tip,
  -- and its tip is the block there unless it has not changed; what it keeps is again of that kind.
  pub follow-HasFollowed :
      (fuel height : ℕ) (w : Wallet env cipher)
      → HasBlocks height
      → AreOwned env cipher t w
      → w.height ≤ height
      → height ≤ w.height + fuel
      → (w' : Wallet env cipher) × (follow env cipher t fuel height w ≡ ok w')
        × HasFollowed height w w'
  follow-HasFollowed zero height w blocks all behind enough =
      let there : w.height ≡ height = omega arith in
      (
        w,
        follow_done 0 height w there,
        record { height_is = there; all_owned = all; tip_is = inl refl },
      )
  follow-HasFollowed (suc fuel) height w blocks all behind enough =
      elim (Bool-cases (ltb w.height height)) [
        | inr reached ↦
            let there : w.height ≡ height = ground arith in
            (
              w,
              follow_done (suc fuel) height w there,
              record { height_is = there; all_owned = all; tip_is = inl refl },
            )
        | inl short ↦
            let below : w.height < height = ground arith in
            let (block, got, numbered, readable) = blocks w.height below in
            let (u, digested, done) = digest_block-returns block w readable all in
            let next : u.height ≡ w.height + 1 = done.height_is ∙ numbered in
            let (w', rest, last) =
              follow-HasFollowed fuel height u blocks done.all_owned (omega arith) (omega arith) in
            (
              w',
              follow_step fuel height w u block below got digested ∙ rest,
              followed_next height w u w' block got numbered done last,
            )
      ]
