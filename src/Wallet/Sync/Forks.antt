-- ===== src/Wallet/Sync/Forks.antt =====
-- The loop of `watchFunc` of src/client/wallet.cpp that takes back the blocks of a fork.
use crypto_kernel.Prelude.{
  ℕ, zero, suc, ◌<◌, ◌≡◌, refl, sym, ◌∙◌, subst, Bool, true, false, arith, Bool-cases, Option-cases,
  inl, inr, ◌==◌,
}
use crypto_kernel.Chain.{Tables, get_block_db}
use crypto_kernel.Chain.Build.{get_block}
use crypto_kernel.Env.{Env}
use crypto_kernel.Outcome.{
  Outcome, ok, invalid, not_found, uncaught, undefined, out_of_fuel, returned, ok-injective,
}
use crypto_kernel.Types.Block.{Block}
use crypto_kernel.Types.Stored.{DbBlock}
use crypto_kernel.Wallet.{Cipher, Wallet}
use crypto_kernel.Wallet.Sync.{
  block_transactions, tip_block, rewind_transactions, rewind_block, clear_db, is_forked,
  rewind_forks,
}

module _ (env : Env) (cipher : Cipher) (t : Tables env) where
  -- Parents are lower than their blocks, and a block that is put together has the stored height.
  pub record IsDescending : Type 0 where
    pub parent_below :
        (id : ℕ) (block : Block env) (parent : DbBlock env)
        → get_block env t id ≡ ok block
        → get_block_db env t block.fields.previous_block_id false ≡ ok parent
        → parent.height < block.fields.height
    pub same_height :
        (id : ℕ) (stored : DbBlock env) (block : Block env)
        → get_block_db env t id false ≡ ok stored
        → get_block env t stored.id ≡ ok block
        → block.fields.height ≡ stored.height

  -- The wallet's height is that of its tip.
  abbrev pub IsInStep : Wallet env cipher → Type 0
  IsInStep w =
      (block : Block env) → tip_block env cipher t w ≡ ok block → block.fields.height ≡ w.height

  tip_block-get_block :
      (w : Wallet env cipher) (block : Block env)
      → tip_block env cipher t w ≡ ok block
      → (id : ℕ) × (get_block env t id ≡ ok block)
  unfolding tip_block
  tip_block-get_block w block e = elim (Option-cases w.tip_id) [
    | inl absent ↦ absurd (ground arith)
    | inr (id, present) ↦ (id, ground arith)
  ]

  pub rewind_block-lower :
      (w w' : Wallet env cipher)
      → IsDescending
      → IsInStep w
      → rewind_block env cipher t w ≡ ok w'
      → (w'.height < w.height) × IsInStep w'
  unfolding rewind_block tip_block
  rewind_block-lower w w' descending in_step e =
      let (old_tip, rest, tip) = returned {result = w'} (tip_block env cipher t w) _ e in
      let (u, last, rewound) =
        returned {result = w'} (rewind_transactions env cipher t (block_transactions env old_tip) w)
          _ rest in
      let (new_tip, end, found) =
        returned {result = w'} (get_block_db env t old_tip.fields.previous_block_id false) _ last in
      let (id, got) = tip_block-get_block w old_tip tip in
      let below = descending.parent_below id old_tip new_tip got found in
      let at = in_step old_tip tip in
      subst (λ (v : Wallet env cipher). (v.height < w.height) × IsInStep v) (ok-injective end)
        (
          omega (arith, below, at),
          λ block again.
              descending.same_height old_tip.fields.previous_block_id new_tip block found again,
        )

  -- What a round does with what `rewindBlock` answers
  abbrev Agree : ℕ → Wallet env cipher → Wallet env cipher → Type 0
  Agree fuel committed w =
      rewind_forks env cipher t (suc fuel) committed w ≡ rewind_forks env cipher t fuel committed w

  abbrev AgreeOn : ℕ → Wallet env cipher → Outcome (Wallet env cipher) → Type 0
  AgreeOn fuel committed (ok w) = Agree fuel committed w
  AgreeOn fuel committed not_found =
      Agree fuel (clear_db env cipher committed) (clear_db env cipher committed)
  AgreeOn fuel committed _ = Unit {0}

  taken_back :
      (fuel : ℕ) (committed w : Wallet env cipher) (answer : Outcome (Wallet env cipher))
      → (w.height == 0) ≡ false
      → is_forked env cipher t w ≡ ok true
      → rewind_block env cipher t w ≡ answer
      → AgreeOn fuel committed answer
      → Agree (suc fuel) committed w
  unfolding rewind_forks
  taken_back fuel committed w (ok u) above forked e agree = ground (arith, above, forked, e, agree)
  taken_back fuel committed w not_found above forked e agree =
      ground (arith, above, forked, e, agree)
  taken_back fuel committed w (invalid message) above forked e agree =
      ground (arith, above, forked, e)
  taken_back fuel committed w uncaught above forked e agree = ground (arith, above, forked, e)
  taken_back fuel committed w undefined above forked e agree = ground (arith, above, forked, e)
  taken_back fuel committed w out_of_fuel above forked e agree = ground (arith, above, forked, e)

  not_taken :
      (fuel : ℕ) (committed w : Wallet env cipher) (forked : Outcome Bool)
      → is_forked env cipher t w ≡ forked
      → (forked ≡ ok true → Agree (suc fuel) committed w)
      → (w.height == 0) ≡ false
      → Agree (suc fuel) committed w
  unfolding rewind_forks
  not_taken fuel committed w (ok true) e taken above = taken refl
  not_taken fuel committed w (ok false) e taken above = ground (arith, above, e)
  not_taken fuel committed w not_found e taken above = ground (arith, above, e)
  not_taken fuel committed w (invalid message) e taken above = ground (arith, above, e)
  not_taken fuel committed w uncaught e taken above = ground (arith, above, e)
  not_taken fuel committed w undefined e taken above = ground (arith, above, e)
  not_taken fuel committed w out_of_fuel e taken above = ground (arith, above, e)

  pub at_genesis :
      (fuel : ℕ) (committed w : Wallet env cipher)
      → (w.height == 0) ≡ true
      → rewind_forks env cipher t (suc fuel) committed w ≡ ok w
  unfolding rewind_forks
  at_genesis fuel committed w bottom = ground (arith, bottom)

  pub cleared-IsInStep : (w : Wallet env cipher) → IsInStep (clear_db env cipher w)
  unfolding clear_db tip_block
  cleared-IsInStep w block e = absurd (ground arith)

  pub cleared_height : (w : Wallet env cipher) → (clear_db env cipher w).height ≡ 0
  unfolding clear_db
  cleared_height w = refl

  agree_on :
      (fuel : ℕ) (committed w : Wallet env cipher) (answer : Outcome (Wallet env cipher))
      → IsDescending
      → IsInStep w
      → w.height < suc fuel
      → (w.height == 0) ≡ false
      → ((c v : Wallet env cipher) → IsInStep v → v.height < fuel → Agree fuel c v)
      → rewind_block env cipher t w ≡ answer
      → AgreeOn fuel committed answer
  agree_on fuel committed w (ok u) descending in_step enough above below e =
      let (lower, step) = rewind_block-lower w u descending in_step e in
      below committed u step (omega arith)
  agree_on fuel committed w not_found descending in_step enough above below e =
      let cleared = clear_db env cipher committed in
      let bottom = cleared_height committed in
      below cleared cleared (cleared-IsInStep committed) (ground arith)
  agree_on fuel committed w (invalid message) descending in_step enough above below e = tt
  agree_on fuel committed w uncaught descending in_step enough above below e = tt
  agree_on fuel committed w undefined descending in_step enough above below e = tt
  agree_on fuel committed w out_of_fuel descending in_step enough above below e = tt

  -- One round of fuel more changes nothing, once there is more fuel than the wallet is high.
  pub rewind_forks-Agree :
      (fuel : ℕ) (committed w : Wallet env cipher)
      → IsDescending
      → IsInStep w
      → w.height < fuel
      → Agree fuel committed w
  rewind_forks-Agree zero committed w descending in_step enough = absurd (omega arith)
  rewind_forks-Agree (suc fuel) committed w descending in_step enough =
      elim (Bool-cases (w.height == 0)) [
        | inl bottom ↦
            at_genesis (suc fuel) committed w bottom ∙ sym (at_genesis fuel committed w bottom)
        | inr above ↦
            not_taken fuel committed w _ refl
              (λ forked. taken_back fuel committed w _ above forked refl (
                agree_on fuel committed w _ descending in_step enough above
                  (λ c v step lower. rewind_forks-Agree fuel c v descending step lower) refl))
              above
      ]
