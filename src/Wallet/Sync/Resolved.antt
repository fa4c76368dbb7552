-- ===== src/Wallet/Sync/Resolved.antt =====
-- The loop of `watchFunc` of src/client/wallet.cpp over forks ends on the chain.
use crypto_kernel.Prelude.{
  ℕ, zero, suc, ◌+◌, ◌≡◌, ◌≢◌, refl, sym, ◌∙◌, ap, Bool, true, false, ◌⊎◌, arith, Bool-cases, inl,
  inr, ◌==◌, ==→eq,
}
use crypto_kernel.Chain.{Tables}
use crypto_kernel.Env.{Env}
use crypto_kernel.Outcome.{
  Outcome, ok, invalid, not_found, uncaught, undefined, out_of_fuel, ok-injective,
}
use crypto_kernel.Wallet.{Cipher, Wallet}
use crypto_kernel.Wallet.Sync.{rewind_block, clear_db, is_forked, rewind_forks}
use crypto_kernel.Wallet.Sync.Forks.{IsDescending, IsInStep, rewind_forks-Agree}
use crypto_kernel.Wallet.Sync.Terminates.{rewind_forks-Ends}

module _ (env : Env) (cipher : Cipher) (t : Tables env) where
  -- The wallet is at height 0, or its tip stands at its height on the chain.
  abbrev pub IsResolved : Wallet env cipher → Type 0
  IsResolved w = (w.height ≡ 0) ⊎ (is_forked env cipher t w ≡ ok false)

  abbrev Resolves : ℕ → Wallet env cipher → Wallet env cipher → Type 0
  Resolves fuel committed w =
      (w' : Wallet env cipher) → rewind_forks env cipher t fuel committed w ≡ ok w' → IsResolved w'

  abbrev ResolvesOn : ℕ → Wallet env cipher → Outcome (Wallet env cipher) → Type 0
  ResolvesOn fuel committed (ok w) = Resolves fuel committed w
  ResolvesOn fuel committed not_found =
      Resolves fuel (clear_db env cipher committed) (clear_db env cipher committed)
  ResolvesOn fuel committed _ = Unit {0}

  resolved_back :
      (fuel : ℕ) (committed w : Wallet env cipher) (answer : Outcome (Wallet env cipher))
      → (w.height == 0) ≡ false
      → is_forked env cipher t w ≡ ok true
      → rewind_block env cipher t w ≡ answer
      → ResolvesOn fuel committed answer
      → Resolves (suc fuel) committed w
  unfolding rewind_forks
  resolved_back fuel committed w (ok u) above forked e go w' done =
      go w' (ground (arith, above, forked, e, done))
  resolved_back fuel committed w not_found above forked e go w' done =
      go w' (ground (arith, above, forked, e, done))
  resolved_back fuel committed w (invalid message) above forked e go w' done =
      absurd (ground (arith, above, forked, e, done))
  resolved_back fuel committed w uncaught above forked e go w' done =
      absurd (ground (arith, above, forked, e, done))
  resolved_back fuel committed w undefined above forked e go w' done =
      absurd (ground (arith, above, forked, e, done))
  resolved_back fuel committed w out_of_fuel above forked e go w' done =
      absurd (ground (arith, above, forked, e, done))

  resolved_here :
      (fuel : ℕ) (committed w : Wallet env cipher) (forked : Outcome Bool)
      → is_forked env cipher t w ≡ forked
      → (forked ≡ ok true → Resolves (suc fuel) committed w)
      → (w.height == 0) ≡ false
      → Resolves (suc fuel) committed w
  unfolding rewind_forks
  resolved_here fuel committed w (ok true) e go above w' done = go refl w' done
  resolved_here fuel committed w (ok false) e go above w' done =
      let same : w ≡ w' = ok-injective (ground (arith, above, e, done)) in
      inr (ap (is_forked env cipher t) (sym same) ∙ e)
  resolved_here fuel committed w not_found e go above w' done =
      absurd (ground (arith, above, e, done))
  resolved_here fuel committed w (invalid message) e go above w' done =
      absurd (ground (arith, above, e, done))
  resolved_here fuel committed w uncaught e go above w' done =
      absurd (ground (arith, above, e, done))
  resolved_here fuel committed w undefined e go above w' done =
      absurd (ground (arith, above, e, done))
  resolved_here fuel committed w out_of_fuel e go above w' done =
      absurd (ground (arith, above, e, done))

  resolves_on :
      (fuel : ℕ) (committed w : Wallet env cipher) (answer : Outcome (Wallet env cipher))
      → ((c v : Wallet env cipher) → Resolves fuel c v)
      → ResolvesOn fuel committed answer
  resolves_on fuel committed w (ok u) go = go committed u
  resolves_on fuel committed w not_found go =
      go (clear_db env cipher committed) (clear_db env cipher committed)
  resolves_on fuel committed w (invalid message) go = tt
  resolves_on fuel committed w uncaught go = tt
  resolves_on fuel committed w undefined go = tt
  resolves_on fuel committed w out_of_fuel go = tt

  at_bottom :
      (fuel : ℕ) (committed w : Wallet env cipher)
      → (w.height == 0) ≡ true
      → Resolves (suc fuel) committed w
  unfolding rewind_forks
  at_bottom fuel committed w bottom w' done =
      let same : w ≡ w' = ok-injective (ground (arith, bottom, done)) in
      inl (ap (λ v. v.height) (sym same) ∙ ==→eq w.height 0 bottom)

  nothing_resolved : (committed w : Wallet env cipher) → Resolves 0 committed w
  unfolding rewind_forks
  nothing_resolved committed w w' done = absurd (ground (arith, done))

  rewind_forks-Resolves : (fuel : ℕ) (committed w : Wallet env cipher) → Resolves fuel committed w
  rewind_forks-Resolves zero committed w = nothing_resolved committed w
  rewind_forks-Resolves (suc fuel) committed w = elim (Bool-cases (w.height == 0)) [
    | inl bottom ↦ at_bottom fuel committed w bottom
    | inr above ↦
        resolved_here fuel committed w _ refl
          (λ forked.
            resolved_back fuel committed w _ above forked refl
              (resolves_on fuel committed w _ (rewind_forks-Resolves fuel)))
          above
  ]

  rewind_forks-more :
      (extra : ℕ) (committed w : Wallet env cipher)
      → IsDescending env cipher t
      → IsInStep env cipher t w
      → rewind_forks env cipher t (extra + (w.height + 1)) committed w
        ≡ rewind_forks env cipher t (w.height + 1) committed w
  rewind_forks-more zero committed w descending in_step =
      ap (λ n. rewind_forks env cipher t n committed w)
        (let same : 0 + (w.height + 1) ≡ w.height + 1 = omega arith in same)
  rewind_forks-more (suc extra) committed w descending in_step =
      let one_more : suc extra + (w.height + 1) ≡ suc (extra + (w.height + 1)) = omega arith in
      ap (λ n. rewind_forks env cipher t n committed w) one_more
      ∙ (rewind_forks-Agree env cipher t (extra + (w.height + 1)) committed w descending in_step
            (omega arith)
          ∙ rewind_forks-more extra committed w descending in_step)

  -- Where parents are lower than their blocks and the wallet's height is that of its tip, the loop over
  -- forks ends within one round more than the wallet is high: with that fuel it never runs out, and more
  -- fuel gives the same result. If it returns, the wallet is at height 0, as after `clearDB`, or its
  -- tip is the block of the chain at its height.
  pub rewind_forks-IsResolved :
      (extra : ℕ) (committed w : Wallet env cipher)
      → IsDescending env cipher t
      → IsInStep env cipher t w
      → (rewind_forks env cipher t (w.height + 1) committed w ≢ out_of_fuel)
        × (rewind_forks env cipher t (extra + (w.height + 1)) committed w
            ≡ rewind_forks env cipher t (w.height + 1) committed w)
        × ((w' : Wallet env cipher)
            → rewind_forks env cipher t (w.height + 1) committed w ≡ ok w'
            → IsResolved w')
  rewind_forks-IsResolved extra committed w descending in_step = (
    rewind_forks-Ends env cipher t (w.height + 1) committed w descending in_step (omega arith),
    rewind_forks-more extra committed w descending in_step,
    rewind_forks-Resolves (w.height + 1) committed w,
  )
