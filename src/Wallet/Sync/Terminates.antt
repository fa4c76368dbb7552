-- ===== src/Wallet/Sync/Terminates.antt =====
-- The loop of `watchFunc` of src/client/wallet.cpp over forks ends, given more fuel than the wallet is
-- high.
use crypto_kernel.Prelude.{
  ℕ, zero, suc, ◌<◌, ◌≡◌, ◌∙◌, refl, sym, Bool, true, false, arith, Bool-cases, inl, inr, ◌==◌,
}
use crypto_kernel.Chain.{Tables}
use crypto_kernel.Env.{Env}
use crypto_kernel.Outcome.{Outcome, ok, invalid, not_found, uncaught, undefined, out_of_fuel}
use crypto_kernel.Outcome.Ends.{Ends, Ends-ok}
use crypto_kernel.Wallet.{Cipher, Wallet}
use crypto_kernel.Wallet.Sync.{rewind_block, clear_db, is_forked, rewind_forks}
use crypto_kernel.Wallet.Sync.Ends.{rewind_block-Ends, is_forked-Ends}
use crypto_kernel.Wallet.Sync.Forks.{
  IsDescending, IsInStep, rewind_block-lower, cleared-IsInStep, cleared_height, at_genesis,
}

module _ (env : Env) (cipher : Cipher) (t : Tables env) where
  -- What a round goes on with, if it goes on
  abbrev EndsOn : ℕ → Wallet env cipher → Outcome (Wallet env cipher) → Type 0
  EndsOn fuel committed (ok w) = Ends (rewind_forks env cipher t fuel committed w)
  EndsOn fuel committed not_found = Ends (
      rewind_forks env cipher t fuel (clear_db env cipher committed)
        (clear_db env cipher committed))
  EndsOn fuel committed _ = Unit {0}

  -- A round that takes a block back ends as the rounds after it do.
  forked-Ends :
      (fuel : ℕ) (committed w : Wallet env cipher) (answer : Outcome (Wallet env cipher))
      → (w.height == 0) ≡ false
      → is_forked env cipher t w ≡ ok true
      → rewind_block env cipher t w ≡ answer
      → Ends answer
      → EndsOn fuel committed answer
      → Ends (rewind_forks env cipher t (suc fuel) committed w)
  unfolding rewind_forks
  forked-Ends fuel committed w (ok u) above forked e ends go spent =
      go (ground (arith, above, forked, e, spent))
  forked-Ends fuel committed w not_found above forked e ends go spent =
      go (ground (arith, above, forked, e, spent))
  forked-Ends fuel committed w (invalid message) above forked e ends go spent =
      absurd (ground (arith, above, forked, e, spent))
  forked-Ends fuel committed w uncaught above forked e ends go spent =
      absurd (ground (arith, above, forked, e, spent))
  forked-Ends fuel committed w undefined above forked e ends go spent =
      absurd (ground (arith, above, forked, e, spent))
  forked-Ends fuel committed w out_of_fuel above forked e ends go spent = ends refl

  round-Ends :
      (fuel : ℕ) (committed w : Wallet env cipher) (forked : Outcome Bool)
      → (w.height == 0) ≡ false
      → is_forked env cipher t w ≡ forked
      → Ends forked
      → (forked ≡ ok true → Ends (rewind_forks env cipher t (suc fuel) committed w))
      → Ends (rewind_forks env cipher t (suc fuel) committed w)
  unfolding rewind_forks
  round-Ends fuel committed w (ok true) above e ends go spent = go refl spent
  round-Ends fuel committed w (ok false) above e ends go spent =
      absurd (ground (arith, above, e, spent))
  round-Ends fuel committed w (invalid message) above e ends go spent =
      absurd (ground (arith, above, e, spent))
  round-Ends fuel committed w not_found above e ends go spent =
      absurd (ground (arith, above, e, spent))
  round-Ends fuel committed w uncaught above e ends go spent =
      absurd (ground (arith, above, e, spent))
  round-Ends fuel committed w undefined above e ends go spent =
      absurd (ground (arith, above, e, spent))
  round-Ends fuel committed w out_of_fuel above e ends go spent = ends refl

  later-Ends :
      (fuel : ℕ) (committed w : Wallet env cipher) (answer : Outcome (Wallet env cipher))
      → IsDescending env cipher t
      → IsInStep env cipher t w
      → w.height < suc fuel
      → (w.height == 0) ≡ false
      → ((c v : Wallet env cipher)
          → IsInStep env cipher t v
          → v.height < fuel
          → Ends (rewind_forks env cipher t fuel c v))
      → rewind_block env cipher t w ≡ answer
      → EndsOn fuel committed answer
  later-Ends fuel committed w (ok u) descending in_step enough above below e =
      let (lower, step) = rewind_block-lower env cipher t w u descending in_step e in
      below committed u step (omega arith)
  later-Ends fuel committed w not_found descending in_step enough above below e =
      let cleared = clear_db env cipher committed in
      let bottom = cleared_height env cipher t committed in
      below cleared cleared (cleared-IsInStep env cipher t committed) (ground arith)
  later-Ends fuel committed w (invalid message) descending in_step enough above below e = tt
  later-Ends fuel committed w uncaught descending in_step enough above below e = tt
  later-Ends fuel committed w undefined descending in_step enough above below e = tt
  later-Ends fuel committed w out_of_fuel descending in_step enough above below e = tt

  -- More fuel than the wallet is high is enough.
  pub rewind_forks-Ends :
      (fuel : ℕ) (committed w : Wallet env cipher)
      → IsDescending env cipher t
      → IsInStep env cipher t w
      → w.height < fuel
      → Ends (rewind_forks env cipher t fuel committed w)
  rewind_forks-Ends zero committed w descending in_step enough = absurd (omega arith)
  rewind_forks-Ends (suc fuel) committed w descending in_step enough =
      elim (Bool-cases (w.height == 0)) [
        | inl bottom ↦
            λ spent. Ends-ok w (sym (at_genesis env cipher t fuel committed w bottom) ∙ spent)
        | inr above ↦
            round-Ends fuel committed w _ above refl (is_forked-Ends env cipher t w) (λ forked.
              forked-Ends fuel committed w _ above forked refl (rewind_block-Ends env cipher t w) (
                later-Ends fuel committed w _ descending in_step enough above
                  (λ c v step lower. rewind_forks-Ends fuel c v descending step lower) refl))
      ]
