-- ===== src/Consensus/Pow/Retarget/Targets.antt =====
-- The targets of `KGW_SHA256` of src/kernel/consensus/PoW.cpp: what a proper one is, and that averaging,
-- scaling and capping keep one proper.
use crypto_kernel.Prelude.{
  ℕ, zero, suc, ◌-◌, ◌*◌, ◌/◌, ◌^◌, ◌≤◌, ◌<◌, ◌≡◌, ◌≢◌, inl, inr, refl, ◌∙◌, ap, not, ◌&&◌, some,
  [], ◌∷◌, ◌==◌, if◌then◌else◌, arith, All, Bool-cases,
}
use crypto_kernel.Prelude.Int.{
  ℤ, pos, ◌-ℤ◌, ◌+ℤ◌, quotient, ltb_ℤ, mul_pos, quotient_pos, quotient_step,
}
use crypto_kernel.BigNum.Arithmetic.{
  plus-add, minus-sub, times-mul, divided_by-quotient, BnLib, IsExact, of_hex_string, plus, minus,
  times, divided_by, is_greater, is_greater-ltb,
}
use crypto_kernel.BigNum.ReadBack.{of_hex_string-to_hex}
use crypto_kernel.Chain.{Tables}
use crypto_kernel.Env.{Env}
use crypto_kernel.Hex.{IsHexDigit, of_hex_from, to_hex}
use crypto_kernel.OrderedMap.{lookup}
use crypto_kernel.Outcome.{ok}
use crypto_kernel.Types.Stored.{DbBlock}
use crypto_kernel.Consensus.Pow.{ConsensusData, get_consensus_data, digits_f}
use crypto_kernel.Consensus.Pow.Retarget.{
  Doubles, Scan, min_difficulty, next_average, measure, new_target,
}

-- The easiest target: 59 digits "f"
abbrev pub max_target : ℕ
max_target = 2 ^ 236 - 1

abbrev pub IsTarget : ℤ → Type 0
IsTarget z = (n : ℕ) × (z ≡ pos n) × (n ≤ max_target)

pub digits_f-IsHexDigit : (n : ℕ) → All IsHexDigit (digits_f n)
digits_f-IsHexDigit zero = tt
digits_f-IsHexDigit (suc n) = (omega arith, digits_f-IsHexDigit n)

digits_f_value : of_hex_from 0 (digits_f 59) ≡ max_target
unfolding of_hex_from
digits_f_value = refl

pub zero_value : of_hex_from 0 (b'0' ∷ []) ≡ 0
unfolding of_hex_from
zero_value = refl

module _ (env : Env) (bn : BnLib) where
  -- A stored block whose consensus data reads back, with a proper target and a total work that is not
  -- negative
  pub record HasTarget (block : DbBlock env) : Type 0 where
    pub found : ConsensusData env bn
    pub reads : get_consensus_data env bn block.consensus_data ≡ ok found
    pub proper : IsTarget found.target
    pub counted : (work : ℕ) × (found.total_work ≡ pos work)

  -- Every block of the main chain has a proper target, and but for the first a stored parent.
  pub record IsChained (t : Tables env) : Type 0 where
    pub has_target :
        (id : ℕ) (block : DbBlock env) → lookup id t.blocks ≡ some block → HasTarget block
    pub has_parent :
        (id : ℕ) (block : DbBlock env)
        → lookup id t.blocks ≡ some block
        → block.height ≢ 1
        → (parent : DbBlock env) × (lookup block.previous_block_id t.blocks ≡ some parent)

module _ (bn : BnLib) (exact : IsExact bn) where
  pub min_difficulty_value :
      (env : Env) (doubles : Doubles) (rate : ℕ)
      → min_difficulty env bn doubles rate ≡ pos max_target
  unfolding min_difficulty of_hex_string
  min_difficulty_value env doubles rate =
      exact.reads_digits b'f' (digits_f 58) (digits_f-IsHexDigit 59) ∙ ap pos digits_f_value

module _ (env : Env) (bn : BnLib) (doubles : Doubles) (rate : ℕ) (exact : IsExact bn) where
  pub average :
      (i a p : ℕ)
      → 0 < i
      → plus bn (divided_by bn (minus bn (pos a) (pos p)) (of_hex_string bn (to_hex i))) (pos p)
        ≡ quotient (pos a -ℤ pos p) i +ℤ pos p
  average i a p positive =
      rw
        (
          of_hex_string-to_hex bn exact i,
          minus-sub bn exact (pos a) (pos p),
          divided_by-quotient bn exact (pos a -ℤ pos p) i positive,
        )
        (plus-add bn exact _ _)

  next_average-IsTarget :
      (i : ℕ) (target previous : ℤ)
      → 0 < i
      → IsTarget target
      → IsTarget previous
      → IsTarget (next_average env bn doubles rate i target previous)
  unfolding next_average
  next_average-IsTarget i target previous positive (a, is_a, a_small) (p, is_p, p_small) =
      elim (Bool-cases (i == 1)) [
        | inl first ↦ rw (first, is_a) (a, refl, a_small)
        | inr later ↦
            rw (later, is_a, is_p, average i a p positive)
              (quotient_step a p i max_target a_small p_small)
      ]

  pub measure-IsTarget :
      (last i : ℕ) (s : Scan env bn doubles rate)
      → 0 < i
      → IsTarget s.current_data.target
      → IsTarget s.previous_difficulty_average
      → IsTarget (measure env bn doubles rate last i s).difficulty_average
  unfolding measure
  measure-IsTarget last i s positive target previous =
      next_average-IsTarget i s.current_data.target s.previous_difficulty_average positive target
        previous

  -- A number that is not negative stays so when it is scaled.
  scaled :
      (a r t : ℕ)
      → 0 < t
      → divided_by bn (times bn (pos a) (of_hex_string bn (to_hex r))) (of_hex_string bn (to_hex t))
        ≡ pos (a * r / t)
  scaled a r t positive =
      rw
        (
          of_hex_string-to_hex bn exact r,
          of_hex_string-to_hex bn exact t,
          times-mul bn exact (pos a) (pos r),
          mul_pos a r,
          divided_by-quotient bn exact (pos (a * r)) t positive,
        )
        (quotient_pos (a * r) t)

  capped :
      (n : ℕ)
      → IsTarget (
          if is_greater bn (pos n) (min_difficulty env bn doubles rate)
          then min_difficulty env bn doubles rate
          else pos n)
  capped n =
      rw
        (
          min_difficulty_value bn exact env doubles rate,
          is_greater-ltb bn exact (pos n) (pos max_target),
        )
        (elim (Bool-cases (ltb_ℤ (pos max_target) (pos n))) [
          | inl above ↦ rw above (max_target, refl, omega arith)
          | inr below ↦ rw below (n, refl, ground arith)
        ])

  pub new_target-IsTarget :
      (s : Scan env bn doubles rate)
      → IsTarget s.difficulty_average
      → IsTarget (new_target env bn doubles rate s)
  unfolding new_target
  new_target-IsTarget s (a, is_a, a_small) =
      elim (Bool-cases (not (s.actual_rate == 0) && not (s.target_rate == 0))) [
        | inl both ↦
            rw (both, is_a, scaled a s.actual_rate s.target_rate (ground arith))
              (capped (a * s.actual_rate / s.target_rate))
        | inr neither ↦ rw (neither, is_a) (capped a)
      ]
