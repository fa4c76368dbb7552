-- ===== src/Consensus/Pow/Retarget/Bounds.antt =====
-- What `KGW_SHA256::calculateTarget` of src/kernel/consensus/PoW.cpp returns on a chain whose stored
-- blocks carry proper targets: the scan ends, and the target is one again.
use crypto_kernel.Prelude.{
  ℕ, zero, suc, ◌+◌, ◌%◌, ◌≤◌, ◌<◌, ◌≡◌, ◌≢◌, inl, inr, refl, ◌∙◌, ap, false, not, ◌||◌, some, [],
  ltb, ◌==◌, arith, Bool-cases,
}
use crypto_kernel.Prelude.Int.{ℤ, pos}
use crypto_kernel.BigNum.Arithmetic.{BnLib, IsExact, of_hex_string}
use crypto_kernel.Chain.{Tables, get_block_db, get_block_db-stored}
use crypto_kernel.Env.{Env}
use crypto_kernel.OrderedMap.{lookup}
use crypto_kernel.Outcome.{Outcome, ok, ◌>>=◌}
use crypto_kernel.Types.Stored.{DbBlock}
use crypto_kernel.Consensus.Pow.{get_consensus_data}
use crypto_kernel.Consensus.Pow.Retarget.{
  Doubles, Scan, min_blocks, max_blocks, measure, leaves_horizon, scan, new_target, start_scan,
  calculate_target,
}
use crypto_kernel.Consensus.Pow.Retarget.Targets.{
  max_target, IsTarget, HasTarget, IsChained, min_difficulty_value, measure-IsTarget,
  new_target-IsTarget, zero_value,
}

module _ (env : Env) (bn : BnLib) (doubles : Doubles) (rate : ℕ) (exact : IsExact bn) where
  module _ (t : Tables env) (chained : IsChained env bn t) where
    -- A state of the scan: its block is stored, and the numbers are targets.
    record IsGood (s : Scan env bn doubles rate) : Type 0 where
      id : ℕ
      is_stored : lookup id t.blocks ≡ some s.current_block
      target : IsTarget s.current_data.target
      previous : IsTarget s.previous_difficulty_average
      average_so_far : IsTarget s.difficulty_average

    abbrev Ends : Outcome (Scan env bn doubles rate) → Type 0
    Ends call = (s : Scan env bn doubles rate) × (call ≡ ok s) × IsTarget s.difficulty_average

    -- The end of the loop's body: the block below is read, and the scan goes on with it.
    descend-Ends :
        (m : Scan env bn doubles rate) (id : ℕ)
        (next : Scan env bn doubles rate → Outcome (Scan env bn doubles rate))
        → lookup id t.blocks ≡ some m.current_block
        → m.current_block.height ≢ 1
        → IsTarget m.difficulty_average
        → IsTarget m.previous_difficulty_average
        → ((s : Scan env bn doubles rate) → IsGood s → Ends (next s))
        → Ends (
            get_block_db env t m.current_block.previous_block_id false >>= λ block.
            get_consensus_data env bn block.consensus_data >>= λ block_data.
            next (record m { current_block = block; current_data = block_data }))
    descend-Ends m id next stored below average_good previous_good ends =
        let (parent, found) = chained.has_parent id m.current_block stored below in
        let data_found = chained.has_target m.current_block.previous_block_id parent found in
        rw (get_block_db-stored env t _ false parent found, data_found.reads)
          (ends (record m { current_block = parent; current_data = data_found.found })
            (record {
              id = m.current_block.previous_block_id;
              is_stored = found;
              target = data_found.proper;
              previous = previous_good;
              average_so_far = average_good;
            }))

    scan-Ends :
        (fuel last i : ℕ) (s : Scan env bn doubles rate)
        → 0 < i
        → i ≤ max_blocks + 1
        → max_blocks + 1 < fuel + i
        → IsGood s
        → Ends (scan env bn doubles rate fuel last i t s)
    unfolding scan measure
    scan-Ends zero last i s positive within enough good = absurd (omega arith)
    scan-Ends (suc fuel) last i s positive within enough good =
        let m = measure env bn doubles rate last i s in
        let averaged =
          measure-IsTarget env bn doubles rate exact last i s positive good.target good.previous in
        elim (Bool-cases (s.current_block.height == 1 || ltb max_blocks i)) [
          | inl at_end ↦ rw at_end (s, refl, good.average_so_far)
          | inr inside ↦
              elim (Bool-cases
                (leaves_horizon env bn doubles rate m || m.current_block.height == 1)) [
                  | inl left ↦ rw (inside, left) (m, refl, averaged)
                  | inr stays ↦
                      rw (inside, stays)
                        (descend-Ends m good.id (scan env bn doubles rate fuel last (i + 1) t)
                          good.is_stored (ground arith) averaged averaged
                          (λ s' good'.
                            scan-Ends fuel last (i + 1) s' (omega arith) (ground arith)
                              (omega arith) good'))
                ]
        ]

    abbrev Retargets : Outcome ℤ → Type 0
    Retargets call = (target : ℕ) × (call ≡ ok (pos target)) × (target ≤ max_target)

    IsTarget-Retargets : {z : ℤ} → IsTarget z → Retargets (ok z)
    IsTarget-Retargets (n, is_n, small) = (n, ap ok is_n, small)

    scan-Retargets :
        (call : Outcome (Scan env bn doubles rate))
        → Ends call
        → Retargets (call >>= λ s. ok (new_target env bn doubles rate s))
    scan-Retargets call (s, returns, good) =
        rw returns (IsTarget-Retargets (new_target-IsTarget env bn doubles rate exact s good))

    start-IsGood :
        (id : ℕ) (block : DbBlock env) (found : HasTarget env bn block)
        → lookup id t.blocks ≡ some block
        → IsGood (start_scan env bn doubles rate block found.found)
    unfolding start_scan of_hex_string
    start-IsGood id block found stored =
        let zero_read = exact.reads_digits b'0' [] (omega arith) ∙ ap pos zero_value in
        record {
          id = id;
          is_stored = stored;
          target = found.proper;
          previous = (0, zero_read, omega arith);
          average_so_far = (0, zero_read, omega arith);
        }

    -- On a chain whose blocks all carry proper targets, `calculateTarget` for a block on top of a
    -- stored one returns: its loop ends within 4033 rounds. The target is not negative and at most
    -- the number that 59 digits "f" write.
    pub calculate_target-IsTarget :
        (id : ℕ) (block : DbBlock env)
        → lookup id t.blocks ≡ some block
        → (target : ℕ) × (calculate_target env bn doubles rate t id ≡ ok (pos target))
          × (target ≤ max_target)
    unfolding calculate_target
    calculate_target-IsTarget id block stored =
        let found = chained.has_target id block stored in
        rw (get_block_db-stored env t id false block stored, found.reads)
          (elim (Bool-cases (ltb block.height min_blocks)) [
            | inl young ↦
                rw (young, min_difficulty_value bn exact env doubles rate)
                  (max_target, refl, omega arith)
            | inr old ↦ elim (Bool-cases (not (block.height % 12 == 0))) [
              | inl between ↦ rw (old, between) (IsTarget-Retargets found.proper)
              | inr due ↦
                  rw (old, due)
                    (scan-Retargets _ (
                      scan-Ends (max_blocks + 1) block.timestamp 1 _ (omega arith) (omega arith)
                        (omega arith) (start-IsGood id block found stored)))
            ]
          ])
