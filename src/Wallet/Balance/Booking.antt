-- ===== src/Wallet/Balance/Booking.antt =====
-- One output that the wallet of src/client/wallet.cpp books or takes back keeps it consistent.
use crypto_kernel.Prelude.{
  ◌⊎◌, ℕ, ◌+◌, ◌-◌, ◌%◌, ◌<◌, ◌≡◌, refl, sym, ◌∙◌, ap, subst, Bool, true, false, none, some, arith,
  Option-cases, inl, inr, ◌==◌,
}
use crypto_kernel.Env.{Env}
use crypto_kernel.KeyMap.{KeyMap}
use crypto_kernel.KeyMap
use crypto_kernel.OrderedMap.{Map, IsSorted}
use crypto_kernel.OrderedMap
use crypto_kernel.OrderedMap.Laws.{
  lookup-erase, lookup-assign, erase-IsSorted, assign-IsSorted, assign_cases,
}
use crypto_kernel.Outcome.{ok, or_throws, returned, or_throws-some}
use crypto_kernel.Types.{Output, public_key_name}
use crypto_kernel.Types.Transaction.{u64}
use crypto_kernel.Wallet.{
  Cipher, Txo, Account, Wallet, get_account_by_key, credit, debit, owner_or_throw, owner,
  digest_output,
}
use crypto_kernel.Wallet.Balance.{
  coins, coins-erase, coins-assign, balances, balances-assign, IsNamed, IsBooked, assign-IsNamed,
  get_account_by_key-stored,
}

-- The two sums after a debit and after a credit, in 64 bits
debit_sums :
    (b b' c c' balance value : ℕ)
    → b % u64 ≡ c % u64
    → b' + balance ≡ b + (balance + u64 - value) % u64
    → c' + value ≡ c
    → value < u64
    → b' % u64 ≡ c' % u64
debit_sums b b' c c' balance value before booked erased small = omega arith

credit_sums :
    (b b' c balance value : ℕ)
    → b % u64 ≡ c % u64
    → b' + balance ≡ b + (balance + value) % u64
    → b' % u64 ≡ (c + value) % u64
credit_sums b b' c balance value before booked = omega arith

module _ (env : Env) (cipher : Cipher) (Stands : ℕ → ℕ → Type 0)
    (small : (id value : ℕ) → Stands id value → value < u64) where
  pub spend-IsBooked :
      (w : Wallet env cipher) (id : ℕ) (txo : Txo) (a : Account env cipher)
      → IsBooked env cipher Stands w
      → OrderedMap.lookup id w.utxos ≡ some txo
      → KeyMap.lookup a.name w.accounts ≡ some a
      → IsBooked env cipher Stands
          (debit env cipher a txo.value (record w { utxos = OrderedMap.erase id w.utxos }))
  unfolding debit
  spend-IsBooked w id txo a consistent kept stands =
      let b = record a { balance = (a.balance + u64 - txo.value) % u64 } in
      record {
        names = assign-IsNamed env cipher w.accounts w.key_names a b stands refl consistent.names;
        sorted = erase-IsSorted id w.utxos consistent.sorted;
        valued = λ j other found.
            consistent.valued j other (ground (arith, lookup-erase j id w.utxos consistent.sorted));
        balanced =
            debit_sums (balances env cipher w.accounts) _ (coins w.utxos)
              (coins (OrderedMap.erase id w.utxos)) a.balance txo.value consistent.balanced
              (balances-assign env cipher a.name w.accounts a b stands)
              (coins-erase id w.utxos txo kept)
              (small id txo.value (consistent.valued id txo kept));
      }

  pub keep-IsBooked :
      (w : Wallet env cipher) (out : Output env) (a : Account env cipher)
      → IsBooked env cipher Stands w
      → OrderedMap.lookup out.id w.utxos ≡ none
      → Stands out.id out.value
      → KeyMap.lookup a.name w.accounts ≡ some a
      → IsBooked env cipher Stands (
          let w' = credit env cipher a out.value w in
          record w' {
            utxos = OrderedMap.assign out.id (record { spent = false; value = out.value }) w'.utxos;
          })
  unfolding credit
  keep-IsBooked w out a consistent absent of_chain stands =
      let b = record a { balance = (a.balance + out.value) % u64 } in
      let txo : Txo = record { spent = false; value = out.value } in
      record {
        names = assign-IsNamed env cipher w.accounts w.key_names a b stands refl consistent.names;
        sorted = assign-IsSorted out.id txo w.utxos consistent.sorted;
        valued = λ j other found. elim (assign_cases j out.id txo other w.utxos found) [
          | inl (here, same) ↦
              subst (λ k. Stands k other.value) (sym here)
                (subst (λ (o : Txo). Stands out.id o.value) same of_chain)
          | inr before ↦ consistent.valued j other before
        ];
        balanced = rw (coins-assign out.id w.utxos txo absent) (
            credit_sums (balances env cipher w.accounts) _ (coins w.utxos) a.balance out.value
              consistent.balanced (balances-assign env cipher a.name w.accounts a b stands));
      }

module _ (env : Env) (cipher : Cipher) where
  open env.json use {member, as_text}

  -- The account that a call found stands under its name.
  pub owner_or_throw-stored :
      (w : Wallet env cipher) (out : Output env) (a : Account env cipher)
      → IsNamed env cipher w.accounts w.key_names
      → owner_or_throw env cipher w out ≡ ok a
      → KeyMap.lookup a.name w.accounts ≡ some a
  unfolding owner_or_throw
  owner_or_throw-stored w out a names e =
      let (key, rest, is_key) =
        returned {result = a} (or_throws (as_text (member out.content public_key_name))) _ e in
      get_account_by_key-stored env cipher w key a names
        (or_throws-some (get_account_by_key env cipher w key) rest)

  pub owner-stored :
      (w : Wallet env cipher) (out : Output env) (a : Account env cipher)
      → IsNamed env cipher w.accounts w.key_names
      → owner env cipher w out ≡ some a
      → KeyMap.lookup a.name w.accounts ≡ some a
  unfolding owner
  owner-stored w out a names e =
      elim (Option-cases (as_text (member out.content public_key_name))) [
        | inl absent ↦ absurd (ground arith)
        | inr (key, is_key) ↦ get_account_by_key-stored env cipher w key a names (ground arith)
      ]

  -- What a round leaves of the outputs that are kept
  abbrev pub Spends : ℕ → Wallet env cipher → Wallet env cipher → Type 0
  Spends id w w' = (w'.utxos ≡ w.utxos) ⊎ (w'.utxos ≡ OrderedMap.erase id w.utxos)

  pub digest_output-foreign :
      (out : Output env) (track : Bool) (w : Wallet env cipher)
      → owner env cipher w out ≡ none
      → digest_output env cipher false out track w ≡ (track, w)
  unfolding digest_output
  digest_output-foreign out track w foreign = ground (arith, foreign)

  -- The wallet once an output is booked
  abbrev pub with_output : Output env → Account env cipher → Wallet env cipher → Wallet env cipher
  with_output out a w =
      let w' = credit env cipher a out.value w in
      record w' {
        utxos = OrderedMap.assign out.id (record { spent = false; value = out.value }) w'.utxos;
      }

  pub digest_output-owned :
      (out : Output env) (track : Bool) (w : Wallet env cipher) (a : Account env cipher)
      → owner env cipher w out ≡ some a
      → digest_output env cipher false out track w ≡ (true, with_output out a w)
  unfolding digest_output
  digest_output-owned out track w a owned = ground (arith, owned)

  pub with_output-absent :
      (out : Output env) (a : Account env cipher) (w : Wallet env cipher) (j : ℕ)
      → (j == out.id) ≡ false
      → OrderedMap.lookup j w.utxos ≡ none
      → OrderedMap.lookup j (with_output out a w).utxos ≡ none
  unfolding credit
  with_output-absent out a w j other before =
      let txo : Txo = record { spent = false; value = out.value } in
      ground (arith, lookup-assign j out.id txo w.utxos)

  -- An output that is not kept is not kept after the loop either.
  pub Spends-absent :
      (id j : ℕ) (w w' : Wallet env cipher)
      → IsSorted w.utxos
      → Spends id w w'
      → OrderedMap.lookup j w.utxos ≡ none
      → OrderedMap.lookup j w'.utxos ≡ none
  Spends-absent id j w w' sorted (inl same) absent = ap (OrderedMap.lookup j) same ∙ absent
  Spends-absent id j w w' sorted (inr erased) absent =
      ap (OrderedMap.lookup j) erased ∙ ground (arith, lookup-erase j id w.utxos sorted)
