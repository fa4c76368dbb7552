-- ===== src/Storage/Table.antt =====
-- `Storage::Table` of src/kernel/storage.cpp: the keys of several tables and of their indices in one
-- database. The parameter `index` is the source's `index + 1`, which is 0 for its default of -1.
use crypto_kernel.Prelude.{
  ℕ, ◌≡◌, ◌≢◌, refl, ◌∙◌, false, [], ◌∷◌, ◌++◌, arith, All, Bool-cases, inl, inr,
}
use crypto_kernel.BigNum.{Text}
use crypto_kernel.Decimal.{to_decimal, to_decimal-injective, to_decimal-IsDigit, IsDigit}
use crypto_kernel.Json.{JsonLib}
use crypto_kernel.Storage.{Storage, Transaction}
use crypto_kernel.Storage
use crypto_kernel.Storage.View
use crypto_kernel.KeyMap.{text_eq, text_eq→eq, text_eq_refl}

pub get_key : Text → ℕ → Text → Text
get_key table_name index key = table_name ++ (b'/' ∷ (to_decimal index ++ (b'/' ∷ key)))

module _ (lib : JsonLib) (table_name : Text) where
  open lib use {Json}

  pub put : Transaction lib → Text → Json → ℕ → Transaction lib
  put tx key json index = Storage.put lib (get_key table_name index key) json tx

  pub erase : Transaction lib → Text → ℕ → Transaction lib
  erase tx key index = Storage.erase lib (get_key table_name index key) tx

  pub get : Storage → Transaction lib → Text → ℕ → Json
  get s tx key index = Storage.get lib s tx (get_key table_name index key)

abbrev pub IsPlain : Text → Type 0
IsPlain = All (λ c. c ≢ b'/')

-- Two texts that are followed by their first slash.
split_at_slash :
    (s t a b : Text) → IsPlain s → IsPlain t → s ++ b'/' ∷ a ≡ t ++ b'/' ∷ b → (s ≡ t) × (a ≡ b)
split_at_slash [] [] a b hs ht e = (refl, cc)
split_at_slash [] (d ∷ t) a b hs ht e = absurd (ground arith)
split_at_slash (c ∷ s) [] a b hs ht e = absurd (ground arith)
split_at_slash (c ∷ s) (d ∷ t) a b hs ht e = ground (arith, split_at_slash s t a b hs.1 ht.1)

digits-IsPlain : (s : Text) → All IsDigit s → IsPlain s
digits-IsPlain [] h = tt
digits-IsPlain (c ∷ s) h = (omega arith, digits-IsPlain s h.1)

-- Tables whose names hold no slash do not share a key, nor do two indices or two keys of a table.
pub get_key-injective :
    (n m : Text) (i j : ℕ) (k q : Text)
    → IsPlain n
    → IsPlain m
    → get_key n i k ≡ get_key m j q
    → (n ≡ m) × (i ≡ j) × (k ≡ q)
unfolding get_key
get_key-injective n m i j k q hn hm e =
    let (names, rest) =
      split_at_slash n m (to_decimal i ++ (b'/' ∷ k)) (to_decimal j ++ (b'/' ∷ q)) hn hm e in
    let (numbers, keys) =
      split_at_slash (to_decimal i) (to_decimal j) k q
        (digits-IsPlain (to_decimal i) (to_decimal-IsDigit i))
        (digits-IsPlain (to_decimal j) (to_decimal-IsDigit j)) rest in
    (names, to_decimal-injective i j numbers, keys)

module _ (lib : JsonLib) (s : Storage) (tx : Transaction lib) where
  open lib use {Json}

  -- A table reads what was put under the same index and key. A write to another table, index or key
  -- changes nothing that it reads, if no table's name holds a slash.
  pub get-put :
      (n m : Text) (k q : Text) (i j : ℕ) (json : Json)
      → IsPlain n
      → IsPlain m
      → (get lib n s (put lib n tx k json i) k i ≡ json)
        × (¬ ((m ≡ n) × (j ≡ i) × (q ≡ k))
            → get lib m s (put lib n tx k json i) q j ≡ get lib m s tx q j)
  unfolding get put
  get-put n m k q i j json hn hm =
      let written = get_key n i k in
      let asked = get_key m j q in
      let apart : ¬ ((m ≡ n) × (j ≡ i) × (q ≡ k)) → text_eq asked written ≡ false = λ differ.
        elim (Bool-cases (text_eq asked written)) [
          | inl same ↦
              absurd (differ (get_key-injective m n j i q k hm hn (text_eq→eq asked written same)))
          | inr other ↦ other
        ] in
      (
        View.get-put lib s tx written json written ∙ rw (text_eq_refl written),
        λ differ. View.get-put lib s tx written json asked ∙ rw (apart differ),
      )
