-- ===== src/OrderedMap/Laws.antt =====
-- What a lookup sees after each operation of the ordered map, and that the order is kept.
use crypto_kernel.Prelude.{
  ◌⊎◌, inl, inr, Bool-cases, ==→eq, ap, ℕ, ◌<◌, ◌≡◌, refl, Option, none, some, [], ◌∷◌, ◌==◌,
  if◌then◌else◌, arith, true, false,
}
use crypto_kernel.OrderedMap.{Map, lookup, contains, insert, assign, erase, Above, IsSorted}

abbrev pub or_else {ℓ} : {V : Type ℓ} → Option V → V → V
or_else none v = v
or_else (some w) v = w

module _ {V : Type 0} where
  pub Above-trans : (j k : ℕ) (m : Map V) → j < k → Above k m → Above j m
  Above-trans j k [] h a = tt
  Above-trans j k (e ∷ m) h a = (omega arith, Above-trans j k m h a.1)

  pub lookup-Above : (k : ℕ) (m : Map V) → Above k m → lookup k m ≡ none
  lookup-Above k [] a = refl
  lookup-Above k (e ∷ m) a = ground (arith, lookup-Above k m a.1)

  pub lookup_below : (j k : ℕ) (m : Map V) → j < k → Above k m → lookup j m ≡ none
  lookup_below j k m h a = lookup-Above j m (Above-trans j k m h a)

  pub Above-insert : (j k : ℕ) (v : V) (m : Map V) → j < k → Above j m → Above j (insert k v m)
  unfolding insert
  Above-insert j k v [] h a = (h, tt)
  Above-insert j k v (e ∷ m) h a = ground (arith, Above-insert j k v m h a.1)

  pub insert-IsSorted : (k : ℕ) (v : V) (m : Map V) → IsSorted m → IsSorted (insert k v m)
  unfolding insert
  insert-IsSorted k v [] s = (tt, tt)
  insert-IsSorted k v (e ∷ m) s =
      ground (arith, insert-IsSorted k v m s.1, Above-trans k e.0 m, Above-insert e.0 k v m)

  pub lookup-insert :
      (j k : ℕ) (v : V) (m : Map V)
      → IsSorted m
      → lookup j (insert k v m) ≡ (if j == k then some (or_else (lookup k m) v) else lookup j m)
  unfolding insert
  lookup-insert j k v [] s = refl
  lookup-insert j k v (e ∷ m) s = ground (arith, lookup-insert j k v m s.1, lookup_below k e.0 m)

  pub Above-assign : (j k : ℕ) (v : V) (m : Map V) → j < k → Above j m → Above j (assign k v m)
  unfolding assign
  Above-assign j k v [] h a = (h, tt)
  Above-assign j k v (e ∷ m) h a = ground (arith, Above-assign j k v m h a.1)

  pub assign-IsSorted : (k : ℕ) (v : V) (m : Map V) → IsSorted m → IsSorted (assign k v m)
  unfolding assign
  assign-IsSorted k v [] s = (tt, tt)
  assign-IsSorted k v (e ∷ m) s = ground (
    arith,
    assign-IsSorted k v m s.1,
    Above-trans k e.0 m,
    Above-assign e.0 k v m,
    ==_subst k e.0 m,
  )
    where
      ==_subst : (a b : ℕ) (n : Map V) → a ≡ b → Above b n → Above a n
      ==_subst a b n p h = rw p h

  pub lookup-assign :
      (j k : ℕ) (v : V) (m : Map V)
      → lookup j (assign k v m) ≡ (if j == k then some v else lookup j m)
  unfolding assign
  lookup-assign j k v [] = refl
  lookup-assign j k v (e ∷ m) = ground (arith, lookup-assign j k v m)

  -- What is found after an assignment is the new value or was there before.
  pub assign_cases :
      (j k : ℕ) (v w : V) (m : Map V)
      → lookup j (assign k v m) ≡ some w
      → ((j ≡ k) × (v ≡ w)) ⊎ (lookup j m ≡ some w)
  assign_cases j k v w m found = elim (Bool-cases (j == k)) [
    | inl same ↦ inl (==→eq j k same, ground (arith, lookup-assign j k v m))
    | inr other ↦ inr (ground (arith, lookup-assign j k v m))
  ]

  pub lookup-assign_other :
      (j k : ℕ) (v w : V) (m : Map V)
      → lookup k m ≡ none
      → lookup j m ≡ some w
      → lookup j (assign k v m) ≡ some w
  lookup-assign_other j k v w m absent found = elim (Bool-cases (j == k)) [
    | inl same ↦ absurd (cc (absent, found, ap (λ i. lookup i m) (==→eq j k same)))
    | inr other ↦ ground (arith, lookup-assign j k v m)
  ]

  pub Above-erase : (j k : ℕ) (m : Map V) → Above j m → Above j (erase k m)
  unfolding erase
  Above-erase j k [] a = tt
  Above-erase j k (e ∷ m) a = ground (arith, Above-erase j k m a.1)

  pub erase-IsSorted : (k : ℕ) (m : Map V) → IsSorted m → IsSorted (erase k m)
  unfolding erase
  erase-IsSorted k [] s = tt
  erase-IsSorted k (e ∷ m) s = ground (arith, erase-IsSorted k m s.1, Above-erase e.0 k m s.0)

  pub lookup-erase :
      (j k : ℕ) (m : Map V)
      → IsSorted m
      → lookup j (erase k m) ≡ (if j == k then none else lookup j m)
  unfolding erase
  lookup-erase j k [] s = ground arith
  lookup-erase j k (e ∷ m) s = ground (arith, lookup-erase j k m s.1, lookup-Above e.0 m s.0)

  pub contains-eq-false : (k : ℕ) (m : Map V) → contains k m ≡ false → lookup k m ≡ none
  contains-eq-false k m h = ground arith

  pub lookup-eq-none : (k : ℕ) (m : Map V) → lookup k m ≡ none → contains k m ≡ false
  lookup-eq-none k m h = rw (h, contains)

  pub lookup-eq-some : (k : ℕ) (m : Map V) {v : V} → lookup k m ≡ some v → contains k m ≡ true
  lookup-eq-some k m h = rw (h, contains)
