-- ===== src/OrderedMap.antt =====
-- `std::map` and `std::set` over identifiers: an association list in increasing order of its keys.
pub mod Laws
use crypto_kernel.Prelude.{
  ℕ, ◌<◌, ◌≡◌, Bool, true, false, Option, none, some, List, [], ◌∷◌, ltb, ◌==◌, if◌then◌else◌,
}

abbrev pub Map {ℓ} : Type ℓ → Type ℓ
Map V = List (ℕ × V)

module _ {ℓ} {V : Type ℓ} where
  -- `map.find(k)`: the value, or `none` for `end()`.
  abbrev pub lookup : ℕ → Map V → Option V
  lookup k [] = none
  lookup k ((j, v) ∷ m) = if k == j then some v else lookup k m

  -- `map.find(k) != map.end()`
  abbrev pub contains : ℕ → Map V → Bool
  contains k m = elim (lookup k m) [ none ↦ false | some _ ↦ true ]

  -- `map.insert(pair)`: an element that is there stays.
  unfoldable pub insert : ℕ → V → Map V → Map V
  insert k v [] = (k, v) ∷ []
  insert k v (e ∷ m) =
      if ltb k e.0 then (k, v) ∷ e ∷ m else if k == e.0 then e ∷ m else e ∷ insert k v m

  -- `map[k] = v`
  unfoldable pub assign : ℕ → V → Map V → Map V
  assign k v [] = (k, v) ∷ []
  assign k v (e ∷ m) =
      if ltb k e.0 then (k, v) ∷ e ∷ m else if k == e.0 then (k, v) ∷ m else e ∷ assign k v m

  -- `map.erase(k)`
  unfoldable pub erase : ℕ → Map V → Map V
  erase k [] = []
  erase k (e ∷ m) = if k == e.0 then m else e ∷ erase k m

  abbrev pub Above : ℕ → Map V → Type 0
  Above k [] = Unit
  Above k (e ∷ m) = (k < e.0) × Above k m

  -- The order that a `std::map` keeps.
  abbrev pub IsSorted : Map V → Type 0
  IsSorted [] = Unit
  IsSorted (e ∷ m) = Above e.0 m × IsSorted m
