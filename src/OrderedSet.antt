-- ===== src/OrderedSet.antt =====
-- `std::set` of identifiers, into which a loop inserts: how many elements it ends with.
use mathlib.Core.Bool.{false≢true}
use crypto_kernel.Prelude.{
  ℕ, ◌+◌, ◌≤◌, ◌<◌, ◌≡◌, refl, true, false, List, [], ◌∷◌, ◌++◌, length, elem, elem-append, ◌||◌,
  arith, if◌then◌else◌, ◌==◌,
}
use crypto_kernel.OrderedMap.{Map, contains, insert, IsSorted}
use crypto_kernel.OrderedMap.Laws.{lookup-insert, insert-IsSorted, lookup_below}

abbrev pub IdSet : Type 0
IdSet = Map (Unit {0})

-- `for(id : ids) set.insert(id)`
unfoldable pub insert_ids : List ℕ → IdSet → IdSet
insert_ids [] s = s
insert_ids (x ∷ xs) s = insert_ids xs (insert x tt s)

-- The elements in order.
unfoldable pub elements : IdSet → List ℕ
elements [] = []
elements (e ∷ s) = e.0 ∷ elements s

abbrev pub Distinct : List ℕ → Type 0
Distinct [] = Unit
Distinct (x ∷ xs) = (elem x xs ≡ false) × Distinct xs

length-insert :
    (k : ℕ) (s : IdSet)
    → IsSorted s
    → length (insert k tt s) ≡ (if contains k s then length s else length s + 1)
unfolding insert
length-insert k [] h = refl
length-insert k (e ∷ s) h = ground (arith, length-insert k s h.1, lookup_below k e.0 s)

pub contains-insert :
    (j k : ℕ) (s : IdSet) → IsSorted s → contains j (insert k tt s) ≡ (j == k || contains j s)
contains-insert j k s h = ground (arith, lookup-insert j k tt s h)

-- None of the identifiers is in the set.
abbrev pub Disjoint : List ℕ → IdSet → Type 0
Disjoint ids s = (x : ℕ) → elem x ids ≡ true → contains x s ≡ false

length-insert_ids-le :
    (ids : List ℕ) (s : IdSet) → IsSorted s → length (insert_ids ids s) ≤ length s + length ids
unfolding insert_ids
length-insert_ids-le [] s h = omega arith
length-insert_ids-le (x ∷ xs) s h =
    ground (
      arith,
      length-insert x s h,
      length-insert_ids-le xs (insert x tt s) (insert-IsSorted x tt s h),
    )

grown_by_one :
    (x : ℕ) (s : IdSet) → IsSorted s → length s < length (insert x tt s) → contains x s ≡ false
grown_by_one x s h more = ground (arith, length-insert x s h)

-- The set grows by the number of the identifiers only if they are distinct and new.
pub length-insert_ids-Distinct :
    (ids : List ℕ) (s : IdSet)
    → IsSorted s
    → length (insert_ids ids s) ≡ length s + length ids
    → Distinct ids × Disjoint ids s
unfolding insert_ids
length-insert_ids-Distinct [] s h e = (tt, λ x m. absurd (false≢true m))
length-insert_ids-Distinct (x ∷ xs) s h e =
    let t = insert x tt s in
    let sorted = insert-IsSorted x tt s h in
    let bound = length-insert_ids-le xs t sorted in
    let len = length-insert x s h in
    let new : contains x s ≡ false = grown_by_one x s h (omega arith) in
    let len' : length t ≡ length s + 1 = ground (arith, len) in
    let (distinct, disjoint) = length-insert_ids-Distinct xs t sorted (omega arith) in
    let apart : elem x xs ≡ false = ground (arith, disjoint x, contains-insert x x s h) in
    ((apart, distinct), λ y m. ground (arith, disjoint y, contains-insert y x s h))

pub length-insert_ids :
    (ids : List ℕ) (s : IdSet)
    → IsSorted s
    → Distinct ids
    → Disjoint ids s
    → length (insert_ids ids s) ≡ length s + length ids
unfolding insert_ids
length-insert_ids [] s h d disjoint = omega arith
length-insert_ids (x ∷ xs) s h d disjoint =
    let new = disjoint x (ground arith) in
    let len' : length (insert x tt s) ≡ length s + 1 = ground (arith, length-insert x s h) in
    let rest =
      length-insert_ids xs (insert x tt s) (insert-IsSorted x tt s h) d.1
        (λ y m. ground (arith, disjoint y, contains-insert y x s h, d.0)) in
    omega arith

pub insert_ids-append :
    (xs ys : List ℕ) (s : IdSet) → insert_ids (xs ++ ys) s ≡ insert_ids ys (insert_ids xs s)
unfolding insert_ids
insert_ids-append [] ys s = refl
insert_ids-append (x ∷ xs) ys s = insert_ids-append xs ys (insert x tt s)

pub Distinct-append : (xs ys : List ℕ) → Distinct (xs ++ ys) → Distinct xs
Distinct-append [] ys d = tt
Distinct-append (x ∷ xs) ys d =
    (ground (arith, d.0, elem-append x xs ys), Distinct-append xs ys d.1)

length-insert_grows : (k : ℕ) (s : IdSet) → 1 ≤ length (insert k tt s)
unfolding insert
length-insert_grows k [] = omega arith
length-insert_grows k (e ∷ s) = ground arith

length-le-insert : (k : ℕ) (s : IdSet) → length s ≤ length (insert k tt s)
unfolding insert
length-le-insert k [] = omega arith
length-le-insert k (e ∷ s) = ground (arith, length-le-insert k s)

length-le-insert_ids : (ids : List ℕ) (s : IdSet) → length s ≤ length (insert_ids ids s)
unfolding insert_ids
length-le-insert_ids [] s = omega arith
length-le-insert_ids (x ∷ xs) s =
    omega (arith, length-le-insert x s, length-le-insert_ids xs (insert x tt s))

length-elements : (s : IdSet) → length (elements s) ≡ length s
unfolding elements
length-elements [] = refl
length-elements (e ∷ s) = omega (arith, length-elements s)

-- A set that was filled is empty only if nothing was inserted.
pub elements-insert_ids_empty :
    (ids : List ℕ) → (length (elements (insert_ids ids [])) == 0) ≡ (length ids == 0)
unfolding insert_ids elements
elements-insert_ids_empty [] = refl
elements-insert_ids_empty (x ∷ xs) = ground (
  arith,
  length-elements (insert_ids xs (insert x tt [])),
  length-le-insert_ids xs (insert x tt []),
  length-insert_grows x [],
)
