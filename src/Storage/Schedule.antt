-- ===== src/Storage/Schedule.antt =====
-- The transactions of src/kernel/storage.cpp that are alive at one time, as threads begin them, use
-- them and end them in any order: the write lock admits one open write transaction.
use crypto_kernel.Prelude.{
  ℕ, ◌+◌, ◌≤◌, ◌≡◌, ◌∙◌, refl, sym, ap, subst, Bool, false, true, some, List, [], ◌∷◌, ◌++◌,
  if◌then◌else◌, arith, All,
}
use crypto_kernel.BigNum.{Text}
use crypto_kernel.Json.{JsonLib}
use crypto_kernel.Storage.{
  Storage, Transaction, begin, begin_read_only, put, erase, abort, commit, destroy,
}

module _ (lib : JsonLib) where
  open lib use {Json}

  pub record System : Type 0 where
    pub storage : Storage
    pub transactions : List (Transaction lib)

  -- What the owner of a transaction can do with it. The code calls `abort` only on a transaction that
  -- is still open or that is read-only; on a finished writer it would release a lock it does not hold.
  pub data Use (s : Storage) (tx : Transaction lib) (r : Transaction lib × Storage) : Type 0 where
    puts : (key : Text) (json : Json) → r ≡ (put lib key json tx, s) → Use s tx r
    erases : (key : Text) → r ≡ (erase lib key tx, s) → Use s tx r
    commits : (write_ok : Bool) → r ≡ (commit lib write_ok tx s).0 → Use s tx r
    aborts : (tx.finished ≡ true → tx.readonly ≡ true) → r ≡ abort lib tx s → Use s tx r
    destroys : r ≡ destroy lib tx s → Use s tx r

  pub data Step (s : System) (s' : System) : Type 0 where
    begins :
        (tx : Transaction lib) (st : Storage)
        → begin lib s.storage ≡ some (tx, st)
        → s' ≡ record { storage = st; transactions = tx ∷ s.transactions }
        → Step s s'
    begins_read_only :
        s' ≡ record s { transactions = begin_read_only lib s.storage ∷ s.transactions } → Step s s'
    uses :
        (before after : List (Transaction lib)) (tx tx' : Transaction lib) (st : Storage)
        → s.transactions ≡ before ++ tx ∷ after
        → Use s.storage tx (tx', st)
        → s' ≡ record { storage = st; transactions = before ++ tx' ∷ after }
        → Step s s'

  pub data Reach (s : System) : System → Type 0 where
    start : Reach s s
    extend : {t u : System} → Step t u → Reach s t → Reach s u

  abbrev pub open_count : List (Transaction lib) → ℕ
  open_count [] = 0
  open_count (tx ∷ txs) = (if tx.finished then 0 else 1) + open_count txs

  -- A read-only transaction counts as finished from its start.
  abbrev pub IsWellFormed : Transaction lib → Type 0
  IsWellFormed tx = tx.readonly ≡ true → tx.finished ≡ true

  pub record IsSafe (s : System) : Type 0 where
    pub locked : open_count s.transactions ≡ (if s.storage.write_lock then 1 else 0)
    pub formed : All IsWellFormed s.transactions

  open_count-append :
      (xs ys : List (Transaction lib)) → open_count (xs ++ ys) ≡ open_count xs + open_count ys
  open_count-append [] ys = omega arith
  open_count-append (x ∷ xs) ys = omega (arith, open_count-append xs ys)

  All-replace :
      (xs ys : List (Transaction lib)) (tx tx' : Transaction lib)
      → All IsWellFormed (xs ++ tx ∷ ys)
      → (IsWellFormed tx → IsWellFormed tx')
      → All IsWellFormed (xs ++ tx' ∷ ys)
  All-replace [] ys tx tx' h f = (f h.0, h.1)
  All-replace (x ∷ xs) ys tx tx' h f = (h.0, All-replace xs ys tx tx' h.1 f)

  All-middle :
      (xs ys : List (Transaction lib)) (tx : Transaction lib)
      → All IsWellFormed (xs ++ tx ∷ ys)
      → IsWellFormed tx
  All-middle [] ys tx h = h.0
  All-middle (x ∷ xs) ys tx h = All-middle xs ys tx h.1

  -- Of a transaction with `n` open ones beside it: the lock is held after the use exactly if one is
  -- open, and a use changes the database only if no other is open.
  record Used (n : ℕ) (s : Storage) (tx : Transaction lib) (r : Transaction lib × Storage)
      : Type 0 where
    locked : n + (if r.0.finished then 0 else 1) ≡ (if r.1.write_lock then 1 else 0)
    formed : IsWellFormed r.0
    isolated : 1 ≤ n → r.1.db ≡ s.db

  Use-Used :
      (n : ℕ) {s : Storage} {tx : Transaction lib} {r : Transaction lib × Storage}
      → n + (if tx.finished then 0 else 1) ≡ (if s.write_lock then 1 else 0)
      → IsWellFormed tx
      → Use s tx r
      → Used n s tx r
  unfolding put erase abort commit destroy
  Use-Used n l f (puts key json e) = ground arith
  Use-Used n l f (erases key e) = ground arith
  Use-Used n l f (commits ok e) = ground arith
  Use-Used n l f (aborts entitled e) = ground arith
  Use-Used n l f (destroys e) = ground arith

  open_count-middle :
      (xs ys : List (Transaction lib)) (tx : Transaction lib)
      → open_count (xs ++ tx ∷ ys)
        ≡ (open_count xs + open_count ys) + (if tx.finished then 0 else 1)
  open_count-middle xs ys tx = omega (arith, open_count-append xs (tx ∷ ys))

  begin-IsSafe :
      {s : System} {tx : Transaction lib} {st : Storage}
      → IsSafe s
      → begin lib s.storage ≡ some (tx, st)
      → IsSafe (record { storage = st; transactions = tx ∷ s.transactions })
  unfolding begin
  begin-IsSafe h e = record { locked = ground arith; formed = (ground arith, h.formed) }

  begin_read_only-IsSafe :
      {s : System}
      → IsSafe s
      → IsSafe (record s { transactions = begin_read_only lib s.storage ∷ s.transactions })
  unfolding begin_read_only
  begin_read_only-IsSafe h = record { locked = ground arith; formed = ((λ e. refl), h.formed) }

  -- The facts about one use, from the invariant of the state before it.
  Used-middle :
      {s : System} {tx : Transaction lib} {r : Transaction lib × Storage}
      (before after : List (Transaction lib))
      → IsSafe s
      → s.transactions ≡ before ++ tx ∷ after
      → Use s.storage tx r
      → Used (open_count before + open_count after) s.storage tx r
  Used-middle {tx = tx} before after h at u =
      Use-Used (open_count before + open_count after)
        (sym (open_count-middle before after tx) ∙ (sym (ap open_count at) ∙ h.locked))
        (All-middle before after tx (subst (All IsWellFormed) at h.formed)) u

  -- Every step of every thread keeps the invariant.
  pub Step-IsSafe : {s s' : System} → Step s s' → IsSafe s → IsSafe s'
  Step-IsSafe (begins tx st e same) h = subst IsSafe (sym same) (begin-IsSafe h e)
  Step-IsSafe (begins_read_only same) h = subst IsSafe (sym same) (begin_read_only-IsSafe h)
  Step-IsSafe (uses before after tx tx' st at u same) h =
      let used = Used-middle before after h at u in
      subst IsSafe (sym same) (record {
        locked = open_count-middle before after tx' ∙ used.locked;
        formed =
            All-replace before after tx tx' (subst (All IsWellFormed) at h.formed)
              (λ w. used.formed);
      })

  Reach-IsSafe : {s s' : System} → Reach s s' → IsSafe s → IsSafe s'
  Reach-IsSafe start h = h
  Reach-IsSafe (extend st r) h = Step-IsSafe st (Reach-IsSafe r h)

  -- However threads begin, use, commit, abort and destroy transactions, starting from a database that
  -- no transaction uses, and as long as no write transaction that has finished is aborted: at most one
  -- transaction is open, and one is open exactly while the lock is held.
  pub one_writer :
      {s s' : System}
      → s.transactions ≡ []
      → s.storage.write_lock ≡ false
      → Reach s s'
      → (open_count s'.transactions ≤ 1)
        × (open_count s'.transactions ≡ (if s'.storage.write_lock then 1 else 0))
  one_writer {s} {s'} none_yet unlocked r =
      let safe = Reach-IsSafe r (record {
        locked = rw (none_yet, unlocked);
        formed = subst (All IsWellFormed) (sym none_yet) tt;
      }) in
      let locked = safe.locked in (ground arith, locked)

  -- In a state where the lock is held exactly while a transaction is open: while a write transaction
  -- is open, no use of another transaction (`put`, `erase`, `commit`, the destructor, or `abort` of one
  -- that is open or read-only) changes the database.
  pub writer_isolated :
      {s : System} {tx tx' : Transaction lib} {st : Storage} (before after : List (Transaction lib))
      → IsSafe s
      → s.transactions ≡ before ++ tx ∷ after
      → 1 ≤ open_count before + open_count after
      → Use s.storage tx (tx', st)
      → st.db ≡ s.storage.db
  writer_isolated before after h at other u = (Used-middle before after h at u).isolated other
