-- ===== src/Storage/View.antt =====
-- What a transaction of src/kernel/storage.cpp sees, and what its commit leaves in the database.
use mathlib.Core.Bool.{false≢true}
use crypto_kernel.Prelude.{
  ◌≡◌, ◌≢◌, ◌↔◌, ◌∙◌, refl, sym, ap, Bool, true, false, Option, none, some, [], ◌∷◌, if◌then◌else◌,
  arith, Option-cases, Bool-cases, inl, inr,
}
use crypto_kernel.BigNum.{Text}
use crypto_kernel.KeyMap.{
  KeyMap, IsMap, assign-IsMap, text_eq, text_eq→eq, lookup, assign, lookup-assign, lookup-erase,
}
use crypto_kernel.Json.{JsonLib, RoundTrips, to_string}
use crypto_kernel.Storage.{
  Storage, DbObject, Transaction, put, erase, read, get, apply_update, apply_batch, commit,
}

module _ (lib : JsonLib) where
  open lib use {Json, null}

  -- A transaction reads its own writes, and every other key as before.
  pub get-put :
      (s : Storage) (tx : Transaction lib) (key : Text) (json : Json) (q : Text)
      → get lib s (put lib key json tx) q ≡ (if text_eq q key then json else get lib s tx q)
  unfolding get put
  get-put s tx key json q =
      rw (lookup-assign q key (record { content = json; erased = false }) tx.db_state_cache, get)
        (elim (Bool-cases (text_eq q key)) [ inl same ↦ rw same | inr other ↦ rw other ])

  -- What a transaction has erased it reads as null, and every other key as before.
  pub get-erase :
      (s : Storage) (tx : Transaction lib) (key q : Text)
      → get lib s (erase lib key tx) q ≡ (if text_eq q key then null else get lib s tx q)
  unfolding get erase
  get-erase s tx key q =
      rw (lookup-assign q key (record { content = null; erased = true }) tx.db_state_cache, get)
        (elim (Bool-cases (text_eq q key)) [ inl same ↦ rw same | inr other ↦ rw other ])

  -- What a key holds after the batch: its entry of the cache decides, and the database otherwise.
  after_batch : Option (DbObject lib) → Option Text → Option Text
  after_batch none old = old
  after_batch (some update) old =
      if update.erased then none else some (to_string lib update.content false)

  lookup-apply_update :
      (q key : Text) (update : DbObject lib) (db : KeyMap Text)
      → lookup q (apply_update lib key update db)
        ≡ (if text_eq q key then after_batch (some update) (lookup q db) else lookup q db)
  unfolding apply_update after_batch
  lookup-apply_update q key update db = elim (Bool-cases update.erased) [
    | inl gone ↦ rw (gone, lookup-erase q key db)
    | inr kept ↦ rw (kept, lookup-assign q key (to_string lib update.content false) db)
  ]

  lookup-apply_batch :
      (q : Text) (cache : KeyMap (DbObject lib)) (db : KeyMap Text)
      → IsMap cache
      → lookup q (apply_batch lib cache db) ≡ after_batch (lookup q cache) (lookup q db)
  unfolding apply_batch
  lookup-apply_batch q [] db h = unfold after_batch in refl
  lookup-apply_batch q ((key, update) ∷ cache) db h =
      lookup-apply_batch q cache (apply_update lib key update db) h.1
      ∙ rw (lookup-apply_update q key update db) (elim (Bool-cases (text_eq q key)) [
        | inl same ↦ rw (same, text_eq→eq q key same, h.0) (unfold after_batch in refl)
        | inr other ↦ rw other
      ])

  -- The cache of a transaction: a map, in which an erased key holds null.
  pub record IsValid (tx : Transaction lib) : Type 0 where
    pub unique : IsMap tx.db_state_cache
    pub nulls :
        (q : Text) (e : DbObject lib)
        → lookup q tx.db_state_cache ≡ some e
        → e.erased ≡ true
        → e.content ≡ null

  assign-nulls :
      (key : Text) (new : DbObject lib) (tx : Transaction lib)
      → IsValid tx
      → (new.erased ≡ true → new.content ≡ null)
      → (q : Text) (e : DbObject lib) → lookup q (assign key new tx.db_state_cache) ≡ some e
      → e.erased ≡ true
      → e.content ≡ null
  assign-nulls key new tx v fits q e found gone =
      let at_q = lookup-assign q key new tx.db_state_cache in
      elim (Bool-cases (text_eq q key)) [
        | inl same ↦
            let is_new : new ≡ e = cc (
              sym at_q ∙ found,
              ap (λ b. if b then some new else lookup q tx.db_state_cache) same,
            ) in
            rw (← is_new) (fits (rw (is_new) gone))
        | inr other ↦ v.nulls q e (sym (rw other at at_q) ∙ found) gone
      ]

  -- `put` and `erase` keep the cache valid, and it starts so.
  pub put-IsValid :
      (key : Text) (json : Json) (tx : Transaction lib) → IsValid tx → IsValid (put lib key json tx)
  unfolding put
  put-IsValid key json tx v =
      let new : DbObject lib = record { content = json; erased = false } in
      record {
        unique = assign-IsMap key new tx.db_state_cache v.unique;
        nulls = assign-nulls key new tx v (λ e. absurd (false≢true e));
      }

  pub erase-IsValid : (key : Text) (tx : Transaction lib) → IsValid tx → IsValid (erase lib key tx)
  unfolding erase
  erase-IsValid key tx v =
      let new : DbObject lib = record { content = null; erased = true } in
      record {
        unique = assign-IsMap key new tx.db_state_cache v.unique;
        nulls = assign-nulls key new tx v (λ e. refl);
      }

  get-cached :
      (s : Storage) (tx : Transaction lib) (q : Text) (e : DbObject lib)
      → lookup q tx.db_state_cache ≡ some e
      → get lib s tx q ≡ e.content
  unfolding get
  get-cached s tx q e cached = rw (cached, get)

  get-absent :
      (s : Storage) (tx : Transaction lib) (q : Text)
      → lookup q tx.db_state_cache ≡ none
      → tx.readonly ≡ false
      → get lib s tx q ≡ read lib s.db q
  unfolding get
  get-absent s tx q absent writes =
      rw (absent, get) (ap (λ b. read lib (if b then tx.snapshot else s.db) q) writes)

  read-apply_batch :
      RoundTrips lib
      → (s : Storage) (tx : Transaction lib) (q : Text) → tx.readonly ≡ false
      → IsValid tx
      → read lib (apply_batch lib tx.db_state_cache s.db) q ≡ get lib s tx q
  unfolding read get after_batch
  read-apply_batch laws s tx q writes v =
      rw (lookup-apply_batch q tx.db_state_cache s.db v.unique, read)
        (elim (Option-cases (lookup q tx.db_state_cache)) [
          | inl absent ↦ rw (absent, get-absent s tx q absent writes) (unfold read in refl)
          | inr (e, cached) ↦ elim (Bool-cases e.erased) [
            | inl gone ↦
                rw (cached, get-cached s tx q e cached)
                  (rw gone (laws.read_nothing ∙ sym (v.nulls q e cached gone)))
            | inr kept ↦
                rw (cached, get-cached s tx q e cached) (simp kept (laws.read_back e.content))
          ]
        ])

  commit_lem :
      (s : Storage) (tx : Transaction lib)
      → tx.finished ≡ false
      → tx.readonly ≡ false
      → commit lib true tx s ≡ (
        (
          record tx { finished = true },
          record { db = apply_batch lib tx.db_state_cache s.db; write_lock = false },
        ),
        none,
      )
  unfolding commit
  commit_lem s tx open_tx writes = ground arith

  -- A commit that LevelDB accepts ends an open write transaction, releases the lock, and leaves
  -- under every key of the database what the transaction saw there. It is assumed that JSON that
  -- was written is read back, and that the cache holds each key once, with null for what is erased.
  pub commit-get :
      RoundTrips lib
      → (s : Storage) (tx : Transaction lib) → tx.finished ≡ false
      → tx.readonly ≡ false
      → IsValid tx
      → let ((tx', s'), e) = commit lib true tx s in
        (e ≡ none)
        × (tx'.finished ≡ true)
        × (s'.write_lock ≡ false)
        × ((q : Text) → read lib s'.db q ≡ get lib s tx q)
  commit-get laws s tx open_tx writes v =
      rw (commit_lem s tx open_tx writes)
        (refl, refl, refl, λ q. read-apply_batch laws s tx q writes v)

  -- A commit that throws changes neither the transaction nor the database nor the lock, and it throws
  -- exactly when the transaction is finished or LevelDB fails.
  pub commit-throws :
      (write_ok : Bool) (s : Storage) (tx : Transaction lib)
      → (((commit lib write_ok tx s).1 ≡ none) ↔ ((tx.finished ≡ false) × (write_ok ≡ true)))
        × ((commit lib write_ok tx s).1 ≢ none → (commit lib write_ok tx s).0 ≡ (tx, s))
  unfolding commit
  commit-throws write_ok s tx = ground arith
