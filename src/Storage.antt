-- ===== src/Storage.antt =====
-- src/kernel/storage.cpp: the database, its transactions and their write cache. LevelDB itself is a
-- map from keys to texts. `write_lock` says whether the mutex is held; the `readLock`, the cache and
-- the filter of LevelDB change no result.
pub mod View
pub mod Schedule
pub mod Table
mod Tests
use crypto_kernel.Prelude.{
  ℕ, ◌≡◌, Bool, true, false, Option, none, some, List, [], ◌∷◌, if◌then◌else◌, not, arith,
}
use crypto_kernel.BigNum.{Text}
use crypto_kernel.KeyMap
use crypto_kernel.KeyMap.{KeyMap}
use crypto_kernel.Json.{JsonLib, to_string, to_json}

pub record Storage : Type 0 where
  pub db : KeyMap Text
  pub write_lock : Bool

-- What `commit` ends in: the new database, or one of its two exceptions.
pub data CommitError : Type 0 where
  already_finished write_failed : CommitError

module _ (lib : JsonLib) where
  open lib use {Json, null}

  pub record DbObject : Type 0 where
    pub content : Json
    pub erased : Bool

  -- A read-only transaction reads the database as it was when the transaction began.
  pub record Transaction : Type 0 where
    pub db_state_cache : KeyMap DbObject
    pub finished : Bool
    pub readonly : Bool
    pub snapshot : KeyMap Text

  -- `Storage::begin`; `none` where the thread waits for the write lock.
  pub begin : Storage → Option (Transaction × Storage)
  begin s =
      if s.write_lock
      then none
      else some (
        record { db_state_cache = []; finished = false; readonly = false; snapshot = [] },
        record s { write_lock = true },
      )

  pub begin_read_only : Storage → Transaction
  begin_read_only s = record {
    db_state_cache = [];
    finished = true;
    readonly = true;
    snapshot = s.db;
  }

  pub put : Text → Json → Transaction → Transaction
  put key json tx = record tx {
    db_state_cache =
        KeyMap.assign key (record { content = json; erased = false }) tx.db_state_cache;
  }

  pub erase : Text → Transaction → Transaction
  erase key tx = record tx {
    db_state_cache = KeyMap.assign key (record { content = null; erased = true }) tx.db_state_cache;
  }

  -- `db->Get` leaves the text empty where there is no such key.
  pub read : KeyMap Text → Text → Json
  read db key = elim (KeyMap.lookup key db) [ some text ↦ to_json lib text | none ↦ to_json lib [] ]

  pub get : Storage → Transaction → Text → Json
  unfolding read
  get s tx key = elim (KeyMap.lookup key tx.db_state_cache) [
    | some cached ↦ cached.content
    | none ↦ read (if tx.readonly then tx.snapshot else s.db) key
  ]

  pub abort : Transaction → Storage → Transaction × Storage
  abort tx s =
      (record tx { finished = true }, if tx.readonly then s else record s { write_lock = false })

  -- One `Delete` or `Put` of the write batch.
  pub apply_update : Text → DbObject → KeyMap Text → KeyMap Text
  apply_update key update db =
      if update.erased
      then KeyMap.erase key db
      else KeyMap.assign key (to_string lib update.content false) db

  -- The write batch, applied in one step.
  pub apply_batch : KeyMap DbObject → KeyMap Text → KeyMap Text
  unfolding apply_update
  apply_batch [] db = db
  apply_batch ((key, update) ∷ cache) db = apply_batch cache (apply_update key update db)

  -- `commit`, given whether LevelDB's `Write` succeeds
  pub commit : Bool → Transaction → Storage → (Transaction × Storage) × Option CommitError
  unfolding abort apply_batch
  commit write_ok tx s =
      if tx.finished
      then ((tx, s), some already_finished)
      else if write_ok
      then (abort tx (record s { db = apply_batch tx.db_state_cache s.db }), none)
      else ((tx, s), some write_failed)

  -- `~Transaction`
  pub destroy : Transaction → Storage → Transaction × Storage
  unfolding abort
  destroy tx s = if tx.finished then (tx, s) else abort tx s
