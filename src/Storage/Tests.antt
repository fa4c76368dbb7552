-- ===== src/Storage/Tests.antt =====
-- Runs of src/kernel/storage.cpp's model, and its theorems at concrete inputs.
use crypto_kernel.Prelude.{
  ℕ, ◌≤◌, ◌≡◌, ◌≢◌, refl, true, false, none, [], ◌∷◌, if◌then◌else◌, ◌↔◌, arith,
}
use crypto_kernel.BigNum.{Text}
use crypto_kernel.KeyMap
use crypto_kernel.KeyMap.{text_eq, assign}
use crypto_kernel.Json.{to_string}
use crypto_kernel.Example.{toy_json, toy_json-RoundTrips}
use crypto_kernel.Storage.{
  abort, Storage, Transaction, begin, begin_read_only, put, erase, get, read, commit, destroy,
}
use crypto_kernel.Storage.Schedule.{
  System, begins, begins_read_only, uses, aborts, destroys, Reach, start, extend, IsSafe,
  open_count, one_writer, writer_isolated,
}
use crypto_kernel.Storage.Table
use crypto_kernel.Storage.View.{IsValid, put-IsValid, erase-IsValid, commit-get, commit-throws}

-- A database with one key, under the lock of the one write transaction.
abbrev store : Storage
store = record { db = (1 ∷ [], 5 ∷ 10 ∷ []) ∷ []; write_lock = true }

abbrev fresh : Transaction toy_json
fresh = record { db_state_cache = []; finished = false; readonly = false; snapshot = [] }

abbrev writer : Transaction toy_json
writer = put toy_json (2 ∷ []) (6 ∷ []) (erase toy_json (1 ∷ []) fresh)

fresh-IsValid : IsValid toy_json fresh
fresh-IsValid = record { unique = tt; nulls = λ q e found gone. absurd (ground arith) }

writer-IsValid : IsValid toy_json writer
writer-IsValid =
    put-IsValid toy_json (2 ∷ []) (6 ∷ []) (erase toy_json (1 ∷ []) fresh)
      (erase-IsValid toy_json (1 ∷ []) fresh fresh-IsValid)

commits : (commit toy_json true writer store).0.1.db ≡ (2 ∷ [], 6 ∷ 10 ∷ []) ∷ []
unfolding commit put erase assign KeyMap.erase text_eq to_string
commits = refl

open_writer : (writer.finished ≡ false) × (writer.readonly ≡ false)
unfolding put erase
open_writer = (refl, refl)

commit-get_example :
    let ((tx', s'), e) = commit toy_json true writer store in
    (e ≡ none)
    × (tx'.finished ≡ true)
    × (s'.write_lock ≡ false)
    × ((q : Text) → read toy_json s'.db q ≡ get toy_json store writer q)
commit-get_example =
    commit-get toy_json toy_json-RoundTrips store writer open_writer.0 open_writer.1 writer-IsValid

commit-throws_example :
    (((commit toy_json false writer store).1 ≡ none) ↔ ((writer.finished ≡ false) × (false ≡ true)))
    × ((commit toy_json false writer store).1 ≢ none
        → (commit toy_json false writer store).0 ≡ (writer, store))
commit-throws_example = commit-throws toy_json false store writer

-- The tables "a" and "b", and the key "k" of index 1.
table_put_example :
    (Table.get toy_json
        (b'a' ∷ [])
        store
        (Table.put toy_json (b'a' ∷ []) fresh (7 ∷ []) (8 ∷ []) 1)
        (7 ∷ [])
        1
      ≡ 8 ∷ [])
    × (¬ (
          (◌≡◌ {A = Text} (b'b' ∷ []) (b'a' ∷ []))
          × (◌≡◌ {A = ℕ} 1 1)
          × (◌≡◌ {A = Text} (7 ∷ []) (7 ∷ [])))
        → Table.get toy_json
            (b'b' ∷ [])
            store
            (Table.put toy_json (b'a' ∷ []) fresh (7 ∷ []) (8 ∷ []) 1)
            (7 ∷ [])
            1
          ≡ Table.get toy_json (b'b' ∷ []) store fresh (7 ∷ []) 1)
table_put_example =
    Table.get-put toy_json store fresh (b'a' ∷ []) (b'b' ∷ []) (7 ∷ []) (7 ∷ []) 1 1 (8 ∷ [])
      (omega arith) (omega arith)

abbrev idle : System toy_json
idle = record { storage = record store { write_lock = false }; transactions = [] }

-- A writer begins, then a reader.
abbrev started : System toy_json
started = record { storage = store; transactions = fresh ∷ [] }

abbrev reader : Transaction toy_json
reader = record { db_state_cache = []; finished = true; readonly = true; snapshot = store.db }

abbrev shared : System toy_json
shared = record { storage = store; transactions = reader ∷ fresh ∷ [] }

run : Reach toy_json idle shared
unfolding begin begin_read_only
run = extend (begins_read_only refl) (extend (begins fresh store refl refl) start)

-- The writer is aborted.
abbrev ended : System toy_json
ended = record {
  storage = record store { write_lock = false };
  transactions = reader ∷ record fresh { finished = true } ∷ [];
}

whole_run : Reach toy_json idle ended
unfolding abort
whole_run =
    extend
      (uses (reader ∷ []) [] fresh (record fresh { finished = true })
        (record store { write_lock = false }) refl (aborts (λ over. absurd (ground arith)) refl)
        refl)
      run

one_writer_example :
    (open_count toy_json ended.transactions ≤ 1)
    × (open_count toy_json ended.transactions ≡ (if ended.storage.write_lock then 1 else 0))
one_writer_example = one_writer toy_json refl refl whole_run

shared-IsSafe : IsSafe toy_json shared
shared-IsSafe = record { locked = refl; formed = ground arith }

-- The reader ends while the writer is open.
writer_isolated_example : store.db ≡ store.db
unfolding destroy
writer_isolated_example =
    writer_isolated toy_json {tx = reader} {tx' = reader} [] (fresh ∷ []) shared-IsSafe refl
      (omega arith) (destroys refl)
