-- ===== src/KvDb/Tests.antt =====
-- Runs of the rows and transactions of the in-memory store.
use dbstream.Common.{
  ◌++◌, ℕ, ◌≡◌, refl, ◌⊎◌, true, false, List, [], ◌∷◌, Option, none, some, arith, map, get_elem?,
  All,
}
use dbstream.KvDb.Version.{
  ok, transaction_not_start, transaction_has_started, Column, ColumnChange, ColumnMeta,
  field_not_found, update_columns, column_change,
}
use dbstream.KvDb.Version.Columns.{AllUpTo, new_column, update_columns-get}
use dbstream.KvDb.Row.{r_insert, r_delete, Version, Row, read, update, drop, insert, rollback}
use dbstream.KvDb.Row.Chain.{IsLinked, seen}
use dbstream.KvDb.Row.Isolation.{Grows, Refuses, Blocked, update-Outcome, held-Blocked}
use dbstream.KvDb.Row.Undo.{Undoes, rollback-Undoes}
use dbstream.KvDb.Transaction.{Transaction, Client, start_trans, commit_all, rollback_all}
use dbstream.KvDb.Transaction.Lifecycle.{IsUnlocked, start_trans-stuck, rollback_all-restores}

abbrev byte : ℕ → Column
byte n = some (n ∷ [])

abbrev two_columns : List Column
two_columns = byte 1 ∷ byte 2 ∷ []

abbrev change : List ColumnChange
change = record { column_id = 1; new_value = byte 7 } ∷ []

abbrev version : Option ℕ → Option ℕ → Version
version before after = record {
  prev = before;
  next = after;
  record_type = r_insert;
  txn_id = 1;
  columns = two_columns;
}

-- A committed version, and a pending one of client 5.
abbrev pending_row : Row
pending_row = record {
  current = some 0;
  head = some 0;
  tail = some 1;
  owner = 5;
  versions = some (version none (some 1)) ∷ some (version (some 0) none) ∷ [];
}

read_first : read pending_row.versions 0 ≡ some (version none (some 1))
unfolding read
read_first = refl

read_second : read pending_row.versions 1 ≡ some (version (some 0) none)
unfolding read
read_second = refl

abbrev pending_row-IsLinked : IsLinked pending_row
pending_row-IsLinked = record {
  committed = 0;
  pending = 1 ∷ [];
  last = 1;
  current_is = refl;
  tail_is = refl;
  linked = (
    omega arith,
    (version none (some 1), read_first, refl),
    (refl, version (some 0) none, read_second, refl),
  );
}

abbrev deletion : Version
deletion = record (version none none) { record_type = r_delete }

abbrev deleted_row : Row
deleted_row = record {
  current = some 0;
  head = some 0;
  tail = some 0;
  owner = 0;
  versions = some deletion ∷ [];
}

read-deletion : read deleted_row.versions 0 ≡ some deletion
unfolding read
read-deletion = refl

abbrev deleted_row-IsLinked : IsLinked deleted_row
deleted_row-IsLinked = record {
  committed = 0;
  pending = [];
  last = 0;
  current_is = refl;
  tail_is = refl;
  linked = (refl, deletion, read-deletion, refl);
}

-- A change of the second column, and one of a third, which is not there.
abbrev two_changes : List ColumnChange
two_changes = change ++ record { column_id = 2; new_value = none } ∷ []

update_columns-get_example :
    (AllUpTo 2 two_changes
      × ((update_columns two_columns two_changes).0 ≡ ok)
      × (get_elem? (update_columns two_columns two_changes).1 1
          ≡ new_column (column_change 1 two_changes) (get_elem? two_columns 1)))
    ⊎ (¬ AllUpTo 2 two_changes × (update_columns two_columns two_changes ≡ (field_not_found, [])))
update_columns-get_example =
    update_columns-get two_columns two_changes 1 (omega arith, (omega arith, tt))

abbrev two_metas : List ColumnMeta
two_metas =
    record { nullable = true; is_primary = false }
    ∷ record { nullable = false; is_primary = false }
    ∷ []

update-Outcome_example :
    Grows 5 pending_row 1
      (λ v. some (update_columns v.columns change).1)
      (update 5 2 change pending_row)
    ⊎ Refuses pending_row (update 5 2 change pending_row)
update-Outcome_example = update-Outcome 5 2 change pending_row pending_row-IsLinked

held-Blocked_example :
    Blocked pending_row (update 6 3 change pending_row)
    × Blocked pending_row (drop 6 3 pending_row)
    × Blocked pending_row (insert 6 (version none none) pending_row)
held-Blocked_example =
    held-Blocked 6 3 change (version none none) pending_row (λ q. absurd (omega arith))
      (λ q. absurd (omega arith))

rollback-Undoes_example :
    ((rollback pending_row).0 ≡ ok)
    × Undoes pending_row pending_row-IsLinked (rollback pending_row).1
rollback-Undoes_example = rollback-Undoes pending_row pending_row-IsLinked

abbrev new_client : Client
new_client = record { txn_id = 0; trans = record { start = false; rows = [] } }

abbrev started_client : Client
started_client = record { txn_id = 7; trans = record { start = true; rows = pending_row ∷ [] } }

start_trans-stuck_example :
    ((start_trans 7 new_client).0 ≡ ok)
    × (start_trans 8 started_client ≡ (transaction_has_started, 8, started_client))
    × (commit_all started_client.trans ≡ (transaction_not_start, started_client.trans))
    × (rollback_all started_client.trans
        ≡ (transaction_not_start, pending_row ∷ [], started_client.trans))
unfolding start_trans
start_trans-stuck_example = start_trans-stuck 7 8 new_client (pending_row ∷ []) refl

abbrev open_transaction : Transaction
open_transaction = record { start = false; rows = pending_row ∷ [] }

rollback_all-restores_example :
    ((rollback_all open_transaction).0 ≡ ok)
    × (map seen (rollback_all open_transaction).1 ≡ map seen (pending_row ∷ []))
    × All IsUnlocked (rollback_all open_transaction).1
    × ((rollback_all open_transaction).2 ≡ record { start = false; rows = [] })
rollback_all-restores_example =
    rollback_all-restores open_transaction refl (pending_row-IsLinked, tt)
