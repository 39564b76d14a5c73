-- ===== src/KvDb/Transaction.antt =====
-- memKvDatabase/transaction.cpp and instance.cpp: the transaction of a client, from its start to its
-- end. `rows` lists the rows that the set m_rows points to. The redo list is not modelled.
pub mod Lifecycle
use dbstream.Common.{ℕ, ◌+◌, ◌%◌, ◌^◌, Bool, true, false, List, [], ◌∷◌, map, if◌then◌else◌}
use dbstream.KvDb.Version.{Status, ok, transaction_not_start, transaction_has_started}
use dbstream.KvDb.Row.{Row, commit, rollback}

pub record Transaction : Type 0 where
  pub start : Bool
  pub rows : List Row

-- `clear`, of the rows.
abbrev pub clear : Transaction → Transaction
clear t = record t { rows = [] }

-- `commit`, which keeps the set.
unfoldable pub commit_all : Transaction → Status × Transaction
commit_all t =
    if t.start
    then (transaction_not_start, t)
    else (ok, record t { rows = map commit t.rows; start = false })

-- The loop of `rollback`: the rows after it, and whether all went well.
unfoldable pub rollback_next : Status × Row → Status × List Row → Status × List Row
rollback_next (ok, r) (s, rs) = (s, r ∷ rs)
rollback_next (s, r) (t, rs) = (s, r ∷ rs)

unfoldable pub rollback_rows : List Row → Status × List Row
unfolding rollback_next
rollback_rows [] = (ok, [])
rollback_rows (r ∷ rs) = rollback_next (rollback r) (rollback_rows rs)

-- `rollback`: the status, the rows it rolled back, and the transaction.
unfoldable pub rollback_all : Transaction → Status × List Row × Transaction
unfolding rollback_rows
rollback_all t =
    if t.start
    then (transaction_not_start, t.rows, t)
    else (let (s, rs) = rollback_rows t.rows in (s, rs, record t { rows = []; start = false }))

-- What `startTrans` uses of the client and the instance; the counter has 64 bits.
pub record Client : Type 0 where
  pub txn_id : ℕ
  pub trans : Transaction

unfoldable pub start_trans : ℕ → Client → Status × ℕ × Client
start_trans next_tid c = if c.trans.start then (transaction_has_started, next_tid, c) else (
  ok,
  (next_tid + 1) % 2 ^ 64,
  record { txn_id = next_tid; trans = clear (record c.trans { start = true }) },
)
