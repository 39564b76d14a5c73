-- ===== src/KvDb/Transaction/Lifecycle.antt =====
-- What becomes of a transaction that was started.
use dbstream.Common.{ℕ, ◌≡◌, refl, ap, ◌∙◌, false, List, [], ◌∷◌, map, All}
use dbstream.KvDb.Version.{Status, ok, transaction_not_start, transaction_has_started}
use dbstream.KvDb.Row.{Row, rollback}
use dbstream.KvDb.Row.Chain.{IsLinked, seen}
use dbstream.KvDb.Row.Undo.{rollback-Undoes}
use dbstream.KvDb.Transaction.{
  Transaction, commit_all, rollback_next, rollback_rows, rollback_all, Client, start_trans,
}

-- A start succeeds exactly if the client is in no transaction; and a started transaction can be neither
-- started again, nor committed, nor rolled back: `commit` and `rollback` report that it is not
-- started, and leave it, and its rows, as they are.
pub start_trans-stuck :
    (tid tid' : ℕ) (c : Client) (rows : List Row)
    → c.trans.start ≡ false
    → (let d = record (start_trans tid c).2 {
      trans = record (start_trans tid c).2.trans { rows = rows };
    } in
        ((start_trans tid c).0 ≡ ok)
        × (start_trans tid' d ≡ (transaction_has_started, tid', d))
        × (commit_all d.trans ≡ (transaction_not_start, d.trans))
        × (rollback_all d.trans ≡ (transaction_not_start, rows, d.trans)))
unfolding start_trans commit_all rollback_all
start_trans-stuck tid tid' c rows h = rw h (refl, refl, refl, refl)

rollback_next-ok :
    (o : Status × Row) (p : Status × List Row) → o.0 ≡ ok → rollback_next o p ≡ (p.0, o.1 ∷ p.1)
unfolding rollback_next
rollback_next-ok (ok, r) (s, rs) h = refl
rollback_next-ok (t, r) (s, rs) h = cc

abbrev pub IsUnlocked : Row → Type 0
IsUnlocked r = r.owner ≡ 0

rollback_rows-seen :
    (rs : List Row)
    → All IsLinked rs
    → ((rollback_rows rs).0 ≡ ok)
      × (map seen (rollback_rows rs).1 ≡ map seen rs)
      × All IsUnlocked (rollback_rows rs).1
unfolding rollback_rows
rollback_rows-seen [] l = (refl, refl, tt)
rollback_rows-seen (r ∷ rs) l =
    let (good, u) = rollback-Undoes r l.0 in
    let (rest, same, free) = rollback_rows-seen rs l.1 in
    rw (rollback_next-ok (rollback r) (rollback_rows rs) good) (
      rest,
      ap (λ c. c ∷ map seen (rollback_rows rs).1) u.same_seen ∙ ap (◌∷◌ (seen r)) same,
      (u.unlocked, free),
    )

-- A rollback that runs, on linked rows, succeeds, unlocks each row and shows readers of each what they
-- saw before; it leaves the transaction empty and not started.
pub rollback_all-restores :
    (t : Transaction)
    → t.start ≡ false
    → All IsLinked t.rows
    → ((rollback_all t).0 ≡ ok)
      × (map seen (rollback_all t).1 ≡ map seen t.rows)
      × All IsUnlocked (rollback_all t).1
      × ((rollback_all t).2 ≡ record { start = false; rows = [] })
unfolding rollback_all
rollback_all-restores t h l =
    let (good, same, free) = rollback_rows-seen t.rows l in rw h (good, same, free, refl)
