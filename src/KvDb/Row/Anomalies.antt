-- ===== src/KvDb/Row/Anomalies.antt =====
-- The ways in which the tail and the current version of a row come apart: the tail that a rollback
-- leaves, an insertion behind a deletion, and the first insertion.
use dbstream.Common.{
  ℕ, ◌≡◌, refl, ap, ◌∙◌, ◌⊎◌, inl, inr, true, List, [], ◌∷◌, ◌++◌, none, some, length, All,
}
use dbstream.KvDb.Version.{ok, fault, ColumnChange}
use dbstream.KvDb.Row.{
  r_insert, r_delete, Version, Memory, Row, read, lock, tail_kind, no_tail, broken_tail,
  deleted_tail, tail_at, tail_of, insert, insert_at, insert_after_lock, insert_locked, update,
  update_at, drop, drop_at, link, commit, rollback,
}
use dbstream.KvDb.Row.Versions.{read-append_end, grown-old}
use dbstream.KvDb.Row.Chain.{Linked, IsLinked, seen, seen_at, seen_columns}
use dbstream.KvDb.Row.Isolation.{lock-cases}
use dbstream.KvDb.Row.Undo.{Linked-last, rollback-Undoes}

tail_freed : (m : Memory) (p : ℕ) → read m p ≡ none → tail_of m (some p) ≡ broken_tail
unfolding tail_of tail_at
tail_freed m p h = rw h refl

-- A rollback that frees a version leaves the tail on a freed one, so that the next update, deletion
-- or insertion, by anyone, uses freed memory.
pub rollback-faults :
    (r : Row) (l : IsLinked r) (p : ℕ) (ps : List ℕ) (uid txn_id : ℕ) (changes : List ColumnChange)
    (new : Version)
    → l.pending ≡ p ∷ ps
    → ((update uid txn_id changes (rollback r).1).0 ≡ fault)
      × ((drop uid txn_id (rollback r).1).0 ≡ fault)
      × ((insert uid new (rollback r).1).0 ≡ fault)
unfolding update drop insert update_at drop_at insert_at
rollback-faults r l p ps uid txn_id changes new e =
    let (_, u) = rollback-Undoes r l in
    let chain : Linked r.versions l.committed (p ∷ ps) l.last = rw e at l.linked in
    let freed : All (λ q. read (rollback r).1.versions q ≡ none) (p ∷ ps) = rw e at u.freed in
    let last_freed : read (rollback r).1.versions l.last ≡ none =
      Linked-last r.versions p ps l.last (λ q. read (rollback r).1.versions q ≡ none) chain.2
        freed in
    let broken : tail_of (rollback r).1.versions (rollback r).1.tail ≡ broken_tail =
      ap (tail_of (rollback r).1.versions) (u.stale_tail ∙ l.tail_is)
      ∙ tail_freed _ l.last last_freed in
    rw broken (refl, refl, refl)

tail_deleted :
    (m : Memory) (p : ℕ) (v : Version)
    → read m p ≡ some v
    → v.record_type ≡ r_delete
    → tail_of m (some p) ≡ deleted_tail p v
unfolding tail_of tail_at
tail_deleted m p v h d = rw (h, d) (unfold tail_kind in refl)

lock-free :
    (uid : ℕ) (r : Row)
    → (r.owner ≡ 0) ⊎ (r.owner ≡ uid)
    → lock uid r ≡ (true, record r { owner = uid })
lock-free uid r free = elim (lock-cases uid r) [
  | inl (_, e) ↦ e
  | inr (a, b, _) ↦ absurd (elim free [ inl f ↦ a f | inr own ↦ b own ])
]

insert-behind :
    (uid : ℕ) (new : Version) (r : Row) (p : ℕ) (v : Version)
    → (r.owner ≡ 0) ⊎ (r.owner ≡ uid)
    → r.tail ≡ some p
    → read r.versions p ≡ some v
    → v.record_type ≡ r_delete
    → insert uid new r ≡ (
      ok,
      record r {
        owner = uid;
        versions =
            link r.versions p v (length r.versions) ++ some (record new { prev = some p }) ∷ [];
      },
    )
unfolding insert insert_at insert_after_lock insert_locked
insert-behind uid new r p v free t h d =
    let kind : tail_of r.versions r.tail ≡ deleted_tail p v =
      ap (tail_of r.versions) t ∙ tail_deleted r.versions p v h d in
    rw (kind, lock-free uid r free) refl

insert-first :
    (uid : ℕ) (new : Version) (r : Row)
    → (r.owner ≡ 0) ⊎ (r.owner ≡ uid)
    → r.tail ≡ none
    → insert uid new r ≡ (
      ok,
      record {
        current = some (length r.versions);
        head = some (length r.versions);
        tail = some (length r.versions);
        owner = uid;
        versions = r.versions ++ some new ∷ [];
      },
    )
unfolding insert insert_at insert_after_lock insert_locked
insert-first uid new r free t =
    let kind : tail_of r.versions r.tail ≡ no_tail =
      ap (tail_of r.versions) t ∙ (unfold tail_of in refl) in
    rw (kind, lock-free uid r free) refl

-- An insertion behind a deletion succeeds, but does not move the tail to the new version: a commit
-- publishes the deletion, and readers do not get the row.
pub insert-lost :
    (uid : ℕ) (new : Version) (r : Row) (l : IsLinked r) (v : Version)
    → (r.owner ≡ 0) ⊎ (r.owner ≡ uid)
    → read r.versions l.last ≡ some v
    → v.record_type ≡ r_delete
    → ((insert uid new r).0 ≡ ok) × (seen (commit (insert uid new r).1) ≡ none)
unfolding commit
insert-lost uid new r l v free h deleted =
    rw (insert-behind uid new r l.last v free l.tail_is h deleted) (
      refl,
      ap (seen_at _) l.tail_is
          ∙ ap seen_columns (grown-old r.versions l.last v _ h)
          ∙ (rw deleted refl),
    )

-- The first insertion of a row makes its version the current one at once: readers see it before the
-- commit, and still after a rollback.
pub insert-visible :
    (uid : ℕ) (new : Version) (r : Row)
    → r.tail ≡ none
    → (r.owner ≡ 0) ⊎ (r.owner ≡ uid)
    → new.record_type ≡ r_insert
    → new.next ≡ none
    → ((insert uid new r).0 ≡ ok)
      × (seen (insert uid new r).1 ≡ some new.columns)
      × (seen (rollback (insert uid new r).1).1 ≡ some new.columns)
insert-visible uid new r t free i n =
    let end = read-append_end r.versions new in
    let seen_now : seen_columns (some new) ≡ some new.columns = rw i refl in
    let l : IsLinked (insert uid new r).1 = rw (insert-first uid new r free t) (record {
      committed = length r.versions;
      pending = [];
      last = length r.versions;
      current_is = refl;
      tail_is = refl;
      linked = (refl, new, end, n);
    }) in
    let shown : seen (insert uid new r).1 ≡ some new.columns =
      rw (insert-first uid new r free t) (ap seen_columns end ∙ seen_now) in
    (
      rw (insert-first uid new r free t) refl,
      shown,
      (rollback-Undoes (insert uid new r).1 l).1.same_seen ∙ shown,
    )
