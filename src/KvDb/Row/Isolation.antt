-- ===== src/KvDb/Row/Isolation.antt =====
-- What a change of a row does for its writer, for other writers and for readers.
use dbstream.Common.{
  ℕ, ◌≡◌, refl, sym, subst, ◌≢◌, ◌⊎◌, inl, inr, true, false, List, [], Option, none, some, arith,
  ◌==◌, Bool-cases, length,
}
use dbstream.KvDb.Version.{
  Status, ok, field_not_found, fault, Column, ColumnChange, fields_exist, update_columns,
}
use dbstream.KvDb.Row.{
  r_insert, r_delete, Version, Row, read, lock, Tail, no_tail, broken_tail, deleted_tail, live_tail,
  tail_of, finish_update, update_after_lock, insert, insert_at, insert_after_lock, update_at,
  update, drop_after_lock, drop_at, drop,
}
use dbstream.KvDb.Row.Chain.{IsLinked, linked_tail, Adds, append_version-Adds}

pub lock-cases :
    (uid : ℕ) (r : Row)
    → (((r.owner ≡ 0) ⊎ (r.owner ≡ uid)) × (lock uid r ≡ (true, record r { owner = uid })))
      ⊎ ((r.owner ≢ 0) × (r.owner ≢ uid) × (lock uid r ≡ (false, r)))
unfolding lock
lock-cases uid r = elim (Bool-cases (r.owner == 0)) [
  | inl free ↦ inl (inl (ground arith), rw free refl)
  | inr taken ↦ elim (Bool-cases (r.owner == uid)) [
    | inl own ↦ inl (inr (ground arith), rw (taken, own) refl)
    | inr other ↦
        inr ((λ e. absurd (ground arith)), (λ e. absurd (ground arith)), rw (taken, other) refl)
  ]
]

update_columns-cases :
    (old : List Column) (changes : List ColumnChange)
    → (update_columns old changes ≡ (ok, (update_columns old changes).1))
      ⊎ (update_columns old changes ≡ (field_not_found, []))
unfolding update_columns
update_columns-cases old changes = elim (Bool-cases (fields_exist (length old) changes)) [
  | inl e ↦ rw e (inl refl)
  | inr e ↦ rw e (inr refl)
]

-- An operation reports `s` and changes nothing but the owner.
abbrev pub Refuses : Row → Status × Row → Type 0
Refuses r (s, t) = (s ≢ ok) × (s ≢ fault) × (t ≡ record r { owner = t.owner })

-- An operation adds a version with the given contents to the live version `v`.
abbrev pub Grows : ℕ → Row → ℕ → (Version → Option (List Column)) → Status × Row → Type 0
Grows uid r last shown (s, t) =
    (s ≡ ok)
    × ((v : Version) × (read r.versions last ≡ some v)
        × (v.record_type ≡ r_insert)
        × Adds uid r t (shown v))

module _ (uid txn_id : ℕ) (r : Row) (l : IsLinked r) (v : Version)
    (h : read r.versions l.last ≡ some v) (live : v.record_type ≡ r_insert) where
  update_after_lock-Outcome :
      (changes : List ColumnChange)
      → Grows uid r l.last
          (λ w. some (update_columns w.columns changes).1)
          (update_after_lock txn_id changes l.last v (lock uid r))
        ⊎ Refuses r (update_after_lock txn_id changes l.last v (lock uid r))
  unfolding update_after_lock finish_update
  update_after_lock-Outcome changes = elim (lock-cases uid r) [
    | inr (a, b, e) ↦ rw e (inr ((λ q. cc), (λ q. cc), refl))
    | inl (free, e) ↦ rw e (elim (update_columns-cases v.columns changes) [
      | inl good ↦
          subst P (sym good)
            (inl (refl, (v, h, live, append_version-Adds uid r l v r_insert txn_id _ free h)))
      | inr bad ↦ rw bad (inr ((λ q. cc), (λ q. cc), refl))
    ])
  ]
    where
      P : Status × List Column → Type 0
      P o =
          Grows uid r l.last (λ w. some (update_columns w.columns changes).1)
            (finish_update (record r { owner = uid }) l.last v txn_id o)
          ⊎ Refuses r (finish_update (record r { owner = uid }) l.last v txn_id o)

  drop_after_lock-Outcome :
      Grows uid r l.last (λ w. none) (drop_after_lock txn_id l.last v (lock uid r))
      ⊎ Refuses r (drop_after_lock txn_id l.last v (lock uid r))
  unfolding drop_after_lock
  drop_after_lock-Outcome = elim (lock-cases uid r) [
    | inr (a, b, e) ↦ rw e (inr ((λ q. cc), (λ q. cc), refl))
    | inl (free, e) ↦
        rw e (inl (refl, (v, h, live, append_version-Adds uid r l v r_delete txn_id [] free h)))
  ]

-- An update of a linked row by `uid` either succeeds, and then nobody else held the lock, `uid` holds
-- it, readers still see the committed version, and a commit would show the changed columns of the
-- version at the tail; or it reports an error and changes nothing but the owner.
pub update-Outcome :
    (uid txn_id : ℕ) (changes : List ColumnChange) (r : Row) (l : IsLinked r)
    → Grows uid r l.last
        (λ v. some (update_columns v.columns changes).1)
        (update uid txn_id changes r)
      ⊎ Refuses r (update uid txn_id changes r)
unfolding update update_at
update-Outcome uid txn_id changes r l =
    let (v, h, kind) = linked_tail r l in
    elim kind [
      | inl (live, t) ↦ rw t (update_after_lock-Outcome uid txn_id r l v h live changes)
      | inr (deleted, t) ↦ rw t (inr ((λ q. cc), (λ q. cc), refl))
    ]

-- A deletion of a linked row by `uid` either succeeds, and then nobody else held the lock, `uid` holds
-- it, readers still see the committed version, and a commit would show no row; or it reports an error
-- and changes nothing but the owner.
pub drop-Outcome :
    (uid txn_id : ℕ) (r : Row) (l : IsLinked r)
    → Grows uid r l.last (λ v. none) (drop uid txn_id r) ⊎ Refuses r (drop uid txn_id r)
unfolding drop drop_at
drop-Outcome uid txn_id r l =
    let (v, h, kind) = linked_tail r l in
    elim kind [
      | inl (live, t) ↦ rw t (drop_after_lock-Outcome uid txn_id r l v h live)
      | inr (deleted, t) ↦ rw t (inr ((λ q. cc), (λ q. cc), refl))
    ]

-- An operation does not succeed, and leaves all as it is.
abbrev pub Blocked : Row → Status × Row → Type 0
Blocked r (s, t) = (s ≢ ok) × (t ≡ r)

module _ (uid : ℕ) (r : Row) (held : lock uid r ≡ (false, r)) where
  update_at-Blocked :
      (txn_id : ℕ) (changes : List ColumnChange) (t : Tail)
      → Blocked r (update_at uid txn_id changes r t)
  unfolding update_at update_after_lock
  update_at-Blocked txn_id changes no_tail = ((λ q. cc), refl)
  update_at-Blocked txn_id changes broken_tail = ((λ q. cc), refl)
  update_at-Blocked txn_id changes (deleted_tail p v) = ((λ q. cc), refl)
  update_at-Blocked txn_id changes (live_tail p v) = rw held ((λ q. cc), refl)

  drop_at-Blocked : (txn_id : ℕ) (t : Tail) → Blocked r (drop_at uid txn_id r t)
  unfolding drop_at drop_after_lock
  drop_at-Blocked txn_id no_tail = ((λ q. cc), refl)
  drop_at-Blocked txn_id broken_tail = ((λ q. cc), refl)
  drop_at-Blocked txn_id (deleted_tail p v) = ((λ q. cc), refl)
  drop_at-Blocked txn_id (live_tail p v) = rw held ((λ q. cc), refl)

  insert_at-Blocked : (new : Version) (t : Tail) → Blocked r (insert_at uid new r t)
  unfolding insert_at insert_after_lock
  insert_at-Blocked new no_tail = rw held ((λ q. cc), refl)
  insert_at-Blocked new broken_tail = ((λ q. cc), refl)
  insert_at-Blocked new (deleted_tail p v) = rw held ((λ q. cc), refl)
  insert_at-Blocked new (live_tail p v) = ((λ q. cc), refl)

-- While another client holds a row, an update, a deletion and an insertion do not succeed and leave
-- all of the row as it is.
pub held-Blocked :
    (uid txn_id : ℕ) (changes : List ColumnChange) (new : Version) (r : Row)
    → r.owner ≢ 0
    → r.owner ≢ uid
    → Blocked r (update uid txn_id changes r)
      × Blocked r (drop uid txn_id r)
      × Blocked r (insert uid new r)
unfolding update drop insert
held-Blocked uid txn_id changes new r a b = elim (lock-cases uid r) [
  | inl (free, e) ↦ absurd (elim free [ inl f ↦ a f | inr own ↦ b own ])
  | inr (_, _, e) ↦
      let t = tail_of r.versions r.tail in
      (
        update_at-Blocked uid r e txn_id changes t,
        drop_at-Blocked uid r e txn_id t,
        insert_at-Blocked uid r e new t,
      )
]
