-- ===== src/KvDb/Row/Chain.antt =====
-- The chain of a row: what each operation does to it, and what a reader sees meanwhile.
use dbstream.Common.{
  ℕ, ◌≤◌, ◌<◌, ◌≡◌, refl, sym, ap, subst, ◌∙◌, ◌⊎◌, inl, inr, List, [], ◌∷◌, ◌++◌, Option, none,
  some, arith, ◌==◌, Bool-cases, length,
}
use dbstream.KvDb.Version.{Column}
use dbstream.KvDb.Row.{
  RecordType, r_insert, r_delete, Version, Memory, Row, read, deleted_tail, live_tail, tail_kind,
  tail_at, tail_of, append_version, commit,
}
use dbstream.KvDb.Row.Versions.{read-bound, grown, grown-ne, grown-old, grown-new}

-- From `a`, the `next` pointers lead over `ps` to the end `b`, each forward in the memory.
abbrev pub Linked : Memory → ℕ → List ℕ → ℕ → Type 0
Linked m a [] b = (a ≡ b) × (v : Version) × (read m a ≡ some v) × (v.next ≡ none)
Linked m a (p ∷ ps) b =
    (a < p) × ((v : Version) × (read m a ≡ some v) × (v.next ≡ some p)) × Linked m p ps b

-- Following the chain never leads back.
pub Linked-le : (m : Memory) (a : ℕ) (ps : List ℕ) (b : ℕ) → Linked m a ps b → a ≤ b
Linked-le m a [] b l = omega (arith, l.0)
Linked-le m a (p ∷ ps) b l = omega (arith, l.0, Linked-le m p ps b l.2)

Linked-grown :
    (m : Memory) (a : ℕ) (ps : List ℕ) (b : ℕ) (v w : Version)
    → read m b ≡ some v
    → w.next ≡ none
    → Linked m a ps b
    → Linked (grown m b v w) a (ps ++ length m ∷ []) (length m)
Linked-grown m a [] b v w h e l =
    subst (λ x. Linked (grown m b v w) x (length m ∷ []) (length m)) (sym l.0)
      (
        read-bound m b v h,
        (record v { next = some (length m) }, grown-old m b v w h, refl),
        (refl, w, grown-new m b v w h, e),
      )
Linked-grown m a (p ∷ ps) b v w h e (lt, (u, r, n), l) =
    let le = Linked-le m p ps b l in
    (
      lt,
      (u, grown-ne m b v w h a (λ q. absurd (omega arith)) (read-bound m a u r) ∙ r, n),
      Linked-grown m p ps b v w h e l,
    )

pub Linked-end :
    (m : Memory) (a : ℕ) (ps : List ℕ) (b : ℕ)
    → Linked m a ps b
    → (v : Version) × (read m b ≡ some v) × (v.next ≡ none)
Linked-end m a [] b (same, v, r, n) = (v, subst (λ x. read m x ≡ some v) same r, n)
Linked-end m a (p ∷ ps) b l = Linked-end m p ps b l.2

-- The committed version of a row, and the versions behind it, up to the tail.
pub record IsLinked (r : Row) : Type 0 where
  pub committed : ℕ
  pub pending : List ℕ
  pub last : ℕ
  pub current_is : r.current ≡ some committed
  pub tail_is : r.tail ≡ some last
  pub linked : Linked r.versions committed pending last

append_version-IsLinked :
    (r : Row) (p : ℕ) (v : Version) (type : RecordType) (txn_id : ℕ) (columns : List Column)
    → (l : IsLinked r) → l.last ≡ p
    → read r.versions p ≡ some v
    → (k : IsLinked (append_version r p v type txn_id columns)) × (k.committed ≡ l.committed)
      × (k.pending ≡ l.pending ++ length r.versions ∷ [])
unfolding append_version
append_version-IsLinked r p v type txn_id columns l e h = (
  record {
    committed = l.committed;
    pending = l.pending ++ length r.versions ∷ [];
    last = length r.versions;
    current_is = l.current_is;
    tail_is = refl;
    linked =
        Linked-grown r.versions l.committed l.pending p v _ h refl
          (subst (λ x. Linked r.versions l.committed l.pending x) e l.linked);
  },
  refl,
  refl,
)

-- What a reader gets: the columns of the committed version, if that is not a deletion.
abbrev pub seen_columns : Option Version → Option (List Column)
seen_columns none = none
seen_columns (some v) = elim v.record_type [ r_delete ↦ none | r_insert ↦ some v.columns ]

abbrev pub seen_at : Memory → Option ℕ → Option (List Column)
seen_at m none = none
seen_at m (some p) = seen_columns (read m p)

abbrev pub seen : Row → Option (List Column)
seen r = seen_at r.versions r.current

seen-grown :
    (m : Memory) (b : ℕ) (v w : Version) (c : ℕ)
    → read m b ≡ some v
    → c < length m
    → seen_columns (read (grown m b v w) c) ≡ seen_columns (read m c)
seen-grown m b v w c h k = elim (Bool-cases (c == b)) [
  | inl e ↦
      let same : c ≡ b = ground arith in
      subst (λ x. seen_columns (read (grown m b v w) x) ≡ seen_columns (read m x)) (sym same)
        (rw (grown-old m b v w h, h) refl)
  | inr n ↦ ap seen_columns (grown-ne m b v w h c (λ e. absurd (ground arith)) k)
]

tail_kind-cases :
    (p : ℕ) (v : Version) (t : RecordType)
    → ((t ≡ r_insert) × (tail_kind p v t ≡ live_tail p v))
      ⊎ ((t ≡ r_delete) × (tail_kind p v t ≡ deleted_tail p v))
unfolding tail_kind
tail_kind-cases p v r_insert = inl (refl, refl)
tail_kind-cases p v r_delete = inr (refl, refl)

-- The tail of a linked row is a version of it.
pub linked_tail :
    (r : Row) (l : IsLinked r)
    → (v : Version) × (read r.versions l.last ≡ some v)
      × (((v.record_type ≡ r_insert) × (tail_of r.versions r.tail ≡ live_tail l.last v))
          ⊎ ((v.record_type ≡ r_delete) × (tail_of r.versions r.tail ≡ deleted_tail l.last v)))
unfolding tail_of tail_at
linked_tail r l =
    let (v, h, n) = Linked-end r.versions l.committed l.pending l.last l.linked in
    (v, h, rw (l.tail_is, h) (tail_kind-cases l.last v v.record_type))

committed-bound : (m : Memory) (a : ℕ) (ps : List ℕ) (b : ℕ) → Linked m a ps b → a < length m
committed-bound m a [] b (same, v, r, n) = read-bound m a v r
committed-bound m a (p ∷ ps) b (lt, (v, r, n), l) = read-bound m a v r

-- `r` became `s`: one version with the given type and columns more, which no reader sees before the
-- commit, and every reader after it.
pub record Adds (uid : ℕ) (r s : Row) (shown : Option (List Column)) : Type 0 where
  pub was_free : (r.owner ≡ 0) ⊎ (r.owner ≡ uid)
  pub owned : s.owner ≡ uid
  pub linked : IsLinked s
  pub hidden : seen s ≡ seen r
  pub published : seen (commit s) ≡ shown

pub append_version-Adds :
    (uid : ℕ) (r : Row) (l : IsLinked r) (v : Version) (type : RecordType) (txn_id : ℕ)
    (columns : List Column)
    → (r.owner ≡ 0) ⊎ (r.owner ≡ uid)
    → read r.versions l.last ≡ some v
    → Adds uid r (append_version (record r { owner = uid }) l.last v type txn_id columns) (
        seen_columns (
          some (record {
            prev = some l.last;
            next = none;
            record_type = type;
            txn_id = txn_id;
            columns = columns;
          })))
unfolding append_version commit
append_version-Adds uid r l v type txn_id columns free h =
    let l' : IsLinked (record r { owner = uid }) = record {
      committed = l.committed;
      pending = l.pending;
      last = l.last;
      current_is = l.current_is;
      tail_is = l.tail_is;
      linked = l.linked;
    } in
    record {
      was_free = free;
      owned = refl;
      linked =
          (append_version-IsLinked (record r { owner = uid }) l.last v type txn_id columns l' refl
            h).0;
      hidden = rw l.current_is (
          seen-grown r.versions l.last v _ l.committed h
            (committed-bound r.versions l.committed l.pending l.last l.linked));
      published = ap seen_columns (grown-new r.versions l.last v _ h);
    }
