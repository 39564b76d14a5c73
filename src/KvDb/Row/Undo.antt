-- ===== src/KvDb/Row/Undo.antt =====
-- Rolling back a row.
use dbstream.Common.{
  ℕ, zero, suc, ◌+◌, ◌≤◌, ◌<◌, ◌≡◌, refl, sym, subst, ◌∙◌, ◌≢◌, List, [], ◌∷◌, Option, none, some,
  arith, length, length-set, set, All,
}
use dbstream.KvDb.Version.{ok}
use dbstream.KvDb.Row.{
  Version, Memory, Row, read, free_from, free_next, finish_rollback, rollback_from, rollback_at,
  rollback,
}
use dbstream.KvDb.Row.Versions.{read-bound, read-set_ne, read-set_self}
use dbstream.KvDb.Row.Chain.{Linked, IsLinked, seen, Linked-le, Linked-end}

-- The memory with the versions `ps` freed.
abbrev free_all : List ℕ → Memory → Memory
free_all [] m = m
free_all (p ∷ ps) m = free_all ps (set m p none)

Linked-set :
    (m : Memory) (p : ℕ) (ps : List ℕ) (b q : ℕ) (x : Option Version)
    → q < p
    → Linked m p ps b
    → Linked (set m q x) p ps b
Linked-set m p [] b q x h (same, v, r, n) =
    (same, v, read-set_ne m q p x (λ e. absurd (omega arith)) ∙ r, n)
Linked-set m p (p' ∷ ps) b q x h (lt, (v, r, n), l) = (
  lt,
  (v, read-set_ne m q p x (λ e. absurd (omega arith)) ∙ r, n),
  Linked-set m p' ps b q x (omega arith) l,
)

free_from-none : (fuel : ℕ) (m : Memory) → free_from fuel m none ≡ some m
unfolding free_from
free_from-none zero m = refl
free_from-none (suc fuel) m = refl

-- The fuel covers the places from `p` to the end of the chain.
free_from-Linked :
    (fuel : ℕ) (m : Memory) (p : ℕ) (ps : List ℕ) (b : ℕ)
    → b < fuel + p
    → Linked m p ps b
    → free_from fuel m (some p) ≡ some (free_all (p ∷ ps) m)
unfolding free_from free_next
free_from-Linked zero m p ps b h l = absurd (omega (arith, Linked-le m p ps b l))
free_from-Linked (suc fuel) m p [] b h (same, v, r, n) =
    rw (r, n) (free_from-none fuel (set m p none))
free_from-Linked (suc fuel) m p (p' ∷ ps) b h (lt, (v, r, n), l) =
    rw (r, n)
      (free_from-Linked fuel (set m p none) p' ps b (omega arith)
        (Linked-set m p' ps b p none lt l))

free_all-ne :
    (ps : List ℕ) (m : Memory) (q : ℕ) → All (λ p. p ≢ q) ps → read (free_all ps m) q ≡ read m q
free_all-ne [] m q h = refl
free_all-ne (p ∷ ps) m q h = free_all-ne ps (set m p none) q h.1 ∙ read-set_ne m p q none h.0

Linked-above :
    (m : Memory) (a : ℕ) (ps : List ℕ) (b q : ℕ) → q ≤ a → Linked m a ps b → All (λ p. p ≢ q) ps
Linked-above m a [] b q h l = tt
Linked-above m a (p ∷ ps) b q h l =
    let lt : a < p = l.0 in ((λ e. absurd (omega arith)), Linked-above m p ps b q (omega arith) l.2)

read-set-none : (m : Memory) (p q : ℕ) → read m q ≡ none → read (set m p none) q ≡ none
unfolding read
read-set-none [] p q h = refl
read-set-none (x ∷ m) zero zero h = refl
read-set-none (x ∷ m) zero (suc q) h = h
read-set-none (x ∷ m) (suc p) zero h = h
read-set-none (x ∷ m) (suc p) (suc q) h = read-set-none m p q h

read-freed : (ps : List ℕ) (m : Memory) (q : ℕ) → read m q ≡ none → read (free_all ps m) q ≡ none
read-freed [] m q h = h
read-freed (p ∷ ps) m q h = read-freed ps (set m p none) q (read-set-none m p q h)

free_all-free :
    (m : Memory) (p : ℕ) (ps : List ℕ) (b : ℕ)
    → Linked m p ps b
    → All (λ q. read (free_all (p ∷ ps) m) q ≡ none) (p ∷ ps)
free_all-free m p [] b l = (read-set_self m p none (read-bound m p l.1 l.2), tt)
free_all-free m p (p' ∷ ps) b (lt, (v, r, n), l) = (
  read-freed (p' ∷ ps) (set m p none) p (read-set_self m p none (read-bound m p v r)),
  free_all-free (set m p none) p' ps b (Linked-set m p' ps b p none lt l),
)

pub Linked-last :
    (m : Memory) (p : ℕ) (ps : List ℕ) (b : ℕ) (P : ℕ → Type 0)
    → Linked m p ps b
    → All P (p ∷ ps)
    → P b
Linked-last m p [] b P l a = subst P l.0 a.0
Linked-last m p (q ∷ ps) b P l a = Linked-last m q ps b P l.2 a.1

-- The row `s` is `r` without its pending versions.
pub record Undoes (r : Row) (l : IsLinked r) (s : Row) : Type 0 where
  pub unlocked : s.owner ≡ 0
  pub same_current : s.current ≡ some l.committed
  pub same_seen : seen s ≡ seen r
  pub ends : (v : Version) × (read s.versions l.committed ≡ some v) × (v.next ≡ none)
  pub freed : All (λ p. read s.versions p ≡ none) l.pending
  pub others :
      (q : ℕ) → q ≢ l.committed → All (λ p. p ≢ q) l.pending → read s.versions q ≡ read r.versions q
  pub stale_tail : s.tail ≡ r.tail

-- What `rollback` makes of the memory before it frees: the chain ends at the version `c`.
abbrev ended : Memory → ℕ → Version → Memory
ended m c v = set m c (some (record v { next = none }))

ended-frees :
    (m : Memory) (c : ℕ) (ps : List ℕ) (b : ℕ)
    → Linked m c ps b
    → (v : Version) × (read m c ≡ some v)
      × (free_from (suc (length (ended m c v))) (ended m c v) v.next
          ≡ some (free_all ps (ended m c v)))
      × All (λ p. read (free_all ps (ended m c v)) p ≡ none) ps
ended-frees m c [] b (same, v, r, n) = (
  v,
  r,
  subst (λ o. free_from (suc (length (ended m c v))) (ended m c v) o ≡ some (ended m c v)) (sym n)
      (free_from-none (suc (length (ended m c v))) (ended m c v)),
  tt,
)
ended-frees m c (p ∷ ps) b (lt, (v, r, n), l) =
    let k : Linked (ended m c v) p ps b = Linked-set m p ps b c _ lt l in
    let end = Linked-end m p ps b l in
    let inside : b < length (ended m c v) = rw length-set (read-bound m b end.0 end.1) in
    (
      v,
      r,
      subst
          (λ o.
            free_from (suc (length (ended m c v))) (ended m c v) o
            ≡ some (free_all (p ∷ ps) (ended m c v)))
          (sym n)
          (free_from-Linked (suc (length (ended m c v))) (ended m c v) p ps b (omega arith) k),
      free_all-free (ended m c v) p ps b k,
    )

-- A rollback of a linked row succeeds: it frees the pending versions and no other, keeps the committed
-- one, which ends the chain again, shows readers what they saw before, and unlocks the row. It leaves
-- the tail where it was.
pub rollback-Undoes : (r : Row) (l : IsLinked r) → ((rollback r).0 ≡ ok) × Undoes r l (rollback r).1
unfolding rollback rollback_at rollback_from finish_rollback
rollback-Undoes r l =
    let (v, at, run, freed) = ended-frees r.versions l.committed l.pending l.last l.linked in
    let c = l.committed in
    let kept : read (free_all l.pending (ended r.versions c v)) c
        ≡ some (record v { next = none }) =
      free_all-ne l.pending (ended r.versions c v) c
        (Linked-above r.versions c l.pending l.last c (omega arith) l.linked)
      ∙ read-set_self r.versions c _ (read-bound r.versions c v at) in
    rw (l.current_is, at, run)
      (
        refl,
        record {
          unlocked = refl;
          same_current = refl;
          same_seen = rw (l.current_is, kept, at) refl;
          ends = (record v { next = none }, kept, refl);
          freed = freed;
          others = λ q n a.
              free_all-ne l.pending (ended r.versions c v) q a
              ∙ read-set_ne r.versions c q _ (λ e. n (sym e));
          stale_tail = refl;
        },
      )
