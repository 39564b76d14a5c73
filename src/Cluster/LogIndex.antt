-- ===== src/Cluster/LogIndex.antt =====
-- cluster/rpc.h: the position of an entry in the cluster log, ordered by term, then by index.
use dbstream.Common.{
  ℕ, ◌<◌, ◌≡◌, ◌⊎◌, ◌↔◌, inl, inr, Bool-cases, Bool, true, false, not, ◌&&◌, ◌||◌, arith, ltb, leb,
  ◌==◌,
}

pub record LogIndexInfo : Type 0 where
  pub term : ℕ
  pub log_index : ℕ

-- The six comparison operators of the struct.
unfoldable pub index_lt : LogIndexInfo → LogIndexInfo → Bool
index_lt a b = ltb a.term b.term || (a.term == b.term && ltb a.log_index b.log_index)

unfoldable pub index_le : LogIndexInfo → LogIndexInfo → Bool
index_le a b = ltb a.term b.term || (a.term == b.term && leb a.log_index b.log_index)

unfoldable pub index_gt : LogIndexInfo → LogIndexInfo → Bool
index_gt a b = ltb b.term a.term || (a.term == b.term && ltb b.log_index a.log_index)

unfoldable pub index_ge : LogIndexInfo → LogIndexInfo → Bool
index_ge a b = ltb b.term a.term || (a.term == b.term && leb b.log_index a.log_index)

unfoldable pub index_eq : LogIndexInfo → LogIndexInfo → Bool
index_eq a b = a.term == b.term && a.log_index == b.log_index

unfoldable pub index_ne : LogIndexInfo → LogIndexInfo → Bool
index_ne a b = not (a.term == b.term) || not (a.log_index == b.log_index)

-- The order as a relation, which the proofs about the log use.
abbrev pub Before : LogIndexInfo → LogIndexInfo → Type 0
Before a b = (a.term < b.term) ⊎ ((a.term ≡ b.term) × (a.log_index < b.log_index))

-- The test `<` decides that relation.
pub index_lt_sound : (a b : LogIndexInfo) → index_lt a b ≡ true → Before a b
unfolding index_lt
index_lt_sound a b h = ground arith

pub index_lt_complete : (a b : LogIndexInfo) → Before a b → index_lt a b ≡ true
unfolding index_lt
index_lt_complete a b h = ground arith

pub index_lt_irrefl : (a : LogIndexInfo) → index_lt a a ≡ false
unfolding index_lt
index_lt_irrefl a = ground arith

pub index_lt_trans :
    (a b c : LogIndexInfo) → index_lt a b ≡ true → index_lt b c ≡ true → index_lt a c ≡ true
unfolding index_lt
index_lt_trans a b c h k = ground arith

pub index_eq_sound : (a b : LogIndexInfo) → index_eq a b ≡ true → a ≡ b
unfolding index_eq
index_eq_sound a b h = ground arith

pub index_eq_refl : (a : LogIndexInfo) → index_eq a a ≡ true
unfolding index_eq
index_eq_refl a = ground arith

pub index_ne-not : (a b : LogIndexInfo) → index_ne a b ≡ not (index_eq a b)
unfolding index_ne index_eq
index_ne-not a b = ground arith

pub index_le-not : (a b : LogIndexInfo) → index_le a b ≡ not (index_lt b a)
unfolding index_le index_lt
index_le-not a b = ground arith

pub index_ge-not : (a b : LogIndexInfo) → index_ge a b ≡ not (index_lt a b)
unfolding index_ge index_lt
index_ge-not a b = ground arith

pub index_gt-swap : (a b : LogIndexInfo) → index_gt a b ≡ index_lt b a
unfolding index_gt index_lt
index_gt-swap a b = ground arith

pub index_lt-total : (a b : LogIndexInfo) → index_lt a b ≡ false → index_lt b a ≡ false → a ≡ b
unfolding index_lt
index_lt-total a b h k = ground arith

pub index_lt_le_trans :
    (a b c : LogIndexInfo) → index_lt a b ≡ true → index_le b c ≡ true → index_lt a c ≡ true
unfolding index_lt index_le
index_lt_le_trans a b c h k = ground arith

pub index_eq_le : (a b : LogIndexInfo) → a ≡ b → index_le a b ≡ true
unfolding index_le
index_eq_le a b h = rw h (ground arith)

-- The six tests decide one order: `<` is the order by term, then by index, `<=`, `>=` and `>` are what
-- they should be by it, `==` is equality and `!=` its negation; of two positions that differ one is
-- before the other, and not both ways round.
index_order :
    (a b : LogIndexInfo)
    → ((index_lt a b ≡ true) ↔ Before a b)
      × (index_gt a b ≡ index_lt b a)
      × (index_le a b ≡ not (index_lt b a))
      × (index_ge a b ≡ not (index_lt a b))
      × ((index_eq a b ≡ true) ↔ (a ≡ b))
      × (index_ne a b ≡ not (index_eq a b))
      × (Before a b ⊎ (a ≡ b) ⊎ Before b a)
      × ¬ (Before a b × Before b a)
index_order a b = (
  (index_lt_sound a b, index_lt_complete a b),
  index_gt-swap a b,
  index_le-not a b,
  index_ge-not a b,
  (index_eq_sound a b, λ e. rw e (index_eq_refl b)),
  index_ne-not a b,
  elim (Bool-cases (index_lt a b)) [
    | inl l ↦ inl (index_lt_sound a b l)
    | inr n ↦ elim (Bool-cases (index_lt b a)) [
      | inl g ↦ inr (inr (index_lt_sound b a g))
      | inr m ↦ inr (inl (index_lt-total a b n m))
    ]
  ],
  λ p. absurd (ground arith),
)
