-- ===== src/Cluster/FindBlock/Loop.antt =====
-- How the loop of `findBlock` ends.
use dbstream.Common.{
  ℕ, zero, suc, ◌+◌, ◌-◌, ◌/◌, ◌≤◌, ◌<◌, ◌≡◌, refl, ◌⊎◌, inl, inr, [], true, false, List, Bool,
  arith, ltb, Bool-cases, length, get_or, get_elem?-eq-get_or,
}
use native.Mathlib.Decide.{dec_lt}
use dbstream.Cluster.LogIndex.{
  LogIndexInfo, index_lt, index_gt, index_gt-swap, index_lt-total, index_lt_irrefl, index_lt_trans,
}
use dbstream.Cluster.Block.{Block}
use dbstream.Cluster.FindBlock.{Probe, hit, stop, out_of_bounds, out_of_fuel, find_loop}

abbrev pub no_index : LogIndexInfo
no_index = record { term = 0; log_index = 0 }

abbrev pub no_block : Block
no_block = record {
  idx_offset = 0;
  idx_log_index = no_index;
  content = [];
  volumn = 0;
  size = 0;
  writed_size = 0;
}

-- The log index that the block `k` begins with.
abbrev pub first_index : List Block → ℕ → LogIndexInfo
first_index bs k = (get_or bs k no_block).idx_log_index

-- Later blocks begin with later log indexes.
abbrev pub IsAscending : List Block → Type 0
IsAscending bs =
    (j k : ℕ) → j < k → k < length bs → index_lt (first_index bs j) (first_index bs k) ≡ true

-- The loop never leaves the array nor runs out of fuel, and keeps `s` and `high` in bounds.
abbrev pub Ends : List Block → LogIndexInfo → Probe → Type 0
Ends bs i (hit m) = (m < length bs) × (first_index bs m ≡ i)
Ends bs i (stop s high) = (s ≤ length bs) × (high ≤ s + 1)
Ends bs i out_of_bounds = ⊥
Ends bs i out_of_fuel = ⊥

pub find_loop-Ends :
    (fuel : ℕ) (bs : List Block) (s high : ℕ) (i : LogIndexInfo)
    → s ≤ high
    → s ≤ length bs
    → high ≤ length bs + 1
    → high < s + fuel
    → Ends bs i (find_loop fuel bs s high i)
unfolding find_loop
find_loop-Ends zero bs s high i o a b h = absurd (omega arith)
find_loop-Ends (suc fuel) bs s high i o a b h = elim (Bool-cases (ltb (s + 1) high)) [
  | inr e ↦ rw e (a, ground arith)
  | inl e ↦
      let m = (s + (high - 1)) / 2 in
      let inside : m < length bs = ground arith in
      rw (e, get_elem?-eq-get_or bs m no_block inside)
        (elim (Bool-cases (index_lt (first_index bs m) i)) [
          | inl l ↦
              rw l (
                find_loop-Ends fuel bs (m + 1) high i (ground arith) (omega arith) b (ground arith))
          | inr l ↦ elim (Bool-cases (index_gt (first_index bs m) i)) [
            | inl g ↦
                rw (l, g)
                  (find_loop-Ends fuel bs s m i (ground arith) a (omega arith) (ground arith))
            | inr g ↦
                rw (l, g)
                  (inside, index_lt-total _ _ l (rw (← index_gt-swap (first_index bs m) i) g))
          ]
        ])
]

pub ascending_reflects :
    (bs : List Block) (m k : ℕ)
    → IsAscending bs
    → m < length bs
    → index_lt (first_index bs m) (first_index bs k) ≡ true
    → m < k
ascending_reflects bs m k asc h l = elim (dec_lt m k) [
  | yes p ↦ p
  | no p ↦ elim (dec_lt k m) [
    | yes q ↦
        absurd (clash _ (index_lt_trans _ _ _ l (asc k m q h)) (index_lt_irrefl (first_index bs m)))
    | no q ↦
        let e : m ≡ k = omega arith in
        absurd (clash _ l (rw e (index_lt_irrefl (first_index bs k))))
  ]
]
  where
    clash : (b : Bool) → b ≡ true → b ≡ false → ⊥
    clash b p q = cc

module _ (bs : List Block) (i : LogIndexInfo) where
  -- A block that begins with `i` stays between the bounds, so the loop ends at it.
  pub find_loop-exact :
      (fuel s high k : ℕ)
      → IsAscending bs
      → first_index bs k ≡ i
      → k < length bs
      → s ≤ k
      → k < high
      → high ≤ length bs + 1
      → high < s + fuel
      → (find_loop fuel bs s high i ≡ hit k) ⊎ (find_loop fuel bs s high i ≡ stop k (suc k))
  unfolding find_loop
  find_loop-exact zero s high k asc eq lt a b c h = absurd (omega arith)
  find_loop-exact (suc fuel) s high k asc eq lt a b c h = elim (Bool-cases (ltb (s + 1) high)) [
    | inr e ↦
        let p : s ≡ k = ground arith in let q : high ≡ suc k = ground arith in inr (rw (e, p, q))
    | inl e ↦
        let m = (s + (high - 1)) / 2 in
        let inside : m < length bs = ground arith in
        rw (e, get_elem?-eq-get_or bs m no_block inside)
          (elim (Bool-cases (index_lt (first_index bs m) i)) [
            | inl l ↦
                let p : m < k = ascending_reflects bs m k asc inside (rw eq l) in
                rw l
                  (find_loop-exact fuel (m + 1) high k asc eq lt (omega arith) b c (ground arith))
            | inr l ↦ elim (Bool-cases (index_gt (first_index bs m) i)) [
              | inl g ↦
                  let p : k < m =
                    ascending_reflects bs k m asc lt
                      (rw (eq, ← index_gt-swap (first_index bs m) i) g) in
                  rw (l, g)
                    (find_loop-exact fuel s m k asc eq lt a (omega arith) (omega arith)
                      (ground arith))
              | inr g ↦
                  let p : m ≡ k =
                    ground (arith, asc m k, asc k m, index_gt-swap (first_index bs m) i, eq) in
                  rw (l, g, p) (inl refl)
            ]
          ])
  ]

  -- If all blocks begin before `i`, the loop ends behind the last one.
  pub find_loop-past :
      (fuel s : ℕ)
      → ((j : ℕ) → j < length bs → index_lt (first_index bs j) i ≡ true)
      → s ≤ length bs
      → length bs + 1 < s + fuel
      → find_loop fuel bs s (length bs + 1) i ≡ stop (length bs) (length bs + 1)
  unfolding find_loop
  find_loop-past zero s below a h = absurd (omega arith)
  find_loop-past (suc fuel) s below a h = elim (Bool-cases (ltb (s + 1) (length bs + 1))) [
    | inr e ↦ let p : s ≡ length bs = ground arith in rw (e, p)
    | inl e ↦
        let m = (s + (length bs + 1 - 1)) / 2 in
        let inside : m < length bs = ground arith in
        rw (e, get_elem?-eq-get_or bs m no_block inside, below m inside)
          (find_loop-past fuel (m + 1) below (omega arith) (ground arith))
  ]
