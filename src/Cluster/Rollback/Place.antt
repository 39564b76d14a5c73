-- ===== src/Cluster/Rollback/Place.antt =====
-- Where the blocks that a rollback of cluster/clusterLogFile.cpp leaves lie, and which entries a block
-- keeps that is cut short.
use mathlib.Core.List.{append_assoc}
use dbstream.Common.{
  ℕ, zero, suc, ◌+◌, ◌-◌, ◌%◌, ◌^◌, ◌≤◌, ◌<◌, ◌≡◌, refl, sym, ap, ◌∙◌, ◌⊎◌, inl, inr, true, false,
  List, [], ◌∷◌, ◌++◌, some, arith, leb, ◌==◌, Bool-cases, length, length-append, get_elem?, set,
  take, All,
}
use dbstream.Cluster.Block.{LogEntry, Block, cut}
use dbstream.Cluster.Block.Layout.{HasSize, total, block_entries, total-append}
use dbstream.Cluster.LogFile.{header_size}
use dbstream.Cluster.LogFile.Shape.{BlockIsValid, Shaped, HasTail, StartsWith, entries, Shaped-last}
use dbstream.Cluster.Rollback.{end_offset, last_block}

-- The blocks around the one at an index.
pub split_at :
    (bs : List Block) (k : ℕ) (b : Block)
    → get_elem? bs k ≡ some b
    → (pre : List Block) × (post : List Block) × (bs ≡ pre ++ b ∷ post) × (length pre ≡ k)
split_at [] k b h = cc
split_at (x ∷ bs) zero b h = ([], bs, ground arith, refl)
split_at (x ∷ bs) (suc k) b h =
    let (pre, post, e, l) = split_at bs k b h in (x ∷ pre, post, ap (◌∷◌ x) e, ap suc l)

Shaped-within : (off end : ℕ) (bs : List Block) → Shaped off bs end → off ≤ end
Shaped-within off end [] s = omega arith
Shaped-within off end (b ∷ bs) s = omega (arith, Shaped-within (off + b.size) end bs s.2)

-- A block in the middle, and where it begins and ends.
pub Shaped-split :
    (off end : ℕ) (pre : List Block) (b : Block) (post : List Block)
    → Shaped off (pre ++ b ∷ post) end
    → (mid : ℕ) × Shaped off pre mid × BlockIsValid b × (b.idx_offset ≡ mid) × (mid + b.size ≤ end)
Shaped-split off end [] b post s = (off, refl, s.0, s.1, Shaped-within (off + b.size) end post s.2)
Shaped-split off end (x ∷ pre) b post s =
    let (mid, t, v, e, k) = Shaped-split (off + x.size) end pre b post s.2 in
    (mid, (s.0, s.1, t), v, e, k)

pub set-at :
    (pre : List Block) (b c : Block) (post : List Block)
    → set (pre ++ b ∷ post) (length pre) c ≡ pre ++ c ∷ post
set-at [] b c post = refl
set-at (x ∷ pre) b c post = ap (◌∷◌ x) (set-at pre b c post)

pub take-prefix : (xs ys : List Block) → take (length xs) (xs ++ ys) ≡ xs
take-prefix [] ys = refl
take-prefix (x ∷ xs) ys = ap (◌∷◌ x) (take-prefix xs ys)

get_elem?-middle :
    (pre : List Block) (b : Block) (post : List Block)
    → get_elem? (pre ++ b ∷ post) (length pre) ≡ some b
get_elem?-middle [] b post = refl
get_elem?-middle (x ∷ pre) b post = get_elem?-middle pre b post

last_of :
    (bs : List Block) → (bs ≡ []) ⊎ ((init : List Block) × (b : Block) × (bs ≡ init ++ b ∷ []))
last_of [] = inl refl
last_of (x ∷ bs) = elim (last_of bs) [
  | inl e ↦ inr ([], x, rw e refl)
  | inr (init, b, e) ↦ inr (x ∷ init, b, rw e refl)
]

last_block-last :
    (init : List Block) (b : Block) → last_block (length (init ++ b ∷ [])) ≡ some (length init)
unfolding last_block
last_block-last init b =
    let n : length (init ++ b ∷ []) ≡ length init + 1 = length-append init (b ∷ []) in
    let m : (length init + 1 == 0) ≡ false = ground arith in
    let l : length init + 1 - 1 ≡ length init = omega arith in rw (n, m, l) refl

-- The new current block is the last one.
pub last_block-HasTail : (bs : List Block) → HasTail bs (last_block (length bs))
unfolding last_block
last_block-HasTail bs = elim (last_of bs) [
  | inl e ↦ inl (e, rw e refl)
  | inr (init, b, e) ↦ inr (init, b, e, rw e (last_block-last init b))
]

-- The blocks end at the offset, or there are none and the offset is 0.
abbrev pub Placed : List Block → ℕ → Type 0
Placed bs off = Shaped header_size bs off ⊎ ((bs ≡ []) × (off ≡ 0))

-- The new offset is the end of the new last block.
pub end_offset-Placed :
    (bs rest : List Block) (mid : ℕ)
    → Shaped header_size bs mid
    → mid < 2 ^ 32
    → Placed bs (end_offset (bs ++ rest) (last_block (length bs)))
unfolding end_offset last_block
end_offset-Placed bs rest mid s small = elim (last_of bs) [
  | inl e ↦ inr (e, rw e refl)
  | inr (init, b, e) ↦
      let (at, t, v, begins, ends) = Shaped-last header_size mid init b (rw e at s) in
      let read : get_elem? (bs ++ rest) (length init) ≡ some b =
        rw (e, append_assoc init (b ∷ []) rest) (get_elem?-middle init b rest) in
      let word : (b.idx_offset + b.size) % 2 ^ 32 ≡ mid = omega arith in
      let current : last_block (length bs) ≡ some (length init) = rw e (last_block-last init b) in
      inl (rw (current, end_offset, read, word) s)
]

pub Shaped-at :
    (off end : ℕ) (pre : List Block) (b : Block) (post : List Block)
    → Shaped off (pre ++ b ∷ post) end
    → BlockIsValid b
Shaped-at off end pre b post s = let (mid, t, v, e, k) = Shaped-split off end pre b post s in v

pub entries-append : (xs ys : List Block) → entries (xs ++ ys) ≡ entries xs ++ entries ys
entries-append [] ys = refl
entries-append (x ∷ xs) ys = rw (entries-append xs ys, append_assoc)

pub regroup : (ws xs ys zs : List LogEntry) → ws ++ (xs ++ ys) ++ zs ≡ ws ++ xs ++ (ys ++ zs)
regroup [] xs ys zs = append_assoc xs ys zs
regroup (w ∷ ws) xs ys zs = ap (◌∷◌ w) (regroup ws xs ys zs)

cut-zero : (xs : List LogEntry) → All HasSize xs → cut 0 xs ≡ []
unfolding cut
cut-zero [] h = refl
cut-zero (x ∷ xs) h = ground arith

pub cut-prefix :
    (n : ℕ) (xs ps qs : List LogEntry)
    → All HasSize xs
    → cut n xs ≡ ps ++ qs
    → cut (total ps) xs ≡ ps
unfolding cut
cut-prefix n xs [] qs h e = cut-zero xs h
cut-prefix n [] (p ∷ ps) qs h e = cc
cut-prefix n (x ∷ xs) (p ∷ ps) qs h e = elim (Bool-cases (leb x.size n)) [
  | inr c ↦ absurd (ground arith)
  | inl c ↦
      let e' : x ∷ cut (n - x.size) xs ≡ p ∷ (ps ++ qs) = rw c at e in
      let same : x ≡ p = cc in
      let rest : cut (n - x.size) xs ≡ ps ++ qs = cc in
      let ih = cut-prefix (n - x.size) xs ps qs h.1 rest in
      let room : leb x.size (p.size + total ps) ≡ true = ground arith in
      let left : p.size + total ps - x.size ≡ total ps = ground arith in rw (room, left, ih, same)
]

pub zero_total : (ps qs : List LogEntry) → All HasSize (ps ++ qs) → total ps ≡ 0 → ps ≡ []
zero_total [] qs h e = refl
zero_total (p ∷ ps) qs h e = absurd (omega (arith, h.0))

StartsWith-kept :
    (b : Block) (ps qs : List LogEntry)
    → 0 < total ps
    → StartsWith b.idx_log_index (ps ++ qs)
    → StartsWith b.idx_log_index ps
StartsWith-kept b [] qs h s = absurd (omega arith)
StartsWith-kept b (p ∷ ps) qs h s = s

-- A valid block that is cut short behind some of its entries is valid.
pub cut-IsValid :
    (b : Block) (off : ℕ) (ps qs : List LogEntry)
    → BlockIsValid b
    → block_entries b ≡ ps ++ qs
    → total ps ≡ off
    → 0 < off
    → (cut off b.content ≡ ps) × (off ≤ b.size) × BlockIsValid (record b { size = off })
cut-IsValid b off ps qs v split sum some_left =
    let first : cut off b.content ≡ ps =
      rw sum at (cut-prefix b.size b.content ps qs v.packed.sizes split) in
    let whole : total ps + total qs ≡ b.size =
      sym (total-append ps qs) ∙ ap total (sym split) ∙ v.packed.exact in
    (
      first,
      omega arith,
      record {
        packed = record { exact = rw first sum; sizes = v.packed.sizes };
        starts = rw first (StartsWith-kept b ps qs (omega arith) (rw split at v.starts));
        fits = omega (arith, v.fits);
      },
    )
