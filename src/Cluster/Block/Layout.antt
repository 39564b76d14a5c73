-- ===== src/Cluster/Block/Layout.antt =====
-- Where the entries of a block lie: appending, and finding by log index.
use dbstream.Common.{
  ℕ, ◌+◌, ◌-◌, ◌^◌, ◌<◌, ◌≡◌, refl, inl, inr, true, false, List, [], ◌∷◌, ◌++◌, Option, none, some,
  arith, ltb, leb, Bool-cases, All,
}
use dbstream.Cluster.LogIndex.{LogIndexInfo, index_lt}
use dbstream.Cluster.Block.{LogEntry, Block, find_from, block_find, cut, block_append}

abbrev pub total : List LogEntry → ℕ
total [] = 0
total (e ∷ es) = e.size + total es

-- The entries that a reader sees.
abbrev pub block_entries : Block → List LogEntry
block_entries b = cut b.size b.content

abbrev pub HasSize : LogEntry → Type 0
HasSize e = 0 < e.size

-- `size` ends an entry, and no entry is empty.
pub record IsPacked (b : Block) : Type 0 where
  pub exact : total (block_entries b) ≡ b.size
  pub sizes : All HasSize b.content

pub total-append : (xs ys : List LogEntry) → total (xs ++ ys) ≡ total xs + total ys
total-append [] ys = omega arith
total-append (x ∷ xs) ys = omega (arith, total-append xs ys)

pub cut-append : (n : ℕ) (xs ys : List LogEntry) → cut (total xs + n) (xs ++ ys) ≡ xs ++ cut n ys
unfolding cut
cut-append n [] ys = let e : 0 + n ≡ n = omega arith in rw e
cut-append n (x ∷ xs) ys =
    let e : x.size + total xs + n - x.size ≡ total xs + n = omega arith in
    let c : leb x.size (x.size + total xs + n) ≡ true = ground arith in
    rw (c, e, cut-append n xs ys)

pub cut-whole : (n : ℕ) (xs : List LogEntry) → n ≡ total xs → cut n xs ≡ xs
unfolding cut
cut-whole n [] h = refl
cut-whole n (x ∷ xs) h = ground (arith, cut-whole (n - x.size) xs)

pub cut-sizes : (n : ℕ) (xs : List LogEntry) → All HasSize xs → All HasSize (cut n xs)
unfolding cut
cut-sizes n [] h = tt
cut-sizes n (x ∷ xs) h = ground (arith, cut-sizes (n - x.size) xs)

pub All-concat :
    (xs : List LogEntry) (e : LogEntry) → All HasSize xs → HasSize e → All HasSize (xs ++ e ∷ [])
All-concat [] e h k = (k, tt)
All-concat (x ∷ xs) e h k = (h.0, All-concat xs e h.1 k)

pub block_append-entries :
    (b : Block) (e : LogEntry)
    → IsPacked b
    → b.size + e.size < 2 ^ 32
    → block_entries (block_append b e) ≡ block_entries b ++ e ∷ []
unfolding block_append
block_append-entries b e p h =
    cut-whole _ (block_entries b ++ e ∷ [])
      (omega (arith, total-append (block_entries b) (e ∷ []), p.exact))

pub block_append-IsPacked :
    (b : Block) (e : LogEntry)
    → IsPacked b
    → HasSize e
    → b.size + e.size < 2 ^ 32
    → IsPacked (block_append b e)
unfolding block_append
block_append-IsPacked b e p k h = record {
  exact =
      rw (block_append-entries b e p h)
        (omega (arith, total-append (block_entries b) (e ∷ []), p.exact));
  sizes = All-concat (block_entries b) e (cut-sizes b.size b.content p.sizes) k;
}

abbrev pub IsBelow : LogIndexInfo → LogEntry → Type 0
IsBelow i e = index_lt e.log_index i ≡ true

-- What a search for `i` among `xs`, laid out from `off`, may answer.
abbrev pub Finds : LogIndexInfo → List LogEntry → ℕ → Option ℕ → Type 0
Finds i xs off none = All (IsBelow i) xs
Finds i xs off (some r) =
    (ps : List LogEntry) × (e : LogEntry) × (qs : List LogEntry) × (xs ≡ ps ++ e ∷ qs)
    × (off + total ps ≡ r)
    × All (IsBelow i) ps
    × (index_lt e.log_index i ≡ false)

Finds-cons :
    (i : LogIndexInfo) (e : LogEntry) (xs : List LogEntry) (off : ℕ) (r : Option ℕ)
    → IsBelow i e
    → Finds i xs (off + e.size) r
    → Finds i (e ∷ xs) off r
Finds-cons i e xs off none b f = (b, f)
Finds-cons i e xs off (some r) b (ps, x, qs, split, at, below, stop) =
    (e ∷ ps, x, qs, rw split, omega arith, (b, below), stop)

find_from-Finds :
    (i : LogIndexInfo) (es : List LogEntry) (off size n : ℕ)
    → size ≡ off + n
    → All HasSize es
    → total (cut n es) ≡ n
    → Finds i (cut n es) off (find_from es off size i)
unfolding find_from cut
find_from-Finds i [] off size n s h t = tt
find_from-Finds i (e ∷ es) off size n s h t = elim (Bool-cases (leb e.size n)) [
  | inr c ↦
      let t' : 0 ≡ n = rw c at t in let d : ltb off size ≡ false = ground arith in rw (c, d) tt
  | inl c ↦
      let t' : e.size + total (cut (n - e.size) es) ≡ n = rw c at t in
      let h' : 0 < e.size = h.0 in
      let d : ltb off size ≡ true = ground arith in
      let ih =
        find_from-Finds i es (off + e.size) size (n - e.size) (ground arith) h.1 (omega arith) in
      rw (c, d)
        (elim (Bool-cases (index_lt e.log_index i)) [
          | inl b ↦ rw b (Finds-cons i e _ off _ b ih)
          | inr b ↦ rw b ([], e, cut (n - e.size) es, refl, omega arith, tt, b)
        ])
]

-- `find` on a packed block: INVALID_RESULT exactly tells that all entries are before the index,
-- and any other answer is the offset of the first entry that is not.
pub block_find-Finds :
    (b : Block) (i : LogIndexInfo) → IsPacked b → Finds i (block_entries b) 0 (block_find b i)
unfolding block_find
block_find-Finds b i p = find_from-Finds i b.content 0 b.size b.size (omega arith) p.sizes p.exact
