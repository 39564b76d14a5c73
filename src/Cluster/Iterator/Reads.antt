-- ===== src/Cluster/Iterator/Reads.antt =====
-- Reading a valid file from a position gives the entries from there on, one after another.
use dbstream.Common.{
  Bool, ℕ, suc, ◌+◌, ◌-◌, ◌<◌, ◌≡◌, refl, sym, ap, subst, ◌∙◌, ◌≢◌, inl, inr, true, false, List, [],
  ◌∷◌, ◌++◌, Option, none, some, arith, leb, ◌==◌, Bool-cases, length, drop, All,
}
use mathlib.Core.List.{append_assoc}
use dbstream.Cluster.Block.{LogEntry, Block, cut, entry_at, end_of_file_type}
use dbstream.Cluster.Block.Layout.{HasSize, IsPacked, total, block_entries, cut-sizes, total-append}
use dbstream.Cluster.LogFile.{Status, ok, LogFile, header_size}
use dbstream.Cluster.LogFile.Shape.{BlockIsValid, Shaped, entries, IsValid}
use dbstream.Cluster.Iterator.{Iter, read_entry, next_from, next}

abbrev pub IsData : LogEntry → Type 0
IsData e = e.record_type ≢ end_of_file_type

-- The iterator is in the blocks `bs`, numbered from `k`, in front of the entries `xs`.
pub record At (bs : List Block) (k : ℕ) (it : Iter) (xs : List LogEntry) : Type 0 where
  pub pre : List Block
  pub block : Block
  pub post : List Block
  pub done : List LogEntry
  pub todo : List LogEntry
  pub around : bs ≡ pre ++ block ∷ post
  pub number : k + length pre ≡ it.block
  pub split : block_entries block ≡ done ++ todo
  pub place : total done ≡ it.offset
  pub left : xs ≡ todo ++ entries post

-- A call of `next` in front of `xs` takes the first of them.
abbrev pub Takes : List Block → ℕ → List LogEntry → Status × Option LogEntry × Iter → Type 0
Takes bs k [] r = (it : Iter) × (r ≡ (ok, none, it)) × At bs k it []
Takes bs k (x ∷ xs) r = (it : Iter) × (r ≡ (ok, some x, it)) × At bs k it xs

At-cons :
    (b : Block) (bs : List Block) (k : ℕ) (it : Iter) (xs : List LogEntry)
    → At bs (k + 1) it xs
    → At (b ∷ bs) k it xs
At-cons b bs k it xs a = record {
  pre = b ∷ a.pre;
  block = a.block;
  post = a.post;
  done = a.done;
  todo = a.todo;
  around = ap (◌∷◌ b) a.around;
  number = omega (arith, a.number);
  split = a.split;
  place = a.place;
  left = a.left;
}

Takes-cons :
    (b : Block) (bs : List Block) (k : ℕ) (xs : List LogEntry) (r : Status × Option LogEntry × Iter)
    → Takes bs (k + 1) xs r
    → Takes (b ∷ bs) k xs r
Takes-cons b bs k [] r (it, e, a) = (it, e, At-cons b bs k it [] a)
Takes-cons b bs k (x ∷ xs) r (it, e, a) = (it, e, At-cons b bs k it xs a)

-- The entry behind `ps` is the one at their size.
entry_at-cut :
    (n : ℕ) (xs ps : List LogEntry) (q : LogEntry) (qs : List LogEntry)
    → All HasSize xs
    → cut n xs ≡ ps ++ q ∷ qs
    → entry_at (total ps) xs ≡ some q
unfolding cut entry_at
entry_at-cut n [] [] q qs h e = cc
entry_at-cut n [] (p ∷ ps) q qs h e = cc
entry_at-cut n (x ∷ xs) [] q qs h e = elim (Bool-cases (leb x.size n)) [
  | inr c ↦ absurd (ground arith)
  | inl c ↦
      let e' : x ∷ cut (n - x.size) xs ≡ q ∷ qs = rw c at e in let same : x ≡ q = cc in ap some same
]
entry_at-cut n (x ∷ xs) (p ∷ ps) q qs h e = elim (Bool-cases (leb x.size n)) [
  | inr c ↦ absurd (ground arith)
  | inl c ↦
      let e' : x ∷ cut (n - x.size) xs ≡ p ∷ (ps ++ q ∷ qs) = rw c at e in
      let same : x ≡ p = cc in
      let rest : cut (n - x.size) xs ≡ ps ++ q ∷ qs = cc in
      let ih = entry_at-cut (n - x.size) xs ps q qs h.1 rest in
      let first : 0 < x.size = h.0 in
      let w : x.size ≡ p.size = ap (λ y. y.size) same in
      let nonzero : (p.size + total ps == 0) ≡ false = ground arith in
      let room : leb x.size (p.size + total ps) ≡ true = ground arith in
      let left : p.size + total ps - x.size ≡ total ps = omega arith in rw (nonzero, room, left, ih)
]

size-done :
    (b : Block) (ps qs : List LogEntry)
    → IsPacked b
    → block_entries b ≡ ps ++ qs
    → total ps + total qs ≡ b.size
size-done b ps qs p e = sym (total-append ps qs) ∙ ap total (sym e) ∙ p.exact

sizes-split : (ps qs : List LogEntry) → All HasSize (ps ++ qs) → All HasSize qs
sizes-split [] qs h = h
sizes-split (p ∷ ps) qs h = sizes-split ps qs h.1

abbrev position : ℕ → ℕ → Iter
position k off = record { block = k; offset = off }

At-head :
    (b : Block) (post : List Block) (k off : ℕ) (ps qs : List LogEntry)
    → block_entries b ≡ ps ++ qs
    → total ps ≡ off
    → At (b ∷ post) k (position k off) (qs ++ entries post)
At-head b post k off ps qs e t = record {
  pre = [];
  block = b;
  post = post;
  done = ps;
  todo = qs;
  around = refl;
  number = omega arith;
  split = e;
  place = t;
  left = refl;
}

read_entry-Takes :
    (more : Bool) (b : Block) (post : List Block) (k off : ℕ) (ps : List LogEntry) (q : LogEntry)
    (qs : List LogEntry)
    → block_entries b ≡ ps ++ q ∷ qs
    → total ps ≡ off
    → IsData q
    → Takes (b ∷ post) k (q ∷ qs ++ entries post) (read_entry more (position k off) b (some q))
unfolding read_entry
read_entry-Takes more b post k off ps q qs e t d =
    elim (Bool-cases (q.record_type == end_of_file_type)) [
      | inl eof ↦ absurd (d (ground arith))
      | inr data_entry ↦ rw data_entry (
        position k (off + q.size),
        refl,
        At-head b post k (off + q.size) (ps ++ q ∷ []) qs (e ∙ sym (append_assoc ps (q ∷ []) qs))
            (omega (arith, total-append ps (q ∷ []), t)),
      )
    ]

inside_block :
    (b : Block) (ps : List LogEntry) (q : LogEntry) (qs : List LogEntry) (off : ℕ)
    → IsPacked b
    → block_entries b ≡ ps ++ q ∷ qs
    → total ps ≡ off
    → ((off == b.size) ≡ false) × (entry_at off b.content ≡ some q)
inside_block b ps q qs off p e t =
    let sum : total ps + total (q ∷ qs) ≡ b.size = size-done b ps (q ∷ qs) p e in
    let s : All HasSize (ps ++ q ∷ qs) = rw e at (cut-sizes b.size b.content p.sizes) in
    let first : 0 < q.size = (sizes-split ps (q ∷ qs) s).0 in
    (ground (arith, first, sum, t), rw t at (entry_at-cut b.size b.content ps q qs p.sizes e))

next_from-Takes :
    (b : Block) (post : List Block) (k off : ℕ) (ps qs : List LogEntry)
    → All BlockIsValid (b ∷ post)
    → block_entries b ≡ ps ++ qs
    → total ps ≡ off
    → All IsData (qs ++ entries post)
    → Takes (b ∷ post) k (qs ++ entries post) (next_from (b ∷ post) (position k off))
unfolding next_from
next_from-Takes b [] k off ps [] v e t d =
    let sum : total ps + 0 ≡ b.size = size-done b ps [] v.0.packed e in
    let at_end : (off == b.size) ≡ true = ground (arith, sum, t) in
    rw at_end (position k off, refl, At-head b [] k off ps [] e t)
next_from-Takes b [] k off ps (q ∷ qs) v e t d =
    let (more, read) = inside_block b ps q qs off v.0.packed e t in
    rw (more, read) (read_entry-Takes false b [] k off ps q qs e t d.0)
next_from-Takes b (c ∷ post) k off ps [] v e t d =
    let sum : total ps + 0 ≡ b.size = size-done b ps [] v.0.packed e in
    let at_end : (off == b.size) ≡ true = ground (arith, sum, t) in
    rw at_end (
      Takes-cons b (c ∷ post) k (entries (c ∷ post)) _
        (next_from-Takes c post (k + 1) 0 [] (block_entries c) v.1 refl refl d))
next_from-Takes b (c ∷ post) k off ps (q ∷ qs) v e t d =
    let (more, read) = inside_block b ps q qs off v.0.packed e t in
    rw (more, read) (read_entry-Takes true b (c ∷ post) k off ps q qs e t d.0)

drop-length : (pre bs : List Block) → drop (length pre) (pre ++ bs) ≡ bs
drop-length [] bs = refl
drop-length (x ∷ pre) bs = drop-length pre bs

Takes-append :
    (pre bs : List Block) (k : ℕ) (xs : List LogEntry) (r : Status × Option LogEntry × Iter)
    → Takes bs (k + length pre) xs r
    → Takes (pre ++ bs) k xs r
Takes-append [] bs k xs r h = let w : k + 0 ≡ k = omega arith in rw w at h
Takes-append (x ∷ pre) bs k xs r h =
    let w : k + suc (length pre) ≡ k + 1 + length pre = omega arith in
    Takes-cons x (pre ++ bs) k xs r (Takes-append pre bs (k + 1) xs r (rw w at h))

Shaped-valid :
    (off end : ℕ) (pre bs : List Block) → Shaped off (pre ++ bs) end → All BlockIsValid bs
Shaped-valid off end [] [] s = tt
Shaped-valid off end [] (b ∷ bs) s = (s.0, Shaped-valid (off + b.size) end [] bs s.2)
Shaped-valid off end (x ∷ pre) bs s = Shaped-valid (off + x.size) end pre bs s.2

-- On a valid file, `next` in front of entries `xs`, none of which ends the file, gives the first of them
-- and is then in front of the rest, in whichever block that is; in front of nothing it gives a null
-- entry. It does not fail.
pub next-Takes :
    (f : LogFile) (it : Iter) (xs : List LogEntry)
    → IsValid f
    → At f.blocks 0 it xs
    → All IsData xs
    → Takes f.blocks 0 xs (next f it)
unfolding next
next-Takes f it xs v a d =
    let behind : drop it.block f.blocks ≡ a.block ∷ a.post =
      let n : it.block ≡ length a.pre = omega (arith, a.number) in
      rw (n, a.around) (drop-length a.pre (a.block ∷ a.post)) in
    let valid =
      Shaped-valid header_size f.offset a.pre (a.block ∷ a.post) (rw a.around at v.shaped) in
    let step : Takes (a.block ∷ a.post) it.block (a.todo ++ entries a.post)
        (next_from (a.block ∷ a.post) it) =
      next_from-Takes a.block a.post it.block it.offset a.done a.todo valid a.split a.place
        (rw a.left at d) in
    let shifted : Takes (a.block ∷ a.post) (0 + length a.pre) (a.todo ++ entries a.post)
        (next_from (a.block ∷ a.post) it) =
      rw a.number step in
    let whole = Takes-append a.pre (a.block ∷ a.post) 0 _ _ shifted in
    rw (behind, a.left)
      (subst (λ bs. Takes bs 0 (a.todo ++ entries a.post) (next_from (a.block ∷ a.post) it))
        (sym a.around) whole)

-- The calls of `next` from an iterator on give the entries `xs`, then nothing.
abbrev pub Reads : LogFile → Iter → List LogEntry → Type 0
Reads f it [] = (jt : Iter) × (next f it ≡ (ok, none, jt))
Reads f it (x ∷ xs) = (jt : Iter) × (next f it ≡ (ok, some x, jt)) × Reads f jt xs

pub At-Reads :
    (f : LogFile) (it : Iter) (xs : List LogEntry)
    → IsValid f
    → At f.blocks 0 it xs
    → All IsData xs
    → Reads f it xs
At-Reads f it [] v a d = let (jt, e, b) = next-Takes f it [] v a d in (jt, e)
At-Reads f it (x ∷ xs) v a d =
    let (jt, e, b) = next-Takes f it (x ∷ xs) v a d in (jt, e, At-Reads f jt xs v b d.1)
