-- ===== src/Cluster/LogFile/Step.antt =====
-- Appending to a log file: what each step of it leaves behind.
use mathlib.Core.List.{append_assoc}
use dbstream.Common.{
  ℕ, ◌+◌, ◌%◌, ◌^◌, ◌<◌, ◌≡◌, refl, sym, ap, subst, ◌∙◌, ◌⊎◌, inl, inr, true, List, [], ◌∷◌, ◌++◌,
  Option, some, arith, ltb, leb, ◌==◌, Bool-cases, length, length-append, get_elem?, set,
}
use dbstream.Cluster.Block.{LogEntry, Block, head_size, new_block, block_append}
use dbstream.Cluster.Block.Layout.{HasSize, IsPacked, block_append-entries}
use dbstream.Cluster.LogFile.{
  ok, io_error, Io, LogFile, header_size, max_block_count, write_block, add_block,
  append_to_new_block, flush_then_add, append_to_current,
}
use dbstream.Cluster.LogFile.Shape.{
  BlockIsValid, entries, IsValid, entries-concat, get_elem?-concat, set-concat, Shaped-concat,
  Shaped-last, new_block-entries, new_block-IsValid, block_append-IsValid,
}
use dbstream.Cluster.LogFile.Outcome.{Keeps, Step, Step-trans, Keeps-refl}

add_block-Step :
    (io : Io) (f : LogFile) (e : LogEntry)
    → IsValid f
    → HasSize e
    → (length f.blocks ≡ 0) ⊎ (length f.blocks + 1 < max_block_count f)
    → Step f e (add_block io f e)
unfolding add_block
add_block-Step io f e v h room = elim (Bool-cases io.indexes) [
  | inr b ↦ rw b (inr ((λ q. cc), (λ q. cc), Keeps-refl f v))
  | inl b ↦
      let inside : ltb (length f.blocks) (max_block_count f) ≡ true =
        ground (arith, room, v.roomy) in
      rw (b, inside)
        (inl (
          refl,
          record {
            shaped =
                Shaped-concat header_size f.offset f.blocks _ v.shaped
                  (new_block-IsValid f.default_block_size f.offset e h) refl';
            tail = inr (f.blocks, _, refl, refl);
            appended =
                entries-concat f.blocks _
                ∙ ap (◌++◌ (entries f.blocks)) (new_block-entries f.default_block_size f.offset e);
            counted = rw length-append (grind arith);
            roomy = v.roomy;
            place = refl;
            prev = refl;
          },
        ))
]
  where
    refl' : (new_block f.default_block_size f.offset e).idx_offset ≡ f.offset
    refl' = unfold new_block in refl

write_block_cases :
    (io : Io) (b : Block)
    → ((w : ℕ) × (write_block io b ≡ (ok, record b { writed_size = w })))
      ⊎ (write_block io b ≡ (io_error, b))
unfolding write_block
write_block_cases io b = elim (Bool-cases (b.size == b.writed_size)) [
  | inl e ↦ inl (b.writed_size, rw e)
  | inr e ↦ elim (Bool-cases io.writes) [
    | inl w ↦ inl (b.size, rw (e, w))
    | inr w ↦ inr (rw (e, w))
  ]
]

written-Keeps :
    (f : LogFile) (init : List Block) (b : Block) (w : ℕ)
    → IsValid f
    → f.blocks ≡ init ++ b ∷ []
    → f.current ≡ some (length init)
    → Keeps f (record f { blocks = init ++ record b { writed_size = w } ∷ [] })
written-Keeps f init b w v e c =
    let (mid, t, ok', at, end) = Shaped-last header_size f.offset init b (rw e at v.shaped) in
    let b' : Block = record b { writed_size = w } in
    let v' : BlockIsValid b' = record {
      packed = record { exact = ok'.packed.exact; sizes = ok'.packed.sizes };
      starts = ok'.starts;
      fits = ok'.fits;
    } in
    let same : entries (init ++ b' ∷ []) ≡ entries f.blocks =
      rw e (entries-concat init b' ∙ sym (entries-concat init b)) in
    record {
      valid = record {
        shaped = rw end at (Shaped-concat header_size mid init b' t v' at);
        tail = inr (init, b', refl, c);
        last = rw same v.last;
        counted = rw (length-append, ← length-append init (b ∷ []), ← e) v.counted;
        roomy = v.roomy;
        word = v.word;
      };
      same = same;
      index = refl;
      place = refl;
    }

-- Room for one more block, as the two places that add one have checked it.
abbrev pub HasRoom : LogFile → Type 0
HasRoom f = (length f.blocks ≡ 0) ⊎ (length f.blocks + 1 < max_block_count f)

pub append_to_new_block-Step :
    (io : Io) (f : LogFile) (e : LogEntry)
    → IsValid f
    → HasSize e
    → HasRoom f
    → Step f e (append_to_new_block io f e)
unfolding append_to_new_block
append_to_new_block-Step io f e v h room = elim v.tail [
  | inl (empty, c) ↦ subst P (sym c) (add_block-Step io f e v h room)
  | inr (init, b, at, c) ↦
      let read : get_elem? f.blocks (length init) ≡ some b = rw at (get_elem?-concat init b) in
      subst P (sym c) (
        rw read (elim (write_block_cases io b) [
          | inr bad ↦ rw bad (inr ((λ q. cc), (λ q. cc), Keeps-refl f v))
          | inl (w, good) ↦
              let b' : Block = record b { writed_size = w } in
              let k = written-Keeps f init b w v at c in
              let stored : set f.blocks (length init) b' ≡ init ++ b' ∷ [] =
                rw at (set-concat init b b') in
              let size : length f.blocks ≡ length (init ++ b' ∷ []) =
                rw (at, length-append, length-append) refl in
              rw (good, stored)
                (Step-trans f _ e _ k refl (add_block-Step io _ e k.valid h (rw size at room)))
        ]))
]
  where
    P : Option ℕ → Type 0
    P c = Step f e (flush_then_add io f e c)

block_append-appended :
    (init : List Block) (b : Block) (e : LogEntry)
    → IsPacked b
    → b.size + e.size < 2 ^ 32
    → (bs : List Block) → bs ≡ init ++ b ∷ []
    → entries (init ++ block_append b e ∷ []) ≡ entries bs ++ e ∷ []
block_append-appended init b e p small bs at = rw (
  at,
  entries-concat init (block_append b e),
  entries-concat init b,
  block_append-entries b e p small,
  append_assoc,
)

pub append_to_current-Step :
    (io : Io) (f : LogFile) (e : LogEntry) (init : List Block) (b : Block)
    → IsValid f
    → HasSize e
    → f.offset + e.size < 2 ^ 32
    → f.blocks ≡ init ++ b ∷ []
    → f.current ≡ some (length init)
    → Step f e (append_to_current io f e (length init) b)
unfolding append_to_current
append_to_current-Step io f e init b v h small at c =
    let (mid, t, ok', place, end) = Shaped-last header_size f.offset init b (rw at at v.shaped) in
    let sum : (b.size + e.size) % 2 ^ 32 ≡ b.size + e.size = omega arith in
    elim (Bool-cases (ltb b.volumn ((b.size + e.size) % 2 ^ 32 + head_size))) [
      | inl over ↦ elim (Bool-cases (leb (max_block_count f) (length f.blocks + 1))) [
        | inl many ↦ rw (over, many) (inr ((λ q. cc), (λ q. cc), Keeps-refl f v))
        | inr few ↦ rw (over, few) (append_to_new_block-Step io f e v h (inr (ground arith)))
      ]
      | inr under ↦
          let v' = block_append-IsValid b e ok' h (omega arith) (ground arith) in
          let stored : set f.blocks (length init) (block_append b e)
              ≡ init ++ block_append b e ∷ [] =
            rw at (set-concat init b (block_append b e)) in
          rw (under, stored)
            (inl (
              refl,
              record {
                shaped =
                    let total : mid + (b.size + e.size) % 2 ^ 32 ≡ f.offset + e.size =
                      omega arith in
                    rw total at (Shaped-concat header_size mid init (block_append b e) t v' place);
                tail = inr (init, block_append b e, refl, c);
                appended = block_append-appended init b e ok'.packed (omega arith) f.blocks at;
                counted = rw (length-append, ← length-append init (b ∷ []), ← at) v.counted;
                roomy = v.roomy;
                place = refl;
                prev = refl;
              },
            ))
    ]
