-- ===== src/Database/SolidIndex/Decode.antt =====
-- What getRecordIdByIndex reads is what createFixedSolidIndex has written.
use mathlib.Core.List.{append_assoc}
use mathlib.Core.Option.{some-injective}
use dbstream.Common.{
  ℕ, zero, suc, ◌+◌, ◌-◌, ◌*◌, ◌/◌, ◌%◌, ◌^◌, ◌<◌, ◌≡◌, refl, sym, ap, ◌∙◌, inl, inr, true, false,
  List, [], ◌∷◌, ◌++◌, none, some, arith, ltb, ◌==◌, Bool-cases, length, length-append, get_elem?,
  get_or, take, drop, All,
}
use dbstream.Database.KeyChild.{KeyChild}
use dbstream.Database.KeyChild.Ids.{ids, IsValid, length-take}
use dbstream.Database.SolidIndex.{
  SolidIndex, key_words, key_entries, extern_offset, create_fixed_solid_index, words_at, record_ids,
  get_record_id_by_index,
}
use dbstream.Database.SolidIndex.Word.{bit_or_parts}
use dbstream.Database.SolidIndex.Layout.{IsStorable, IsLaidOut, create_fixed_solid_index-IsLaidOut}

drop-length : (xs ys : List ℕ) → drop (length xs) (xs ++ ys) ≡ ys
drop-length [] ys = refl
drop-length (x ∷ xs) ys = drop-length xs ys

drop_next : (xs ys : List ℕ) (y : ℕ) → drop (suc (length xs)) (xs ++ y ∷ ys) ≡ ys
drop_next [] ys y = refl
drop_next (x ∷ xs) ys y = drop_next xs ys y

take_all : (n : ℕ) (xs ys : List ℕ) → length xs ≡ n → take n (xs ++ ys) ≡ xs
take_all zero [] ys h = refl
take_all zero (x ∷ xs) ys h = absurd (omega arith)
take_all (suc n) [] ys h = absurd (omega arith)
take_all (suc n) (x ∷ xs) ys h = ap (◌∷◌ x) (take_all n xs ys (omega arith))

take_one : (xs : List ℕ) → 0 < length xs → take 1 xs ≡ get_or xs 0 0 ∷ []
take_one [] h = absurd (omega arith)
take_one (x ∷ xs) h = refl

abbrev pub start : SolidIndex → ℕ
start x = extern_offset x.key_size x.key_count

record_ids_single : (x : SolidIndex) (w : ℕ) → w < 2 ^ 24 → record_ids x w ≡ w ∷ []
unfolding record_ids
record_ids_single x w h = let e : (w / 2 ^ 24 % 2 ^ 8 == 0) ≡ true = ground arith in rw e refl

record_ids_short :
    (x : SolidIndex) (n off : ℕ)
    → 0 < n
    → n < 128
    → off < 2 ^ 24
    → record_ids x (n * 2 ^ 24 + off) ≡ take n (words_at x off)
unfolding record_ids
record_ids_short x n off least few h =
    let q : (n * 2 ^ 24 + off) / 2 ^ 24 ≡ n = omega arith in
    let r : (n * 2 ^ 24 + off) % 2 ^ 24 ≡ off = omega arith in
    let a : (n % 2 ^ 8 == 0) ≡ false = ground arith in
    let b : ((n * 2 ^ 24 + off) / 2 ^ 31 % 2 == 0) ≡ true = ground arith in rw (b, q, r, a) refl

record_ids_long :
    (x : SolidIndex) (off : ℕ)
    → off < 2 ^ 24
    → record_ids x (128 * 2 ^ 24 + off) ≡ take (get_or (words_at x off) 0 0) (words_at x (off + 4))
unfolding record_ids
record_ids_long x off h =
    let a : ((128 * 2 ^ 24 + off) / 2 ^ 24 % 2 ^ 8 == 0) ≡ false = ground arith in
    let r : (128 * 2 ^ 24 + off) % 2 ^ 24 ≡ off = omega arith in
    let b : ((128 * 2 ^ 24 + off) / 2 ^ 31 % 2 == 0) ≡ false = ground arith in rw (a, b, r) refl

-- The words at the offset of the second part that so many words lead up to.
words_at-prefix :
    (x : SolidIndex) (pre ys : List ℕ)
    → x.extern_words ≡ pre ++ ys
    → words_at x (start x + 4 * length pre) ≡ ys
words_at-prefix x pre ys e =
    let n : (start x + 4 * length pre - start x) / 4 ≡ length pre = omega arith in
    rw (n, e) (drop-length pre ys)

words_at-next :
    (x : SolidIndex) (pre ys : List ℕ) (y : ℕ)
    → x.extern_words ≡ pre ++ y ∷ ys
    → words_at x (start x + 4 * length pre + 4) ≡ ys
words_at-next x pre ys y e =
    let n : (start x + 4 * length pre + 4 - start x) / 4 ≡ suc (length pre) = omega arith in
    rw (n, e) (drop_next pre ys y)

ids-take : (c : KeyChild) (ys : List ℕ) → IsValid c → take c.count (ids c ++ ys) ≡ ids c
ids-take c ys v =
    take_all c.count (ids c) ys (length-take c.count c.sub_array (omega (arith, v.sized, v.within)))

-- The word of a key and its words in the second part give its records.
key_words-record_ids :
    (x : SolidIndex) (c : KeyChild) (pre ys : List ℕ)
    → IsStorable c
    → start x + 4 * length pre < 2 ^ 24
    → x.extern_words ≡ pre ++ ((key_words (start x + 4 * length pre) c).1 ++ ys)
    → record_ids x (key_words (start x + 4 * length pre) c).0 ≡ ids c
unfolding key_words
key_words-record_ids x c pre ys v h e = elim (Bool-cases (c.count == 1)) [
  | inl one ↦
      let n : c.count ≡ 1 = ground (arith, one) in
      let room : 0 < length c.sub_array = omega (arith, n, v.valid.sized, v.valid.within) in
      rw (one, n)
        (record_ids_single x (get_or c.sub_array 0 0) (v.fits n) ∙ sym (take_one c.sub_array room))
  | inr more ↦ elim (Bool-cases (ltb c.count 127)) [
    | inl short ↦
        let n : c.count * 2 ^ 24 % 2 ^ 32 ≡ c.count * 2 ^ 24 = ground (arith, short) in
        let w = bit_or_parts c.count (start x + 4 * length pre) (ground (arith, short)) h in
        let ws = words_at-prefix x pre (ids c ++ ys) (rw (more, short) at e) in
        rw (more, short, n, w)
          (record_ids_short x c.count (start x + 4 * length pre) v.has_records
              (ground (arith, short)) h
            ∙ rw ws (ids-take c ys v.valid))
    | inr long ↦
        let w = bit_or_parts 128 (start x + 4 * length pre) (omega arith) h in
        let f : x.extern_words ≡ pre ++ c.count ∷ (ids c ++ ys) = rw (more, long) at e in
        let ws = words_at-prefix x pre (c.count ∷ (ids c ++ ys)) f in
        let ns = words_at-next x pre (ids c ++ ys) c.count f in
        rw (more, long, w)
          (record_ids_long x (start x + 4 * length pre) h ∙ rw (ws, ns) (ids-take c ys v.valid))
  ]
]

-- The words of some keys, after the words of the keys before them.
key_entries-record_ids :
    (x : SolidIndex) (keys : List (ℕ × KeyChild)) (pre : List ℕ) (i k : ℕ) (c : KeyChild)
    → All (λ e. IsStorable e.1) keys
    → start x + 4 * length x.extern_words < 2 ^ 24
    → x.extern_words ≡ pre ++ (key_entries (start x + 4 * length pre) keys).1
    → get_elem? keys i ≡ some (k, c)
    → (w : ℕ) × (get_elem? (key_entries (start x + 4 * length pre) keys).0 i ≡ some (k, w))
      × (record_ids x w ≡ ids c)
unfolding key_entries
key_entries-record_ids x [] pre i k c v h e g = absurd (cc)
key_entries-record_ids x ((l, d) ∷ keys) pre zero k c v h e g =
    let at : start x + 4 * length pre < 2 ^ 24 =
      (let f : length x.extern_words
            ≡ length (pre ++ (key_entries (start x + 4 * length pre) ((l, d) ∷ keys)).1) =
          ap length e in
        let m = length-append pre (key_entries (start x + 4 * length pre) ((l, d) ∷ keys)).1 in
        omega arith) in
    let p : (l, d) ≡ (k, c) = some-injective (l, d) (k, c) g in
    (
      (key_words (start x + 4 * length pre) d).0,
      ap (λ y. some (y, (key_words (start x + 4 * length pre) d).0)) (ap (λ y. y.0) p),
      key_words-record_ids x d pre
            (key_entries
              (start x + 4 * length pre + 4 * length (key_words (start x + 4 * length pre) d).1)
              keys).1
            v.0 at e
          ∙ ap (λ y. ids y.1) p,
    )
key_entries-record_ids x ((l, d) ∷ keys) pre (suc i) k c v h e g =
    let more : List ℕ = (key_words (start x + 4 * length pre) d).1 in
    let offset : start x + 4 * length (pre ++ more) ≡ start x + 4 * length pre + 4 * length more =
      omega (arith, length-append pre more) in
    rw (← offset) (
      key_entries-record_ids x keys (pre ++ more) i k c v.1 h
        (e
          ∙ rw offset (
              sym (
                append_assoc pre more
                  (key_entries (start x + 4 * length pre + 4 * length more) keys).1)))
        g)

get_record_id_by_index_lem :
    (x : SolidIndex) (i k w : ℕ)
    → get_elem? x.entries i ≡ some (k, w)
    → get_record_id_by_index x i ≡ some (record_ids x w)
unfolding get_record_id_by_index
get_record_id_by_index_lem x i k w e =
    ap (λ o. elim o [ none ↦ none | some d ↦ some (record_ids x d.1) ]) e

create_fixed_solid_index-ids :
    (key_size : ℕ) (keys : List (ℕ × KeyChild)) (i k : ℕ) (c : KeyChild)
    → All (λ e. IsStorable e.1) keys
    → extern_offset key_size (length keys)
        + 4 * length (create_fixed_solid_index key_size keys).extern_words
      < 2 ^ 24
    → get_elem? keys i ≡ some (k, c)
    → get_record_id_by_index (create_fixed_solid_index key_size keys) i ≡ some (ids c)
unfolding create_fixed_solid_index
create_fixed_solid_index-ids key_size keys i k c v h g =
    let x = create_fixed_solid_index key_size keys in
    let z : start x + 4 * 0 ≡ start x = omega arith in
    let (w, e, r) = key_entries-record_ids x keys [] i k c v h (rw z refl) g in
    let f : get_elem? x.entries i ≡ some (k, w) = rw z at e in
    get_record_id_by_index_lem x i k w f ∙ ap some r

-- For keys in an index that is smaller than 2^24 bytes, each with a record at least, and a record's
-- number below 2^24 where it is the only one. The key's word is the record's number if it has one,
-- and else the distance in bytes from the head to its words in the second part, below the number of
-- its records if they are less than 127, or below 128: behind a head of 12 bytes, the places of the
-- keys and one more, and the words of the keys before it. The index's size is the distance to its
-- end. And reading at a key's place gives that key's records, all of them in order, whether the key
-- has one, less than 127 or more.
pub create_fixed_solid_index-roundtrip :
    (key_size : ℕ) (keys : List (ℕ × KeyChild)) (i k : ℕ) (c : KeyChild)
    → All (λ e. IsStorable e.1) keys
    → extern_offset key_size (length keys)
        + 4 * length (create_fixed_solid_index key_size keys).extern_words
      < 2 ^ 24
    → get_elem? keys i ≡ some (k, c)
    → IsLaidOut key_size keys i k c (create_fixed_solid_index key_size keys)
      × (get_record_id_by_index (create_fixed_solid_index key_size keys) i ≡ some (ids c))
create_fixed_solid_index-roundtrip key_size keys i k c v h g = (
  create_fixed_solid_index-IsLaidOut key_size keys i k c v h g,
  create_fixed_solid_index-ids key_size keys i k c v h g,
)
