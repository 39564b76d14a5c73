-- ===== src/Util/Config/File/Saved.antt =====
-- The loop that cuts a comment off, and the reading of a saved file.
use dbstream.Common.{
  ℕ, zero, suc, ◌<◌, ◌≡◌, refl, sym, subst, ◌≢◌, true, false, List, [], ◌∷◌, ◌++◌, none, some, ◌==◌,
  if◌then◌else◌, length, Bool-cases, inl, inr, arith,
}
use dbstream.Util.Config.{Section, Sections}
use dbstream.Util.Config.Numbers.{is_blank, trim_start, trim_end, unless_blank, trim}
use dbstream.Util.Config.File.{
  split_at, ends_in_escape, cut_comment, failed, section_line, content_line, load_line, read_line,
  refused, load_from, load, save_section, save,
}

cut_comment_forever :
    (fuel : ℕ) (buf l r : List ℕ)
    → split_at b'#' buf ≡ some (l, r)
    → ends_in_escape l ≡ true
    → cut_comment fuel buf ≡ none
unfolding cut_comment
cut_comment_forever zero buf l r e b = refl
cut_comment_forever (suc fuel) buf l r e b =
    rw (cut_comment, e, b) (cut_comment_forever fuel buf l r e b)

-- The loop that looks for a comment ends in its first round, or it never ends: the latter for a line whose
-- first `#` has a backslash before it that has none before it.
pub cut_comment-runs :
    (buf l r : List ℕ)
    → split_at b'#' buf ≡ some (l, r)
    → (ends_in_escape l ≡ true → (fuel : ℕ) → cut_comment fuel buf ≡ none)
      × (ends_in_escape l ≡ false → (fuel : ℕ) → cut_comment (suc fuel) buf ≡ some l)
unfolding cut_comment
cut_comment-runs buf l r e =
    (λ b fuel. cut_comment_forever fuel buf l r e b, λ b fuel. rw (cut_comment, e, b) refl)

abbrev AllNot : ℕ → List ℕ → Type 0
AllNot b [] = Unit
AllNot b (c ∷ s) = (c ≢ b) × AllNot b s

split_at-AllNot : (b : ℕ) (s : List ℕ) → AllNot b s → split_at b s ≡ none
unfolding split_at
split_at-AllNot b [] n = refl
split_at-AllNot b (c ∷ s) (n, r) =
    let e : (c == b) ≡ false = ground (arith, n) in rw (e, split_at-AllNot b s r) refl

append-AllNot : (b : ℕ) (s : List ℕ) (d : ℕ) → d ≢ b → AllNot b s → AllNot b (s ++ d ∷ [])
append-AllNot b [] d h n = (h, tt)
append-AllNot b (c ∷ s) d h (n, r) = (n, append-AllNot b s d h r)

unless_blank-AllNot : (b c : ℕ) (s : List ℕ) → c ≢ b → AllNot b s → AllNot b (unless_blank c s)
unless_blank-AllNot b c [] h n = elim (Bool-cases (is_blank c)) [
  | inl e ↦ subst (λ t. AllNot b (if t then [] else c ∷ [])) (sym e) tt
  | inr e ↦ subst (λ t. AllNot b (if t then [] else c ∷ [])) (sym e) (h, tt)
]
unless_blank-AllNot b c (d ∷ s) h n = (h, n)

trim_end-AllNot : (b : ℕ) (s : List ℕ) → AllNot b s → AllNot b (trim_end s)
unfolding trim_end
trim_end-AllNot b [] n = tt
trim_end-AllNot b (c ∷ s) (n, r) = unless_blank-AllNot b c (trim_end s) n (trim_end-AllNot b s r)

unless_blank_plain : (c : ℕ) (s : List ℕ) → is_blank c ≡ false → unless_blank c s ≡ c ∷ s
unless_blank_plain c [] e = rw (e) refl
unless_blank_plain c (d ∷ s) e = refl

trim_plain : (c : ℕ) (s : List ℕ) → is_blank c ≡ false → trim (c ∷ s) ≡ c ∷ trim_end s
unfolding trim trim_start trim_end
trim_plain c s e = rw (e) (unless_blank_plain c (trim_end s) e)

read_line_whole :
    (n : ℕ) (s left : List ℕ)
    → AllNot 0x0a s
    → length s < n
    → read_line n (s ++ 0x0a ∷ left) ≡ (s ++ 0x0a ∷ [], left)
unfolding read_line
read_line_whole zero s left a h = absurd (omega arith)
read_line_whole (suc n) [] left a h = refl
read_line_whole (suc n) (c ∷ s) left (a, r) h =
    let e : (c == 0x0a) ≡ false = ground (arith, a) in
    rw (e, read_line_whole n s left r (omega arith)) refl

-- The line of a section's name as `save` writes it.
load_line-name :
    (r : ℕ) (section : List ℕ) (m : Sections) (c : ℕ) (s : List ℕ)
    → is_blank c ≡ false
    → c ≢ b'['
    → AllNot b'#' (c ∷ s)
    → AllNot b'=' (c ∷ s)
    → load_line (suc r) section m (c ∷ s ++ 0x0a ∷ []) ≡ failed
unfolding load_line cut_comment content_line section_line
load_line-name r section m c s blank bracket hash (differs, eq) =
    let h =
      split_at-AllNot b'#' (c ∷ s ++ 0x0a ∷ [])
        (append-AllNot b'#' (c ∷ s) 0x0a (λ e. absurd (ground arith)) hash) in
    let t = trim_plain c (s ++ 0x0a ∷ []) blank in
    let q = split_at-AllNot b'=' (c ∷ trim_end (s ++ 0x0a ∷ [])) (
      differs,
      trim_end-AllNot b'=' (s ++ 0x0a ∷ [])
          (append-AllNot b'=' s 0x0a (λ e. absurd (ground arith)) eq),
    ) in
    let o : (c == b'[') ≡ false = ground (arith, bracket) in
    rw (load_line, h, t, content_line, q, o) refl

load_from-failed :
    (r fuel : ℕ) (section : List ℕ) (m : Sections) (c : ℕ) (file line left : List ℕ)
    → read_line 1022 (c ∷ file) ≡ (line, left)
    → load_line r section m line ≡ failed
    → load_from r (suc fuel) section m (c ∷ file) ≡ refused m
unfolding load_from
load_from-failed r fuel section m c file line left e f = rw (load_from, e, f) refl

-- A configuration that was saved is not loaded again: the first line is the name of a section without
-- brackets. The name is shorter than a line, begins with neither a blank nor a bracket, and has no `#`,
-- `=` or line's end in it.
pub load-save :
    (r : ℕ) (m before : Sections) (c : ℕ) (s : List ℕ) (sec : Section)
    → is_blank c ≡ false
    → c ≢ b'['
    → AllNot b'#' (c ∷ s)
    → AllNot b'=' (c ∷ s)
    → AllNot 0x0a (c ∷ s)
    → length (c ∷ s) < 1022
    → load (suc r) before (save ((c ∷ s, sec) ∷ m)) ≡ refused before
unfolding load save
load-save r m before c s sec blank bracket hash eq line short =
    let left = save_section sec ++ save m in
    load_from-failed (suc r) (length (s ++ 0x0a ∷ left)) [] before c (s ++ 0x0a ∷ left)
      (c ∷ s ++ 0x0a ∷ []) left (read_line_whole 1022 (c ∷ s) left line short)
      (load_line-name r [] before c s blank bracket hash (eq.0, eq.1))
