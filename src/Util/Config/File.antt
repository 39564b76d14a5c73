-- ===== src/Util/Config/File.antt =====
-- util/config.h: the file of a configuration, load and save. Opening, reading and writing do not fail
-- here. The file is the list of its bytes, none of them 0.
pub mod Saved
pub mod Fuel
use dbstream.Common.{
  ℕ, zero, suc, ◌+◌, Bool, true, false, not, ◌&&◌, ◌||◌, List, [], ◌∷◌, ◌++◌, Option, none, some,
  leb, ◌==◌, if◌then◌else◌, length,
}
use dbstream.Util.Config.{Section, Sections, set}
use dbstream.Util.Config.Numbers.{trim_start, trim, first}

-- What stands before the first byte `b` and behind it, if there is one: strchr, and find of a string.
unfoldable pub split_at : ℕ → List ℕ → Option (List ℕ × List ℕ)
split_at b [] = none
split_at b (c ∷ s) =
    let more = split_at b s in
    if c == b then some ([], s) else elim more [ none ↦ none | some (l, r) ↦ some (c ∷ l, r) ]

-- The text ends in a backslash that has none before it.
abbrev pub ends_in_escape : List ℕ → Bool
ends_in_escape [] = false
ends_in_escape (c ∷ []) = c == b'\\'
ends_in_escape (c ∷ d ∷ []) = d == b'\\' && not (c == b'\\')
ends_in_escape (c ∷ d ∷ e ∷ s) = ends_in_escape (d ∷ e ∷ s)

-- The loop that cuts a comment off, one round for each unit of fuel. An escaped `#` is found again.
unfoldable pub cut_comment : ℕ → List ℕ → Option (List ℕ)
cut_comment zero buf = none
cut_comment (suc fuel) buf =
    let again = cut_comment fuel buf in
    elim (split_at b'#' buf) [
      | none ↦ some buf
      | some (l, r) ↦ if ends_in_escape l then again else some l
    ]

-- What a line makes of the sections read so far.
pub data Line : Type 0 where
  went_on : (section : List ℕ) → Sections → Line
  failed : Line
  endless : Line

-- All but the last one.
abbrev pub drop_last : List ℕ → List ℕ
drop_last [] = []
drop_last (c ∷ []) = []
drop_last (c ∷ d ∷ s) = c ∷ drop_last (d ∷ s)

abbrev pub last : List ℕ → ℕ
last [] = 0
last (c ∷ []) = c
last (c ∷ d ∷ s) = last (d ∷ s)

abbrev pub rest : List ℕ → List ℕ
rest [] = []
rest (c ∷ s) = s

unfoldable pub section_line : Sections → List ℕ → Line
section_line m line =
    if not (first line == b'[') || leb (length line) 2 || not (last line == b']')
    then failed
    else went_on (drop_last (rest line)) m

-- A line that is not empty. The size that is passed for the value counts the 0 behind it, so that blanks
-- at its end would stay; the line has none there.
unfoldable pub content_line : List ℕ → Sections → List ℕ → Line
content_line section m line = elim (split_at b'=' line) [
  | none ↦ section_line m line
  | some (k, v) ↦ went_on section (set m section (trim k) (trim_start v))
]

unfoldable pub load_line : ℕ → List ℕ → Sections → List ℕ → Line
load_line fuel section m buf = elim (cut_comment fuel buf) [
  | none ↦ endless
  | some text ↦ elim (trim text) [ [] ↦ went_on section m | c ∷ s ↦ content_line section m (c ∷ s) ]
]

-- fgets with room for so many bytes: a line with its end, and what is left.
unfoldable pub read_line : ℕ → List ℕ → List ℕ × List ℕ
read_line zero file = ([], file)
read_line (suc n) [] = ([], [])
read_line (suc n) (c ∷ file) =
    let more = read_line n file in if c == 0x0a then (c ∷ [], file) else (c ∷ more.0, more.1)

pub data Load : Type 0 where
  loaded : Sections → Load
  refused : Sections → Load
  stuck : Load

-- `fuel` counts the lines, `rounds` the rounds that the loop for a comment may take in each.
unfoldable pub load_from : ℕ → ℕ → List ℕ → Sections → List ℕ → Load
load_from rounds zero section m file = loaded m
load_from rounds (suc fuel) section m [] = loaded m
load_from rounds (suc fuel) section m (c ∷ file) =
    let (line, left) = read_line 1022 (c ∷ file) in
    elim (load_line rounds section m line) [
      | went_on section' m' ↦ load_from rounds fuel section' m' left
      | failed ↦ refused m
      | endless ↦ stuck
    ]

-- A line has at least one byte, so that there are at most as many lines as bytes.
unfoldable pub load : ℕ → Sections → List ℕ → Load
load rounds m file = load_from rounds (length file) [] m file

unfoldable pub save_section : Section → List ℕ
save_section [] = []
save_section ((k, v) ∷ sec) = k ++ b' ' ∷ b'=' ∷ b' ' ∷ (v ++ 0x0a ∷ save_section sec)

unfoldable pub save : Sections → List ℕ
save [] = []
save ((name, sec) ∷ m) = name ++ 0x0a ∷ (save_section sec ++ save m)
