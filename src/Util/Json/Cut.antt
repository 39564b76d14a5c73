-- ===== src/Util/Json/Cut.antt =====
-- Texts that end too early.
use mathlib.Core.List.{append_assoc}
use dbstream.Common.{
  ℕ, suc, ◌+◌, ◌*◌, ◌<◌, ◌≡◌, refl, ap, ◌∙◌, List, [], ◌∷◌, ◌++◌, arith, length, length-append,
}
use dbstream.Util.Json.{Json, arr, nil, item}
use dbstream.Util.Json.Chars.{done, fault, advance, skip_space, j_array, get_type}
use dbstream.Util.Json.Parse.{parse_value, parse_items, parse}
use dbstream.Util.Json.Print.{to_string}
use dbstream.Util.Json.Words.{skip_space-Spaces, skip_space_none, advance-second}
use dbstream.Util.Json.Body.{
  indent, body, to_string-body, indent-Spaces, IsPrintable, skip_space-body, body_opens,
}
use dbstream.Util.Json.Steps.{weight, on_array, items_step, items_fault}
use dbstream.Util.Json.Weight.{weight-lt}
use dbstream.Util.Json.RoundTrip.{reads_value}

-- The text of an array, cut off behind the comma after its first element.
abbrev pub cut_text : ℕ → Json → List ℕ
cut_text level v = b'[' ∷ 0x0a ∷ (to_string level v ++ b',' ∷ [])

cut_items :
    (level f : ℕ) (v : Json)
    → IsPrintable v
    → weight v < suc f
    → parse_items (suc (suc f)) (0x0a ∷ (to_string level v ++ b',' ∷ [])) ≡ done (item v nil, [])
cut_items level f v h hf =
    let r : List ℕ = b',' ∷ [] in
    let t : to_string level v ++ r ≡ indent level v ++ (body level v ++ r) =
      rw (to_string-body level v) (append_assoc (indent level v) (body level v) r) in
    items_step (suc f) 0x0a _ (body level v ++ r) r v (0 + length (body level v))
      (ap (λ z. skip_space (0x0a ∷ z)) t
        ∙ skip_space-body level v (0x0a ∷ indent level v) r h (refl, indent-Spaces level v))
      (body_opens level v r h) (reads_value v level (suc f) [] r h tt refl hf)
      (advance-second [] (body level v) r)
    ∙ rw (skip_space_none r refl) (unfold parse_value in refl)

type_of_array : (p : List ℕ) → get_type (b'[' ∷ p) ≡ j_array
unfolding get_type skip_space
type_of_array p = refl

cut_value :
    (level f : ℕ) (v : Json)
    → IsPrintable v
    → weight v < suc f
    → parse_value (suc (suc (suc f))) (cut_text level v)
      ≡ done (arr (item v nil), length (cut_text level v) + 1)
cut_value level f v h hf =
    let e : skip_space (cut_text level v) ≡ cut_text level v =
      skip_space_none (cut_text level v) refl in
    on_array (suc (suc f)) (cut_text level v) (type_of_array _)
    ∙ rw (e, cut_items level f v h hf) (ap (λ n. done (arr (item v nil), n)) (omega arith))

advance-beyond : (xs : List ℕ) → advance (length xs + 1) xs ≡ fault
advance-beyond [] = refl
advance-beyond (x ∷ xs) =
    let e : suc (length xs) + 1 ≡ suc (length xs + 1) = omega arith in rw e (advance-beyond xs)

cut_nested :
    (level f : ℕ) (v : Json)
    → IsPrintable v
    → weight v < suc f
    → parse_value (suc (suc (suc (suc (suc f))))) (b'[' ∷ 0x0a ∷ cut_text level v) ≡ fault
cut_nested level f v h hf =
    let t = cut_text level v in
    let e : skip_space (b'[' ∷ 0x0a ∷ t) ≡ b'[' ∷ 0x0a ∷ t =
      skip_space_none (b'[' ∷ 0x0a ∷ t) refl in
    let i : skip_space (0x0a ∷ t) ≡ t =
      skip_space-Spaces (0x0a ∷ []) t (refl, tt) ∙ skip_space_none t refl in
    let inside =
      items_fault (suc (suc (suc f))) 0x0a t t (arr (item v nil)) (length t + 1) i refl
        (cut_value level f v h hf) (advance-beyond t) in
    on_array (suc (suc (suc (suc f)))) (b'[' ∷ 0x0a ∷ t) (type_of_array _) ∙ rw (e, inside) refl

-- The text of an array, cut off right behind a comma, is taken for the whole array, with a size that
-- is one more than the length of the text; and if it stands in another array, the parser goes on
-- reading there, behind the end of the text. The element before the comma is a value as
-- parse-to_string asks for.
pub parse-cut_text :
    (level : ℕ) (v : Json)
    → IsPrintable v
    → (parse (cut_text level v) ≡ done (arr (item v nil), length (cut_text level v) + 1))
      × (parse (b'[' ∷ 0x0a ∷ cut_text level v) ≡ fault)
unfolding parse
parse-cut_text level v h =
    let n : ℕ = length (to_string level v ++ b',' ∷ []) in
    let l : n ≡ length (to_string level v) + 1 = length-append (to_string level v) (b',' ∷ []) in
    let b : length (to_string level v) ≡ length (indent level v) + length (body level v) =
      rw (to_string-body level v) (length-append (indent level v) (body level v)) in
    let w = weight-lt v level h in
    let one : 2 * length (cut_text level v) + 1 ≡ suc (suc (suc (2 * n + 2))) = omega arith in
    let two : 2 * length (b'[' ∷ 0x0a ∷ cut_text level v) + 1
        ≡ suc (suc (suc (suc (suc (2 * n + 4))))) =
      omega arith in
    (
      ap (λ f. parse_value f (cut_text level v)) one
          ∙ cut_value level (2 * n + 2) v h (omega arith),
      ap (λ f. parse_value f (b'[' ∷ 0x0a ∷ cut_text level v)) two
          ∙ cut_nested level (2 * n + 4) v h (omega arith),
    )
