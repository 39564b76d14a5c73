-- ===== src/Util/Json/Elements.antt =====
-- Reading the elements of an array, one after another.
use mathlib.Core.List.{append_assoc}
use dbstream.Common.{ℕ, suc, ◌+◌, ◌≡◌, refl, ap, ◌∙◌, true, false, List, [], ◌∷◌, ◌++◌, length}
use dbstream.Util.Json.{Json, Items, nil, item}
use dbstream.Util.Json.Chars.{Run, done, ◌>>=◌, tail, skip_space}
use dbstream.Util.Json.Parse.{parse_value, parse_items, next}
use dbstream.Util.Json.Print.{to_string, items_string}
use dbstream.Util.Json.Words.{Stops, skip_space_none, advance-second}
use dbstream.Util.Json.Body.{
  indent, close, body, to_string-body, indent-Spaces, IsPrintable, skip_space-body, body_opens,
  skip_space-close,
}
use dbstream.Util.Json.Steps.{items_step}

-- What follows an item is a comma or the end, and is no digit.
pub after_item-Stops :
    (level : ℕ) (xs : Items) (p : List ℕ)
    → Stops (items_string level false xs ++ (close level b']' ++ p))
unfolding to_string
after_item-Stops level nil p = refl
after_item-Stops level (item v xs) p = refl

-- The text of the items from one on, behind the line's end.
items_text :
    (level : ℕ) (v : Json) (xs : Items) (p : List ℕ)
    → (items_string level true (item v xs) ++ close level b']') ++ p
      ≡ indent (suc level) v
        ++ (body (suc level) v ++ (items_string level false xs ++ (close level b']' ++ p)))
unfolding to_string
items_text level v xs p =
    rw (to_string-body (suc level) v, append_assoc, append_assoc, append_assoc) refl

-- What the loop does behind an item, at `r`.
abbrev pub behind_item : ℕ → Json → List ℕ → Run (Items × List ℕ)
behind_item f v r =
    next b']' (skip_space r) (done (item v nil, skip_space r))
      (parse_items f (tail (skip_space r)) >>= λ (ys, s). done (item v ys, s))

pub first_item :
    (v : Json) (xs : Items) (level f : ℕ) (p : List ℕ)
    → (let r = items_string level false xs ++ (close level b']' ++ p) in
        IsPrintable v
        → parse_value f (body (suc level) v ++ r) ≡ done (v, 0 + length (body (suc level) v))
        → parse_items
            (suc f)
            (0x0a ∷ ((items_string level true (item v xs) ++ close level b']') ++ p))
          ≡ behind_item f v r)
first_item v xs level f p h one =
    let r = items_string level false xs ++ (close level b']' ++ p) in
    let q = body (suc level) v ++ r in
    items_step f 0x0a _ q r v (0 + length (body (suc level) v))
      (ap (λ z. skip_space (0x0a ∷ z)) (items_text level v xs p)
        ∙ skip_space-body (suc level) v (0x0a ∷ indent (suc level) v) r h
            (refl, indent-Spaces (suc level) v))
      (body_opens (suc level) v r h) one (advance-second [] (body (suc level) v) r)

pub more_items :
    (v : Json) (xs : Items) (level f : ℕ) (p : List ℕ)
    → parse_items f (0x0a ∷ ((items_string level true xs ++ close level b']') ++ p))
      ≡ done (xs, b']' ∷ p)
    → behind_item f v (items_string level false xs ++ (close level b']' ++ p))
      ≡ done (item v xs, b']' ∷ p)
unfolding to_string
more_items v nil level f p ih = rw (skip_space-close level b']' [] p tt refl) refl
more_items v (item w xs) level f p ih =
    let t : List ℕ = 0x0a ∷ (items_string level true (item w xs) ++ (close level b']' ++ p)) in
    let e : parse_items f t ≡ done (item w xs, b']' ∷ p) = rw append_assoc at ih in
    rw (skip_space_none (b',' ∷ t) refl, e) refl
