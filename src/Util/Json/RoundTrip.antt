-- ===== src/Util/Json/RoundTrip.antt =====
-- What toString has written is read back by Parse.
use mathlib.Core.List.{append_assoc}
use dbstream.Common.{
  ℕ, zero, suc, ◌+◌, ◌*◌, ◌<◌, ◌≡◌, refl, sym, ap, ◌∙◌, true, List, [], ◌∷◌, ◌++◌, arith, length,
  length-append,
}
use dbstream.Util.Json.{Json, str, num, obj, arr, bool, Items, nil, item, Fields, end, field}
use dbstream.Util.Json.Chars.{done}
use dbstream.Util.Json.Parse.{parse_value, parse_items, parse_fields, parse}
use dbstream.Util.Json.Print.{to_string, items_string, fields_string}
use dbstream.Util.Json.Words.{
  Spaces, Stops, parse_string-quoted, parse_num-long_string, parse_bool-word,
}
use dbstream.Util.Json.Body.{
  indent, close, body, to_string-body, indent-Spaces, IsPrintable, EachIsPrintable, ArePrintable,
  skip_space-body, get_type-body, skip_space-close, distance-closed,
}
use dbstream.Util.Json.Keys.{joined, Before, Before-end, joined-end, Before-joined, joined_assoc}
use dbstream.Util.Json.Steps.{
  weight, weight_items, weight_fields, on_num, on_string, on_bool, on_array, on_object, items_stop,
  fields_stop,
}
use dbstream.Util.Json.Elements.{after_item-Stops, first_item, more_items}
use dbstream.Util.Json.Members.{
  lead, inner, lead-Spaces, after_field-Stops, first_field, more_fields,
}
use dbstream.Util.Json.Weight.{weight-lt}

mutual
  unfolding IsPrintable weight to_string

  pub reads_value :
      (v : Json) (level f : ℕ) (w p : List ℕ)
      → IsPrintable v
      → Spaces w
      → Stops p
      → weight v < f
      → parse_value f (w ++ (body level v ++ p)) ≡ done (v, length w + length (body level v))
  reads_value v level zero w p h hw hp hf = absurd (omega arith)
  reads_value (str s) level (suc f) w p h hw hp hf =
      on_string f _ (get_type-body level (str s) w p h hw)
      ∙ rw (parse_string-quoted w s p hw h) refl
  reads_value (num n) level (suc f) w p h hw hp hf =
      on_num f _ (get_type-body level (num n) w p h hw)
      ∙ rw (parse_num-long_string w n p hw hp h) refl
  reads_value (bool b) level (suc f) w p h hw hp hf =
      on_bool f _ (get_type-body level (bool b) w p h hw) ∙ rw (parse_bool-word w b p hw) refl
  reads_value (arr xs) level (suc f) w p h hw hp hf =
      let d = distance-closed w (body level (arr xs)) p b']' (omega arith) in
      on_array f _ (get_type-body level (arr xs) w p h hw)
      ∙ rw (skip_space-body level (arr xs) w p h hw, reads_items xs level f p h (omega arith), d)
          refl
  reads_value (obj fs) level (suc f) w p h hw hp hf =
      let d = distance-closed w (body level (obj fs)) p b'}' (omega arith) in
      on_object f _ (get_type-body level (obj fs) w p h hw)
      ∙ rw
          (
            skip_space-body level (obj fs) w p h hw,
            reads_fields fs end level f p h (Before-end fs) (omega arith),
            d,
          )
          refl

  reads_items :
      (xs : Items) (level f : ℕ) (p : List ℕ)
      → EachIsPrintable xs
      → weight_items xs < f
      → parse_items f (0x0a ∷ ((items_string level true xs ++ close level b']') ++ p))
        ≡ done (xs, b']' ∷ p)
  reads_items xs level zero p h hf = absurd (omega arith)
  reads_items nil level (suc f) p h hf =
      items_stop f 0x0a _ _ (skip_space-close level b']' (0x0a ∷ []) p (refl, tt) refl) refl
  reads_items (item v xs) level (suc f) p h hf =
      first_item v xs level f p h.0
        (reads_value v (suc level) f [] _ h.0 tt (after_item-Stops level xs p) (omega arith))
      ∙ more_items v xs level f p (reads_items xs level f p h.1 (omega arith))

  reads_fields :
      (fs m : Fields) (level f : ℕ) (p : List ℕ)
      → ArePrintable fs
      → Before m fs
      → weight_fields fs < f
      → parse_fields f m (0x0a ∷ ((fields_string level true fs ++ close level b'}') ++ p))
        ≡ done (joined m fs, b'}' ∷ p)
  reads_fields fs m level zero p h hm hf = absurd (omega arith)
  reads_fields end m level (suc f) p h hm hf =
      fields_stop f 0x0a m _ _ (skip_space-close level b'}' (0x0a ∷ []) p (refl, tt) refl) refl
      ∙ ap (λ z. done (z, b'}' ∷ p)) (sym (joined-end m))
  reads_fields (field k v fs) m level (suc f) p h hm hf =
      let m' : Fields = joined m (field k v end) in
      let later : Before m' fs = Before-joined m k v fs hm.1 h.2 in
      first_field k v fs m level f p h.0 h.1 hm.0 (
        reads_value v (inner level v) f (lead level v) _ h.3 (lead-Spaces level v)
          (after_field-Stops level fs p) (omega arith))
      ∙ more_fields fs m' level f p (reads_fields fs m' level f p h.4 later (omega arith))
      ∙ ap (λ z. done (z, b'}' ∷ p)) (joined_assoc m k v fs)

-- Parsing the text of a value gives the value back, and the length of its text, at every level of
-- indentation and whatever stands behind the text, as long as no digit does; for values whose strings
-- have neither quotes nor zero bytes, whose keys are not empty and ascend, and whose numbers have 64
-- bits.
pub parse-to_string :
    (v : Json) (level : ℕ) (p : List ℕ)
    → IsPrintable v
    → Stops p
    → parse (to_string level v ++ p) ≡ done (v, length (to_string level v))
unfolding parse
parse-to_string v level p h hp =
    let e = to_string-body level v in
    let n : length (to_string level v) ≡ length (indent level v) + length (body level v) =
      rw e (length-append (indent level v) (body level v)) in
    let t : to_string level v ++ p ≡ indent level v ++ (body level v ++ p) =
      rw e (append_assoc (indent level v) (body level v) p) in
    let f : ℕ = 2 * length (to_string level v ++ p) + 1 in
    let enough : weight v < f =
      omega (arith, weight-lt v level h, length-append {0} (to_string level v) p, n) in
    ap (parse_value f) t
    ∙ reads_value v level f (indent level v) p h (indent-Spaces level v) hp enough
    ∙ ap (λ m. done (v, m)) (sym n)
