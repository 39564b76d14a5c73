-- ===== src/Util/Json/Members.antt =====
-- Reading the fields of an object, one after another.
use mathlib.Core.List.{append_assoc}
use dbstream.Common.{
  ℕ, suc, ◌+◌, ◌≡◌, refl, ap, ◌∙◌, ◌≢◌, true, false, List, [], ◌∷◌, ◌++◌, if◌then◌else◌, length,
}
use dbstream.Util.Json.{Json, str, num, obj, arr, bool, Fields, end, field, insert_key}
use dbstream.Util.Json.Chars.{Run, done, tail, skip_space}
use dbstream.Util.Json.Parse.{parse_value, parse_fields, inserted, next}
use dbstream.Util.Json.Print.{tabs, has_parts, quoted, to_string, fields_string}
use dbstream.Util.Json.Words.{
  Spaces, IsPlain, Stops, tabs-Spaces, skip_space-Spaces, skip_space_none, advance-second,
}
use dbstream.Util.Json.Body.{indent, close, body, indent-Spaces, skip_space-close}
use dbstream.Util.Json.Keys.{joined, AllBelow, joined-end, insert_key-AllBelow, parse_key-quoted}
use dbstream.Util.Json.Steps.{fields_step}

-- The white space before a field's value, and the level of its text.
abbrev pub lead : ℕ → Json → List ℕ
lead level v = if has_parts v then 0x0a ∷ indent (suc level) v else indent 0 v

abbrev pub inner : ℕ → Json → ℕ
inner level v = if has_parts v then suc level else 0

pub lead-Spaces : (level : ℕ) (v : Json) → Spaces (lead level v)
lead-Spaces level (str s) = tt
lead-Spaces level (num n) = tt
lead-Spaces level (obj fs) = (refl, indent-Spaces (suc level) (obj fs))
lead-Spaces level (arr xs) = (refl, indent-Spaces (suc level) (arr xs))
lead-Spaces level (bool b) = tt

pub value_text :
    (level : ℕ) (v : Json)
    → (if has_parts v then 0x0a ∷ to_string (suc level) v else to_string 0 v)
      ≡ lead level v ++ body (inner level v) v
unfolding to_string
value_text level (str s) = refl
value_text level (num n) = refl
value_text level (obj fs) = refl
value_text level (arr xs) = refl
value_text level (bool b) = refl

-- What follows a field is a comma or the end, and is no digit.
pub after_field-Stops :
    (level : ℕ) (fs : Fields) (p : List ℕ)
    → Stops (fields_string level false fs ++ (close level b'}' ++ p))
unfolding to_string
after_field-Stops level end p = refl
after_field-Stops level (field k v fs) p = refl

-- The text of the fields from one on, behind the line's end.
fields_text :
    (level : ℕ) (k : List ℕ) (v : Json) (fs : Fields) (p : List ℕ)
    → (fields_string level true (field k v fs) ++ close level b'}') ++ p
      ≡ tabs (suc level)
        ++ (quoted k
            ++ (b':'
                ∷ (lead level v
                    ++ (body (inner level v) v
                        ++ (fields_string level false fs ++ (close level b'}' ++ p))))))
unfolding to_string
fields_text level k v fs p = rw (value_text level v) (simp append_assoc)

-- What the loop does behind a field, at `r`.
abbrev pub behind_field : ℕ → Fields → List ℕ → Run (Fields × List ℕ)
behind_field f m r =
    next b'}' (skip_space r) (done (m, skip_space r)) (parse_fields f m (tail (skip_space r)))

pub first_field :
    (k : List ℕ) (v : Json) (fs m : Fields) (level f : ℕ) (p : List ℕ)
    → k ≢ []
    → IsPlain k
    → AllBelow m k
    → (let r = fields_string level false fs ++ (close level b'}' ++ p) in
        parse_value f (lead level v ++ (body (inner level v) v ++ r))
          ≡ done (v, length (lead level v) + length (body (inner level v) v))
        → parse_fields
            (suc f)
            m
            (0x0a ∷ ((fields_string level true (field k v fs) ++ close level b'}') ++ p))
          ≡ behind_field f (joined m (field k v end)) r)
first_field k v fs m level f p n plain below one =
    let r = fields_string level false fs ++ (close level b'}' ++ p) in
    let s = lead level v ++ (body (inner level v) v ++ r) in
    let q = quoted k ++ (b':' ∷ s) in
    let put : inserted (insert_key k v m) ≡ done (joined m (field k v end)) =
      ap inserted (insert_key-AllBelow k v m below) in
    fields_step f 0x0a m (joined m (field k v end)) _ q s r k v
      (length (lead level v) + length (body (inner level v) v))
      (ap (λ z. skip_space (0x0a ∷ z)) (fields_text level k v fs p)
        ∙ (skip_space-Spaces (0x0a ∷ tabs (suc level)) q (refl, tabs-Spaces (suc level))
            ∙ skip_space_none q refl))
      refl (parse_key-quoted k s n plain) one
      (advance-second (lead level v) (body (inner level v) v) r) put

pub more_fields :
    (fs m : Fields) (level f : ℕ) (p : List ℕ)
    → parse_fields f m (0x0a ∷ ((fields_string level true fs ++ close level b'}') ++ p))
      ≡ done (joined m fs, b'}' ∷ p)
    → behind_field f m (fields_string level false fs ++ (close level b'}' ++ p))
      ≡ done (joined m fs, b'}' ∷ p)
unfolding to_string
more_fields end m level f p ih = rw (skip_space-close level b'}' [] p tt refl, joined-end m) refl
more_fields (field k v fs) m level f p ih =
    let t : List ℕ = 0x0a ∷ (fields_string level true (field k v fs) ++ (close level b'}' ++ p)) in
    let e : parse_fields f m t ≡ done (joined m (field k v fs), b'}' ∷ p) = rw append_assoc at ih in
    rw (skip_space_none (b',' ∷ t) refl, e) refl
