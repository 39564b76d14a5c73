-- ===== src/Util/Json/Tests.antt =====
-- Runs of the JSON parser and of its printer.
use dbstream.Common.{◌+◌, ◌≡◌, refl, true, [], ◌∷◌, ◌++◌, arith, length}
use dbstream.Util.Json.{Json, str, num, obj, arr, bool, nil, item, end, field, less, insert_key}
use dbstream.Util.Json.Chars.{
  done, fault, skip_space, to_quote, parse_string, parse_digits, parse_long, parse_num, same_word,
  parse_bool, get_type,
}
use dbstream.Util.Json.Parse.{parse, parse_value, parse_key}
use dbstream.Util.Json.Print.{to_string, digits, long_string}
use dbstream.Util.Json.Body.{IsPrintable}
use dbstream.Util.Json.RoundTrip.{parse-to_string}
use dbstream.Util.Json.Within.{Ends, Within}
use dbstream.Util.Json.Ends.{parse-Ends}
use dbstream.Util.Json.Cut.{cut_text, parse-cut_text}

-- {"a": [-7, true], "b": "x"}
abbrev sample : Json
sample = obj (
    field (b'a' ∷ []) (arr (item (num 18446744073709551609) (item (bool true) nil)))
      (field (b'b' ∷ []) (str (b'x' ∷ [])) end))

sample_text : length (to_string 1 sample) ≡ 43
unfolding to_string long_string digits
sample_text = refl

sample_read : parse (to_string 1 sample) ≡ done (sample, 43)
unfolding parse parse_value parse_key get_type parse_string parse_long parse_num parse_digits
    parse_bool same_word to_quote skip_space insert_key less to_string long_string digits
sample_read = refl

sample-IsPrintable : IsPrintable sample
unfolding IsPrintable less
sample-IsPrintable = (
  (λ e. cc),
  ((omega arith, omega arith), tt),
  (refl, tt),
  (omega arith, (tt, tt)),
  ((λ e. cc), ((omega arith, omega arith), tt), tt, ((omega arith, omega arith), tt), tt),
)

parse-to_string_example :
    parse (to_string 1 sample ++ b',' ∷ []) ≡ done (sample, length (to_string 1 sample))
parse-to_string_example = parse-to_string sample 1 (b',' ∷ []) sample-IsPrintable refl

parse-Ends_example : Ends (Within (to_string 1 sample)) (parse (to_string 1 sample))
parse-Ends_example = parse-Ends (to_string 1 sample)

parse-cut_text_example :
    (parse (cut_text 1 sample) ≡ done (arr (item sample nil), length (cut_text 1 sample) + 1))
    × (parse (b'[' ∷ 0x0a ∷ cut_text 1 sample) ≡ fault)
parse-cut_text_example = parse-cut_text 1 sample sample-IsPrintable
