-- ===== src/Cli/Formats.antt =====
-- `_output_formats` of ch_diag/cli.py. Text is walked as code points.
pub mod Accepted
use ch_diag.Prelude.{Bool, List, String, [], false, map, not, true, ℕ, ◌&&◌, ◌++◌, ◌||◌, ◌∷◌}
use ch_diag.Prelude.Lists.{any}
use ch_diag.Prelude.Results.{Result, err, ok, usage_error}
use ch_diag.Prelude.Strings.{lower}
use ch_diag.Prelude.Tests.{if◌then◌else◌, nat_eq}
use ch_diag.Prelude.Text.{Text, codes, strip}

abbrev pub split_codes : ℕ → Text → List Text
split_codes sep [] = [] ∷ []
split_codes sep (c ∷ s) =
    let pieces = split_codes sep s in if nat_eq c sep then [] ∷ pieces else push_code c pieces
  where
    push_code : ℕ → List Text → List Text
    push_code c [] = (c ∷ []) ∷ []
    push_code c (p ∷ ps) = (c ∷ p) ∷ ps

abbrev pub same_text : Text → Text → Bool
same_text [] [] = true
same_text [] (d ∷ t) = false
same_text (c ∷ s) [] = false
same_text (c ∷ s) (d ∷ t) = nat_eq c d && same_text s t

abbrev pub listed_text : Text → List Text → Bool
listed_text s [] = false
listed_text s (t ∷ ts) = same_text t s || listed_text s ts

-- `part.strip().lower()`
abbrev pub format_name : Text → Text
format_name part = map lower (strip part)

abbrev pub is_blank : Text → Bool
is_blank [] = true
is_blank (c ∷ s) = false

abbrev pub add_format : List Text → Text → List Text
add_format result value =
    if not (is_blank value) && not (listed_text value result)
    then result ++ (value ∷ [])
    else result

unfoldable pub add_formats : List Text → List Text → List Text
add_formats result [] = result
add_formats result (part ∷ rest) = add_formats (add_format result (format_name part)) rest

unfoldable pub read_formats : List Text → List String → List Text
unfolding add_formats split_codes
read_formats result [] = result
read_formats result (raw ∷ rest) =
    read_formats (add_formats result (split_codes b',' (codes raw))) rest

abbrev pub json_format : Text
json_format = codes "json"

abbrev pub html_format : Text
html_format = codes "html"

abbrev pub is_format : Text → Bool
is_format s = same_text json_format s || same_text html_format s

abbrev pub checked_formats : List Text → Result (List Text)
checked_formats [] = err (usage_error "--output-format accepts only html and/or json")
checked_formats (s ∷ ss) =
    if any (λ t. not (is_format t)) (s ∷ ss)
    then err (usage_error "--output-format accepts only html and/or json")
    else ok (s ∷ ss)

-- `_output_formats`
unfoldable pub output_formats : List String → Result (List Text)
unfolding read_formats
output_formats [] = ok (json_format ∷ html_format ∷ [])
output_formats (raw ∷ rest) = checked_formats (read_formats [] (raw ∷ rest))
