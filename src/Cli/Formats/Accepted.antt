-- ===== src/Cli/Formats/Accepted.antt =====
-- The formats that `_output_formats` accepts.
use ch_diag.Cli.Formats.{
  add_format, add_formats, checked_formats, format_name, html_format, is_blank, is_format,
  json_format, listed_text, output_formats, read_formats, same_text, split_codes,
}
use ch_diag.Prelude.{
  Bool, List, String, [], ap₂, arith, false, inl, inr, not, refl, subst, sym, true, ◌&&◌, ◌++◌, ◌<◌,
  ◌||◌, ◌∷◌, ◌≡◌, ◌⊎◌,
}
use ch_diag.Prelude.Lists.{All, any, length}
use ch_diag.Prelude.Results.{Result, err, ok}
use ch_diag.Prelude.Tests.{Bool-cases, if_cases}
use ch_diag.Prelude.Text.{Text, codes}

-- no format is listed twice
abbrev pub DistinctTexts : List Text → Type 0
DistinctTexts [] = Unit
DistinctTexts (s ∷ ss) = (listed_text s ss ≡ false) × DistinctTexts ss

same_text-eq : (s t : Text) → same_text s t ≡ true → s ≡ t
same_text-eq [] [] h = refl
same_text-eq [] (d ∷ t) h = cc
same_text-eq (c ∷ s) [] h = cc
same_text-eq (c ∷ s) (d ∷ t) h =
    let same : s ≡ t = same_text-eq s t (ground arith) in
    let first : c ≡ d = ground arith in ap₂ (λ x (y : Text). x ∷ y) first same

same_text_refl : (s : Text) → same_text s s ≡ true
same_text_refl [] = refl
same_text_refl (c ∷ s) = ground (arith, same_text_refl s)

same_text_comm : (s t : Text) → same_text s t ≡ false → same_text t s ≡ false
same_text_comm s t h = elim (Bool-cases (same_text t s)) [
  | inl e ↦
      let same : t ≡ s = same_text-eq t s e in
      let yes : same_text s t ≡ true = subst (λ x. same_text x t ≡ true) same (same_text_refl t) in
      absurd (let x : ⊥ = cc (yes, h) in x)
  | inr e ↦ e
]

listed-append :
    (s : Text) (ss : List Text) (t : Text)
    → listed_text s ss ≡ false
    → same_text t s ≡ false
    → listed_text s (ss ++ (t ∷ [])) ≡ false
listed-append s [] t h k = rw k refl
listed-append s (u ∷ ss) t h k = ground (arith, listed-append s ss t)

append-DistinctTexts :
    (ss : List Text) (t : Text)
    → DistinctTexts ss
    → listed_text t ss ≡ false
    → DistinctTexts (ss ++ (t ∷ []))
append-DistinctTexts [] t d h = (refl, tt)
append-DistinctTexts (s ∷ ss) t d h = (
  listed-append s ss t d.0 (same_text_comm s t (first h)),
  append-DistinctTexts ss t d.1 (ground arith),
)
  where
    first : (same_text s t || listed_text t ss) ≡ false → same_text s t ≡ false
    first k = ground arith

add_format-DistinctTexts :
    (result : List Text) (value : Text)
    → DistinctTexts result
    → DistinctTexts (add_format result value)
add_format-DistinctTexts result value d =
    if_cases DistinctTexts (not (is_blank value) && not (listed_text value result)) _ _
      (λ t. append-DistinctTexts result value d (ground arith)) (λ f. d)

add_formats-DistinctTexts :
    (result rest : List Text) → DistinctTexts result → DistinctTexts (add_formats result rest)
unfolding add_formats
add_formats-DistinctTexts result [] d = d
add_formats-DistinctTexts result (part ∷ rest) d =
    add_formats-DistinctTexts (add_format result (format_name part)) rest
      (add_format-DistinctTexts result (format_name part) d)

read_formats-DistinctTexts :
    (result : List Text) (raws : List String)
    → DistinctTexts result
    → DistinctTexts (read_formats result raws)
unfolding read_formats
read_formats-DistinctTexts result [] d = d
read_formats-DistinctTexts result (raw ∷ rest) d =
    read_formats-DistinctTexts (add_formats result (split_codes b',' (codes raw))) rest
      (add_formats-DistinctTexts result (split_codes b',' (codes raw)) d)

-- the formats of a collection
abbrev pub AreFormats : Result (List Text) → Type 0
AreFormats (err e) = Unit
AreFormats (ok formats) =
    (0 < length formats)
    × All (λ t. (t ≡ json_format) ⊎ (t ≡ html_format)) formats
    × DistinctTexts formats

any-is_format :
    (ss : List Text)
    → any (λ t. not (is_format t)) ss ≡ false
    → All (λ t. (t ≡ json_format) ⊎ (t ≡ html_format)) ss
any-is_format [] h = tt
any-is_format (s ∷ ss) h = (one (same_text json_format s) refl, any-is_format ss (ground arith))
  where
    html : same_text json_format s ≡ false → same_text html_format s ≡ true
    html e = ground arith

    one : (b : Bool) → same_text json_format s ≡ b → (s ≡ json_format) ⊎ (s ≡ html_format)
    one true e = inl (sym (same_text-eq json_format s e))
    one false e = inr (sym (same_text-eq html_format s (html e)))

checked_formats-AreFormats :
    (formats : List Text) → DistinctTexts formats → AreFormats (checked_formats formats)
checked_formats-AreFormats [] d = tt
checked_formats-AreFormats (s ∷ ss) d =
    if_cases AreFormats (any (λ t. not (is_format t)) (s ∷ ss)) _ _ (λ t. tt)
      (λ f. (omega arith, any-is_format (s ∷ ss) f, d))

-- The formats of a collection: where the options are accepted, there is at least one, each is JSON or
-- HTML, and none is there twice.
pub output_formats-AreFormats : (raws : List String) → AreFormats (output_formats raws)
unfolding output_formats
output_formats-AreFormats [] = (omega arith, (inl refl, (inr refl, tt)), (refl, (refl, tt)))
output_formats-AreFormats (raw ∷ rest) =
    checked_formats-AreFormats (read_formats [] (raw ∷ rest))
      (read_formats-DistinctTexts [] (raw ∷ rest) tt)
