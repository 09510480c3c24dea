-- ===== src/Prelude/Strings.antt =====
-- Native strings that are walked: splitting, stripping and comparing without case. Character
-- classes and case are those of ASCII.
use Prim.Native.Char.{Char, code}
use Prim.Native.String.{String, [], ◌∷◌}
use mathlib.Core.List.{List}
use mathlib.Core.Bool.{Bool, true, false, ◌&&◌, ◌||◌}
use Prim.Native.Nat.{ℕ, ◌+◌}
use ch_diag.Prelude.Tests.{if◌then◌else◌, leb, nat_eq}
use ch_diag.Prelude.Text.{is_space}

abbrev pub lower : ℕ → ℕ
lower c = if leb b'A' c && leb c b'Z' then c + 32 else c

-- `a.casefold() == b.casefold()`
abbrev pub casefold_eq : String → String → Bool
casefold_eq [] [] = true
casefold_eq [] (d ∷ t) = false
casefold_eq (c ∷ s) [] = false
casefold_eq (c ∷ s) (d ∷ t) = nat_eq (lower (code c)) (lower (code d)) && casefold_eq s t

abbrev pub strip_left : String → String
strip_left [] = []
strip_left (c ∷ s) = if is_space (code c) then strip_left s else c ∷ s

abbrev pub cons_stripped : Char → String → String
cons_stripped c [] = if is_space (code c) then [] else c ∷ []
cons_stripped c (d ∷ s) = c ∷ d ∷ s

abbrev pub strip_right : String → String
strip_right [] = []
strip_right (c ∷ s) = cons_stripped c (strip_right s)

-- `text.strip()`
abbrev pub strip_text : String → String
strip_text s = strip_right (strip_left s)

-- `text.split(sep)` for one character: at least one part
abbrev pub push_part : Char → List String → List String
push_part c List.[] = List.◌∷◌ (c ∷ []) List.[]
push_part c (List.◌∷◌ p ps) = List.◌∷◌ (c ∷ p) ps

abbrev pub split_on : ℕ → String → List String
split_on sep [] = List.◌∷◌ [] List.[]
split_on sep (c ∷ s) =
    let parts = split_on sep s in
    if nat_eq (code c) sep then List.◌∷◌ [] parts else push_part c parts

-- `text.casefold().startswith(prefix)` and `token in text.casefold()`, where prefix and token are
-- in lower case
abbrev pub starts : String → String → Bool
starts [] s = true
starts (c ∷ p) [] = false
starts (c ∷ p) (d ∷ s) = nat_eq (code c) (lower (code d)) && starts p s

abbrev pub mentions : String → String → Bool
mentions token [] = starts token []
mentions token (c ∷ s) = starts token (c ∷ s) || mentions token s

-- `text.casefold().endswith(suffix)`
abbrev pub ends : String → String → Bool
ends suffix [] = casefold_eq [] suffix
ends suffix (c ∷ s) = casefold_eq (c ∷ s) suffix || ends suffix s
