-- ===== src/Versioning.antt =====
-- ch_diag/versioning.py: ClickHouse versions, the LTS branch that serves a server version, and the
-- choice of a query variant. A version text is the list of its code points.
pub mod Greatest
pub mod Order
pub mod Resolve
pub mod Select
pub mod RoundTrip
pub mod Tests
use ch_diag.Prelude.{
  Bool, List, Option, String, [], false, map, none, not, some, true, ℕ, ◌&&◌, ◌++◌, ◌∷◌,
}
use ch_diag.Prelude.Lists.{elem, keep}
use ch_diag.Prelude.Results.{
  Result, err, invalid_lts_branch, invalid_version, ok, overlapping_variants, ◌>>=◌, ◌>>◌,
}
use ch_diag.Prelude.Tests.{if◌then◌else◌, leb, ltb, nat_eq}
use ch_diag.Prelude.Text.{
  Text, after_digits, codes, digit_run, drop_spaces, print_int, read_from, strip,
}

pub record Version : Type 0 where
  pub major : ℕ
  pub minor : ℕ
  pub patch : ℕ
  pub revision : ℕ

-- what `ClickHouseVersion.parse` accepts; integers are natural numbers
pub data VersionValue : Type 0 where
  version : Version → VersionValue
  integer : ℕ → VersionValue
  parts : List ℕ → VersionValue
  text : Text → VersionValue

-- `cls(*(parts + [0] * (4 - len(parts))))`, for one to four parts
unfoldable pub of_parts : List ℕ → Result Version
of_parts (a ∷ []) = ok (record { major = a; minor = 0; patch = 0; revision = 0 })
of_parts (a ∷ b ∷ []) = ok (record { major = a; minor = b; patch = 0; revision = 0 })
of_parts (a ∷ b ∷ c ∷ []) = ok (record { major = a; minor = b; patch = c; revision = 0 })
of_parts (a ∷ b ∷ c ∷ d ∷ []) = ok (record { major = a; minor = b; patch = c; revision = d })
of_parts values = err (invalid_version values)

-- an optional group `(?:\.(\d+))?` at the start of a text: its number, `int(part or 0)`, and the
-- text behind it
unfoldable pub dotted : Text → ℕ × Text
dotted [] = (0, [])
dotted (c ∷ s) = elim (digit_run s) [
  | [] ↦ (0, c ∷ s)
  | d ∷ ds ↦ if nat_eq c b'.' then (read_from 0 (d ∷ ds), after_digits s) else (0, c ∷ s)
]

-- `_VERSION_RE.match` and the numbers of its groups
unfoldable pub match_version : Text → Option Version
unfolding dotted
match_version s =
    let start = drop_spaces s in
    elim (digit_run start) [
      | [] ↦ none
      | d ∷ ds ↦
          let (minor, s₂) = dotted (after_digits start) in
          let (patch, s₃) = dotted s₂ in
          let (revision, _) = dotted s₃ in
          some (record {
            major = read_from 0 (d ∷ ds);
            minor = minor;
            patch = patch;
            revision = revision;
          })
    ]

unfoldable pub parse : VersionValue → Result Version
unfolding of_parts match_version
parse (version v) = ok v
parse (integer n) = ok (record { major = n; minor = 0; patch = 0; revision = 0 })
parse (parts values) = of_parts values
parse (text s) = elim (match_version s) [ none ↦ err (invalid_version s) | some v ↦ ok v ]

-- `__str__`
unfoldable pub str : Version → Text
str v =
    print_int v.major
    ++ (b'.' ∷ (print_int v.minor ++ (b'.' ∷ (print_int v.patch ++ (b'.' ∷ print_int v.revision)))))

-- the property `branch`
unfoldable pub branch : Version → Text
branch v = print_int v.major ++ (b'.' ∷ print_int v.minor)

-- `0|[1-9]\d*`, to the end of the text
unfoldable pub is_plain_number : Text → Bool
is_plain_number [] = false
is_plain_number (c ∷ s) = elim (after_digits (c ∷ s)) [
  | [] ↦ elim s [ [] ↦ true | d ∷ ds ↦ not (nat_eq c b'0') ]
  | _ ↦ false
]

-- `_LTS_BRANCH_RE.fullmatch`
unfoldable pub is_lts_branch : Text → Bool
unfolding is_plain_number
is_lts_branch s = elim (digit_run s) [
  | [] ↦ false
  | d ∷ ds ↦ elim (after_digits s) [
    | [] ↦ false
    | c ∷ rest ↦ not (nat_eq d b'0') && (nat_eq c b'.' && is_plain_number rest)
  ]
]

unfoldable pub parse_lts_branch : Text → Result Version
unfolding is_lts_branch parse
parse_lts_branch value =
    let normalized = strip value in
    if is_lts_branch normalized then parse (text normalized) else err (invalid_lts_branch value)

-- `left <= right` of the dataclass: the fields in order
unfoldable pub version_le : Version → Version → Bool
version_le v w =
    if nat_eq v.major w.major
    then if nat_eq v.minor w.minor
      then if nat_eq v.patch w.patch then leb v.revision w.revision else ltb v.patch w.patch
      else ltb v.minor w.minor
    else ltb v.major w.major

abbrev pub Entry : Type 0
Entry = Version × String

unfoldable pub candidates : List String → Result (List Entry)
candidates [] = ok []
candidates (b ∷ bs) = do v ← parse_lts_branch (codes b); rest ← candidates bs; ok ((v, b) ∷ rest)

-- `max(entries, key=...)`: the first entry that no other exceeds
unfoldable pub max_entry : Entry → List Entry → Entry
max_entry best [] = best
max_entry best (e ∷ es) = max_entry (if version_le e.0 best.0 then best else e) es

unfoldable pub max_branch : List Entry → Option String
unfolding max_entry
max_branch [] = none
max_branch (e ∷ es) = some (max_entry e es).1

unfoldable pub resolve_lts_branch : Version → List String → Result (Option String)
unfolding candidates max_branch
resolve_lts_branch v supported = do
  entries ← candidates supported
  ok (max_branch (keep (λ e. version_le e.0 v) entries))

-- a variant of a query manifest; `[]` stands for an absent list
pub record Variant : Type 0 where
  pub id : String
  pub sql_file : String
  pub lts_versions : List String
  pub scopes : List String

-- `variant.get("scopes") or ["node", "cluster"]`
unfoldable pub variant_scopes : Variant → List String
variant_scopes r = elim r.scopes [ [] ↦ "node" ∷ "cluster" ∷ [] | s ∷ ss ↦ s ∷ ss ]

unfoldable pub serves : String → String → Variant → Bool
unfolding variant_scopes
serves lts scope r = elem lts r.lts_versions && elem scope (variant_scopes r)

-- the set of the branches that the variants name, in the order of first occurrence
unfoldable pub add_new : List String → List String → List String
add_new [] known = known
add_new (b ∷ bs) known = add_new bs (if elem b known then known else known ++ (b ∷ []))

unfoldable pub named_branches : List Variant → List String → List String
unfolding add_new
named_branches [] known = known
named_branches (r ∷ rs) known = named_branches rs (add_new r.lts_versions known)

-- `sorted(..., key=parse_lts_branch)`: stable
unfoldable pub insert_entry : Entry → List Entry → List Entry
insert_entry e [] = e ∷ []
insert_entry e (f ∷ fs) = if version_le f.0 e.0 then f ∷ insert_entry e fs else e ∷ f ∷ fs

unfoldable pub sort_entries : List Entry → List Entry → List Entry
unfolding insert_entry
sort_entries [] sorted = sorted
sort_entries (e ∷ es) sorted = sort_entries es (insert_entry e sorted)

unfoldable pub default_branches : List Variant → Result (List String)
unfolding named_branches sort_entries candidates
default_branches variants = do
  entries ← candidates (named_branches variants [])
  ok (map (λ (e : Entry). e.1) (sort_entries entries []))

unfoldable pub single : List Variant → Result (Option Variant)
single [] = ok none
single (r ∷ []) = ok (some r)
single (r ∷ s ∷ rs) = err (overlapping_variants (map (λ (x : Variant). x.id) (r ∷ s ∷ rs)))

unfoldable pub select_among : List Variant → String → Option String → Result (Option Variant)
unfolding single serves
select_among variants scope none = ok none
select_among variants scope (some lts) = single (keep (serves lts scope) variants)

-- `supported` is `none` where the caller passes no list
unfoldable pub select_variant :
    List Variant → Version → String → Option (List String) → Result (Option Variant)
unfolding default_branches resolve_lts_branch select_among
select_variant variants v scope none = do
  supported ← default_branches variants
  lts ← resolve_lts_branch v supported
  select_among variants scope lts
select_variant variants v scope (some supported) = do
  lts ← resolve_lts_branch v supported
  select_among variants scope lts
