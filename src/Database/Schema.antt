-- ===== src/Database/Schema.antt =====
-- `column_descriptor` and `validate_column_descriptor` of ch_diag/artifact_schema.py.
use ch_diag.Prelude.{Bool, List, String, [], false, not, refl, true, ◌&&◌, ◌==◌, ◌||◌, ◌∷◌, ◌≡◌}
use ch_diag.Prelude.Lists.{any, elem}
use ch_diag.Prelude.Results.{Result, invalid_column, ok, raise_if, ◌>>◌}
use ch_diag.Prelude.Strings.{casefold_eq, ends, mentions, starts}
use ch_diag.Prelude.Tests.{if_both, if◌then◌else◌}

-- a column descriptor; its label, a title made of the name, is left out
pub record Descriptor : Type 0 where
  pub name : String
  pub source_type : String
  pub value_kind : String
  pub semantic_role : String
  pub quantity : String
  pub unit : String
  pub quality : String
  pub nullable : Bool
  pub encoding : String

-- what the type of a column decides
pub record Kind : Type 0 where
  pub value_kind : String
  pub encoding : String
  pub role : String
  pub quantity : String
  pub unit : String

abbrev pub kind_row : String → String → String → String → String → Kind
kind_row value_kind encoding role quantity unit = record {
  value_kind = value_kind;
  encoding = encoding;
  role = role;
  quantity = quantity;
  unit = unit;
}

abbrev pub is_date : String → Bool
is_date t = casefold_eq t "date" || starts "date" t

abbrev pub is_structured : String → Bool
is_structured t =
    any (λ token. mentions token t) ("array" ∷ "map" ∷ "tuple" ∷ "object" ∷ "json" ∷ [])

unfoldable pub kind_of_type : String → Kind
kind_of_type t =
    if mentions "int" t || mentions "decimal" t
    then if mentions "int" t && not (mentions "decimal" t)
      then kind_row "integer" "decimal_string" "gauge" "count" "count"
      else kind_row "decimal" "json_string" "gauge" "count" "count"
    else if mentions "float" t
    then kind_row "decimal" "json_number" "gauge" "count" "count"
    else if mentions "datetime" t
    then kind_row "timestamp" "json_string" "state" "timestamp" "none"
    else if is_date t
    then kind_row "date" "json_string" "state" "date" "none"
    else if casefold_eq t "bool" || casefold_eq t "boolean"
    then kind_row "boolean" "json_boolean" "state" "boolean" "none"
    else if is_structured t
    then kind_row "json" "json_value" "state" "structured" "none"
    else kind_row "text" "json_string" "label" "identifier" "none"

abbrev pub is_number : Kind → Bool
is_number k = elem k.value_kind ("integer" ∷ "decimal" ∷ [])

abbrev pub names_identifier : String → Bool
names_identifier name =
    (ends "_id" name || ends "_hash" name)
    || any (λ other. casefold_eq name other) ("pid" ∷ "ppid" ∷ "tid" ∷ "thread_id" ∷ [])

abbrev pub names_bytes : String → Bool
names_bytes name =
    ends "_bytes" name || (mentions "bytes_on_disk" name || mentions "memory_usage" name)

-- what the name of a column changes
unfoldable pub adjust_by_name : String → Kind → Kind
adjust_by_name name k =
    if is_number k && names_identifier name
    then record k { role = "identifier"; quantity = "identifier"; unit = "none" }
    else if names_bytes name
    then record k { quantity = "data_volume"; unit = "bytes" }
    else if ends "_ms" name || mentions "duration_ms" name
    then record k { role = "duration"; quantity = "milliseconds"; unit = "ms" }
    else if ends "_seconds" name || (casefold_eq name "elapsed" || casefold_eq name "uptime")
    then record k { role = "duration"; quantity = "seconds"; unit = "s" }
    else if ends "_pct" name || ends "_percent" name
    then record k { quantity = "percentage"; unit = "%" }
    else k

unfoldable pub column_descriptor : String → String → Descriptor
unfolding kind_of_type adjust_by_name
column_descriptor name source_type =
    let k = adjust_by_name name (kind_of_type source_type) in
    record {
      name = name;
      source_type = source_type;
      value_kind = k.value_kind;
      semantic_role = k.role;
      quantity = k.quantity;
      unit = k.unit;
      quality = "exact";
      nullable = starts "nullable(" source_type;
      encoding = k.encoding;
    }

abbrev pub value_kinds : List String
value_kinds = "integer" ∷ "decimal" ∷ "timestamp" ∷ "date" ∷ "boolean" ∷ "json" ∷ "text" ∷ []

abbrev pub semantic_roles : List String
semantic_roles = "identifier" ∷ "gauge" ∷ "duration" ∷ "state" ∷ "label" ∷ []

abbrev pub qualities : List String
qualities = "exact" ∷ "estimated" ∷ "derived" ∷ []

abbrev pub encodings : List String
encodings = "decimal_string" ∷ "json_string" ∷ "json_number" ∷ "json_boolean" ∷ "json_value" ∷ []

-- `validate_column_descriptor`, of a descriptor that has all its fields
unfoldable pub validate_column_descriptor : Descriptor → Result (Unit {0})
validate_column_descriptor d = do
  raise_if (d.name == "") (invalid_column d.name)
  raise_if (not (elem d.value_kind value_kinds)) (invalid_column d.name)
  raise_if (not (elem d.semantic_role semantic_roles)) (invalid_column d.name)
  raise_if (not (elem d.quality qualities)) (invalid_column d.name)
  raise_if (not (elem d.encoding encodings)) (invalid_column d.name)

-- what the validation asks of a kind
abbrev IsListed : Kind → Type 0
IsListed k =
    (elem k.value_kind value_kinds ≡ true)
    × (elem k.role semantic_roles ≡ true)
    × (elem k.encoding encodings ≡ true)

kind_of_type-IsListed : (t : String) → IsListed (kind_of_type t)
unfolding kind_of_type
kind_of_type-IsListed t =
    if_both IsListed (mentions "int" t || mentions "decimal" t) _ _
      (if_both IsListed (mentions "int" t && not (mentions "decimal" t)) _ _ (refl, refl, refl)
        (refl, refl, refl))
      (if_both IsListed (mentions "float" t) _ _ (refl, refl, refl)
        (if_both IsListed (mentions "datetime" t) _ _ (refl, refl, refl)
          (if_both IsListed (is_date t) _ _ (refl, refl, refl)
            (if_both IsListed (casefold_eq t "bool" || casefold_eq t "boolean") _ _
              (refl, refl, refl)
              (if_both IsListed (is_structured t) _ _ (refl, refl, refl) (refl, refl, refl))))))

adjust_by_name-IsListed : (name : String) (k : Kind) → IsListed k → IsListed (adjust_by_name name k)
unfolding adjust_by_name
adjust_by_name-IsListed name k h =
    if_both IsListed (is_number k && names_identifier name) _ _ (h.0, refl, h.2)
      (if_both IsListed (names_bytes name) _ _ h (
        if_both IsListed (ends "_ms" name || mentions "duration_ms" name) _ _ (h.0, refl, h.2)
          (if_both IsListed
            (ends "_seconds" name || (casefold_eq name "elapsed" || casefold_eq name "uptime")) _ _
            (h.0, refl, h.2)
            (if_both IsListed (ends "_pct" name || ends "_percent" name) _ _ h h))))

-- Every descriptor of a column that has a name is valid, whatever the database calls its type.
pub column_descriptor-validates :
    (name source_type : String)
    → (name == "") ≡ false
    → validate_column_descriptor (column_descriptor name source_type) ≡ ok tt
unfolding validate_column_descriptor column_descriptor
column_descriptor-validates name source_type e =
    let h =
      adjust_by_name-IsListed name (kind_of_type source_type) (kind_of_type-IsListed source_type) in
    rw (e, h.0, h.1, h.2) refl
