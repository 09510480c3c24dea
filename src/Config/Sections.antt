-- ===== src/Config/Sections.antt =====
-- What a whole configuration file decides of the destinations of `[ssh]`.
use ch_diag.Artifact.{values}
use ch_diag.Collector.Lifecycle.{after}
use ch_diag.Config.{Python, Setting, Value}
use ch_diag.Config.Environment.{destinations}
use ch_diag.Config.Fields.{
  collection_fields, config_fields, connection_fields, output_fields, snapshots_fields, ssh_fields,
}
use ch_diag.Config.File.{Decides, Decides-before, coerce_values-Decides, coerce_values-skips}
use ch_diag.Config.Resolve.{Document, coerce_values, has_unknown, read_sections, section_values}
use ch_diag.Prelude.{Option, String, [], ap, false, none, refl, some, sym, ◌∙◌, ◌∷◌, ◌≡◌}
use ch_diag.Prelude.Dict.{Dict, dict_keys, get}
use ch_diag.Prelude.Lists.{Uniq, elem}
use ch_diag.Prelude.Names.{Uniq-distinct}
use ch_diag.Prelude.Results.{>>=-eq-ok, config_error, ok, raise_if-eq-ok}

abbrev after_fourth : Dict (Dict String)
after_fourth = ("snapshots", snapshots_fields) ∷ []

abbrev after_third : Dict (Dict String)
after_third = ("ssh", ssh_fields) ∷ after_fourth

abbrev after_second : Dict (Dict String)
after_second = ("output", output_fields) ∷ after_third

abbrev after_first : Dict (Dict String)
after_first = ("collection", collection_fields) ∷ after_second

module _ (python : Python) (document : Document) where
  read_sections-step :
      (section : String) (fields : Dict String) (rest : Dict (Dict String))
      (before after : Dict Setting)
      → read_sections python document ((section, fields) ∷ rest) before ≡ ok after
      → (values : Dict Value) × (later : Dict Setting) × (section_values (get section document)
          ≡ ok values)
        × (coerce_values python fields values before ≡ ok later)
        × (read_sections python document rest later ≡ ok after)
  unfolding read_sections
  read_sections-step section fields rest before after e =
      let (values, read, e₁) = >>=-eq-ok (section_values (get section document)) _ e in
      let (known, e₂) =
        raise_if-eq-ok (has_unknown values fields) (config_error "unknown key(s)") _ e₁ in
      let (later, coerced, e₃) = >>=-eq-ok (coerce_values python fields values before) _ e₂ in
      (values, later, read, coerced, e₃)

  module _ (key destination : String) (field : get key ssh_fields ≡ some destination)
      (free₁ : elem destination (destinations connection_fields) ≡ false)
      (free₂ : elem destination (destinations collection_fields) ≡ false)
      (free₃ : elem destination (destinations output_fields) ≡ false)
      (free₅ : elem destination (destinations snapshots_fields) ≡ false) where
    -- the value of the key in the section, as it is coerced, and nothing without it
    pub read_sections-Decides :
        (after : Dict Setting)
        → read_sections python document config_fields [] ≡ ok after
        → (values : Dict Value) × (section_values (get "ssh" document) ≡ ok values)
          × (Uniq (dict_keys values) → Decides python [] after destination (get key values))
    unfolding read_sections
    read_sections-Decides after e =
        let (v₁, d₁, r₁, c₁, e₁) =
          read_sections-step "connection" connection_fields after_first [] after e in
        let (v₂, d₂, r₂, c₂, e₂) =
          read_sections-step "collection" collection_fields after_second d₁ after e₁ in
        let (v₃, d₃, r₃, c₃, e₃) =
          read_sections-step "output" output_fields after_third d₂ after e₂ in
        let (v₄, d₄, r₄, c₄, e₄) = read_sections-step "ssh" ssh_fields after_fourth d₃ after e₃ in
        let (v₅, d₅, r₅, c₅, e₅) = read_sections-step "snapshots" snapshots_fields [] d₄ after e₄ in
        let none_before : get destination d₃ ≡ none =
          coerce_values-skips python output_fields v₃ d₂ d₃ destination free₃ c₃
          ∙ (coerce_values-skips python collection_fields v₂ d₁ d₂ destination free₂ c₂
              ∙ coerce_values-skips python connection_fields v₁ [] d₁ destination free₁ c₁) in
        let same_after : d₅ ≡ after = cc e₅ in
        let kept : get destination after ≡ get destination d₄ =
          sym (ap (get destination) same_after)
          ∙ coerce_values-skips python snapshots_fields v₅ d₄ d₅ destination free₅ c₅ in
        (
          v₄,
          r₄,
          λ u. Decides-before python [] d₃ after destination none_before _ (
              Decides-after d₃ d₄ after kept (get key v₄) (
                coerce_values-Decides python ssh_fields key destination field
                  (Uniq-distinct (destinations ssh_fields) refl) v₄ d₃ d₄ u c₄)),
        )
      where
        Decides-after :
            (before middle last : Dict Setting)
            → get destination last ≡ get destination middle
            → (o : Option Value) → Decides python before middle destination o
            → Decides python before last destination o
        Decides-after before middle last k none w = k ∙ w
        Decides-after before middle last k (some v) (s, c, w) = (s, c, k ∙ w)
