-- ===== src/Annotations/Extract.antt =====
-- internal/ingress/annotations/annotations.go and internal/ingress/errors: from the parsers of the
-- annotations to the ingress with its settings. The merge into the struct is of the library mergo.
pub mod Order
mod Tests
use wls_ingress.Base.{
  Bool, true, false, List, [], ◌∷◌, ◌++◌, Option, none, some, ◌≡◌, if◌then◌else◌, not,
}
use wls_ingress.Base.Text.{Text, codes}
use wls_ingress.Base.Int.{pos}
use wls_ingress.Base.Maps.{Map, lookup, insert}
use wls_ingress.Ingress.{IngressObject}
use wls_ingress.Annotations.{
  Error, missing_annotations, invalid_annotation_name, invalid_content, location_denied, Config,
  parse_proxy,
}

-- IsMissingAnnotations
unfoldable pub is_missing_annotations : Error → Bool
is_missing_annotations missing_annotations = true
is_missing_annotations invalid_annotation_name = false
is_missing_annotations (invalid_content name value) = false
is_missing_annotations (location_denied reason) = false

-- IsLocationDenied
unfoldable pub is_location_denied : Error → Bool
is_location_denied missing_annotations = false
is_location_denied invalid_annotation_name = false
is_location_denied (invalid_content name value) = false
is_location_denied (location_denied reason) = true

-- The Error methods, and the texts of the errors that are variables.
pub error_text : Error → Text
error_text missing_annotations = codes "ingress rule without annotations"
error_text invalid_annotation_name = codes "invalid annotation name"
error_text (invalid_content name value) =
    codes "the annotation "
    ++ name
    ++ codes " does not contain a valid value ("
    ++ value
    ++ codes ")"
error_text (location_denied reason) = codes "Location denied, reason: " ++ reason

-- DeniedKeyName
abbrev pub denied_key_name : Text
denied_key_name = codes "Denied"

-- IngressAnnotation: its Parse returns a value, which can be nil, and an error. `V` is what the
-- parsers return.
abbrev pub Parser : Type 0 → Type 0
Parser V = IngressObject → Option V × Option Error

-- What the map `data` holds: a reason to deny, or a value.
pub data Entry (V : Type 0) : Type 0 where
  reason : Text → Entry V
  value : V → Entry V

module _ {V : Type 0} where
  -- The end of the loop body.
  unfoldable pub store_value : Text → Option V → Map (Entry V) → Map (Entry V)
  store_value name val entries = elim val [
    | none ↦ entries
    | some v ↦ insert name (value v) entries
  ]

  -- The loop body, after the call of Parse.
  unfoldable pub keep : Text → Option V × Option Error → Map (Entry V) → Map (Entry V)
  unfolding store_value
  keep name (val, none) entries = store_value name val entries
  keep name (val, some err) entries =
      if is_missing_annotations err
      then entries
      else if not (is_location_denied err)
      then entries
      else elim (lookup denied_key_name entries) [
        | none ↦ insert denied_key_name (reason (error_text err)) entries
        | some denied ↦ store_value name val entries
      ]

  -- The loop over the parsers, in the order of the list.
  unfoldable pub run_parsers : IngressObject → Map (Parser V) → Map (Entry V) → Map (Entry V)
  run_parsers ing [] entries = entries
  run_parsers ing ((name, parse) ∷ parsers) entries =
      run_parsers ing parsers (keep name (parse ing) entries)

-- Ingress of annotations.go: the meta data, with the ingress it is of, and the settings.
pub record Extracted : Type 0 where
  pub object : IngressObject
  pub proxy : Config

-- Extract. `merge` is MapWithOverwrite, which returns the struct that it was given as far as it got.
unfoldable pub extract :
    {V : Type 0}
    → (merge : Map (Entry V) → Extracted → Extracted) → Map (Parser V)
    → IngressObject
    → Extracted
extract merge parsers ing =
    merge (run_parsers ing parsers [])
      (record { object = ing; proxy = record { body_size = []; read_timeout = pos 0 } })

-- NewAnnotationExtractor, with Parse of the one parser.
abbrev pub annotation_extractor : Map (Parser Config)
annotation_extractor = (codes "Proxy", λ ing. (some (parse_proxy (some ing)), none)) ∷ []
