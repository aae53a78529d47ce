-- ===== src/Annotations.antt =====
-- internal/ingress/annotations (parser, class, proxy, annotations.go) and internal/ingress/errors:
-- from the annotations of an ingress to its class and its proxy settings.
pub mod Proxy
pub mod Extract
mod Tests
use wls_ingress.Base.{
  ℕ, Bool, true, false, ◌&&◌, ◌||◌, List, [], ◌∷◌, ◌++◌, Option, none, some, if◌then◌else◌, not,
  map,
}
use wls_ingress.Base.{leb, nat_eq}
use wls_ingress.Base.Text.{Text, codes, ◌==◌, split}
use wls_ingress.Base.Int.{ℤ, pos, negsuc, atoi}
use wls_ingress.Base.Maps.{Map, lookup, insert}
use wls_ingress.Base.Run.{Run, ok, panic}
use wls_ingress.Ingress.{IngressObject}

-- The errors of internal/ingress/errors.
pub data Error : Type 0 where
  missing_annotations : Error
  invalid_annotation_name : Error
  invalid_content : (name value : Text) → Error
  location_denied : (reason : Text) → Error

pub data Result (A : Type 0) : Type 0 where
  parsed : A → Result A
  failed : Error → Result A

-- AnnotationsPrefix
abbrev annotations_prefix : Text
annotations_prefix = codes "wls.ingress.kubernetes.io"

-- GetAnnotationWithPrefix
pub get_annotation_with_prefix : Text → Text
get_annotation_with_prefix suffix = annotations_prefix ++ b'/' ∷ suffix

-- unicode.IsSpace
is_space : ℕ → Bool
is_space c =
    leb 9 c && leb c 13
    || nat_eq c 32
    || nat_eq c 133
    || nat_eq c 160
    || nat_eq c 5760
    || leb 8192 c && leb c 8202
    || nat_eq c 8232
    || nat_eq c 8233
    || nat_eq c 8239
    || nat_eq c 8287
    || nat_eq c 12288

trim_left : Text → Text
unfolding is_space
trim_left [] = []
trim_left (c ∷ s) = let later = trim_left s in if is_space c then later else c ∷ s

trim_right : Text → Text
unfolding is_space
trim_right [] = []
trim_right (c ∷ s) = let later = trim_right s in if later == [] && is_space c then [] else c ∷ later

-- strings.TrimSpace
trim_space : Text → Text
unfolding trim_left trim_right
trim_space s = trim_right (trim_left s)

-- strings.Join with a separator of one character.
join_lines : List Text → Text
join_lines [] = []
join_lines (line ∷ []) = line
join_lines (line ∷ next ∷ lines) = line ++ b'\n' ∷ join_lines (next ∷ lines)

-- normalizeString
unfoldable pub normalize_string : Text → Text
unfolding trim_space join_lines
normalize_string input = join_lines (map trim_space (split input (codes "\n")))

-- parseString
unfoldable pub parse_string : Map Text → Text → Result Text
unfolding normalize_string
parse_string annotations name = elim (lookup name annotations) [
  | none ↦ failed missing_annotations
  | some val ↦
      if normalize_string val == []
      then failed (invalid_content name val)
      else parsed (normalize_string val)
]

-- parseInt
unfoldable pub parse_int : Map Text → Text → Result ℤ
parse_int annotations name = elim (lookup name annotations) [
  | none ↦ failed missing_annotations
  | some val ↦ elim (atoi val) [ none ↦ failed (invalid_content name val) | some i ↦ parsed i ]
]

-- checkAnnotation; `none` is no error.
unfoldable pub check_annotation : Text → Option IngressObject → Option Error
check_annotation name none = some missing_annotations
check_annotation name (some ing) = elim ing.annotations [
  | [] ↦ some missing_annotations
  | _ ∷ _ ↦ if name == [] then some invalid_annotation_name else none
]

abbrev annotations_of : Option IngressObject → Map Text
annotations_of none = []
annotations_of (some ing) = ing.annotations

-- GetStringAnnotation
unfoldable pub get_string_annotation : Text → Option IngressObject → Result Text
unfolding check_annotation
get_string_annotation name ing =
    let v = get_annotation_with_prefix name in
    elim (check_annotation v ing) [
      | some err ↦ failed err
      | none ↦ parse_string (annotations_of ing) v
    ]

-- GetIntAnnotation
unfoldable pub get_int_annotation : Text → Option IngressObject → Result ℤ
unfolding check_annotation
get_int_annotation name ing =
    let v = get_annotation_with_prefix name in
    elim (check_annotation v ing) [
      | some err ↦ failed err
      | none ↦ parse_int (annotations_of ing) v
    ]

-- The class of an ingress is accepted, by the variable IngressClass; DefaultClass is never changed.
unfoldable pub has_class : (ingress_class : Text) → IngressObject → Bool
has_class ingress_class ing =
    let ingress : Text = elim (lookup (codes "kubernetes.io/ingress.class") ing.annotations) [
      | none ↦ []
      | some c ↦ c
    ] in
    if ingress == [] && ingress_class == codes "wls" then true else ingress == ingress_class

-- class.IsValid. The annotations of a nil ingress cannot be read.
unfoldable pub is_valid : (ingress_class : Text) → Option IngressObject → Run Bool
is_valid ingress_class none = panic
is_valid ingress_class (some ing) = ok (has_class ingress_class ing)

-- proxy.Config
pub record Config : Type 0 where
  pub body_size : Text
  pub read_timeout : ℤ

-- proxy.Parse, which returns no error.
unfoldable pub parse_proxy : Option IngressObject → Config
parse_proxy ing = record {
  body_size = elim (get_string_annotation (codes "proxy-body-size") ing) [
    | failed err ↦ codes "10m"
    | parsed s ↦ s
  ];
  read_timeout = elim (get_int_annotation (codes "proxy-read-timeout") ing) [
    | failed err ↦ pos 300
    | parsed i ↦ i
  ];
}
