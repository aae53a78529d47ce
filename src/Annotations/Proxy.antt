-- ===== src/Annotations/Proxy.antt =====
-- The proxy settings of an ingress.
use wls_ingress.Base.{List, [], ◌∷◌, none, some, ◌≡◌, refl, arith, inl, inr, ◌⊎◌}
use wls_ingress.Base.Text.{Text, ◌==◌}
use wls_ingress.Base.Maps.{lookup}
use wls_ingress.Ingress.{IngressObject}
use wls_ingress.Annotations.{
  get_annotation_with_prefix, check_annotation, get_int_annotation, parse_int, failed,
  missing_annotations,
}

list_cases : {A : Type 0} → (xs : List A) → (xs ≡ []) ⊎ ((x : A) × (ys : List A) × (xs ≡ x ∷ ys))
list_cases [] = inl refl
list_cases (x ∷ xs) = inr (x, xs, refl)

-- An annotation that is there is parsed, whatever else is.
int_annotation_found :
    (name : Text) (ing : IngressObject) (v : Text)
    → lookup (get_annotation_with_prefix name) ing.annotations ≡ some v
    → get_int_annotation name (some ing)
      ≡ parse_int ing.annotations (get_annotation_with_prefix name)
unfolding get_int_annotation check_annotation get_annotation_with_prefix ◌==◌ lookup
int_annotation_found name ing v e = elim (list_cases ing.annotations) [
  | inl none_there ↦ cc (e, none_there)
  | inr (x, xs, some_there) ↦ ground (arith, some_there)
]

int_annotation_missing :
    (name : Text) (ing : IngressObject)
    → lookup (get_annotation_with_prefix name) ing.annotations ≡ none
    → get_int_annotation name (some ing) ≡ failed missing_annotations
unfolding get_int_annotation check_annotation get_annotation_with_prefix ◌==◌ parse_int lookup
int_annotation_missing name ing e = elim (list_cases ing.annotations) [
  | inl none_there ↦ ground (arith, none_there)
  | inr (x, xs, some_there) ↦ ground (arith, some_there, e)
]
