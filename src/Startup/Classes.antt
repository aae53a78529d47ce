-- ===== src/Startup/Classes.antt =====
-- The flag --ingress-class, and the ingresses that the controller satisfies.
use wls_ingress.Base.{[], Option, none, some}
use wls_ingress.Base.Text.{Text, codes}
use wls_ingress.Base.Maps.{lookup}
use wls_ingress.Ingress.{IngressObject}

-- The value of the annotation, which is empty if there is none.
abbrev value_or_empty : Option Text → Text
value_or_empty none = []
value_or_empty (some c) = c

abbrev pub class_annotation : IngressObject → Text
class_annotation ing = value_or_empty (lookup (codes "kubernetes.io/ingress.class") ing.annotations)
