-- ===== src/Annotations/Tests.antt =====
-- Annotations parsed, and the theorem at an ingress.
use wls_ingress.Base.{true, false, [], ◌∷◌, ◌≡◌, refl}
use wls_ingress.Base.Text.{codes, ◌==◌, split}
use wls_ingress.Base.Maps.{lookup}
use wls_ingress.Ingress.{IngressObject}
use wls_ingress.Annotations.{normalize_string, has_class}

abbrev site : IngressObject
site = record {
  namespace = codes "default";
  name = codes "site";
  annotations = (codes "wls.ingress.kubernetes.io/proxy-read-timeout", codes "60") ∷ [];
  creation = 0;
  rules = [];
  load_balancer = [];
}

normalize_run : normalize_string (codes " a \n\tb") ≡ codes "a\nb"
unfolding normalize_string split ◌==◌
normalize_run = refl

class_run : (has_class (codes "wls") site ≡ true) × (has_class (codes "other") site ≡ false)
unfolding has_class lookup ◌==◌
class_run = (refl, refl)
