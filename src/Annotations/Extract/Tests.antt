-- ===== src/Annotations/Extract/Tests.antt =====
-- Two parsers in both orders, over a merge that meets its laws, and the theorem at them.
use wls_ingress.Base.{[], ◌∷◌, Option, none, some, ◌≡◌, refl, ap, sym, subst, In, inl, inr}
use wls_ingress.Base.Text.{Text, codes, ◌==◌}
use wls_ingress.Base.Maps.{Map, lookup}
use wls_ingress.Ingress.{IngressObject}
use wls_ingress.Annotations.{Config, missing_annotations, parse_proxy}
use wls_ingress.Annotations.Extract.{
  Parser, Entry, reason, value, is_location_denied, Extracted, extract,
}
use wls_ingress.Annotations.Extract.Order.{IsMerge, Allows, extract-order}
use mathlib.Core.List.{Permᴰ}

unfoldable set_proxy : Option (Entry Config) → Extracted → Extracted
set_proxy none e = e
set_proxy (some (reason r)) e = e
set_proxy (some (value c)) e = record e { proxy = c }

abbrev merge : Map (Entry Config) → Extracted → Extracted
merge entries e = set_proxy (lookup (codes "Proxy") entries) e

merge-IsMerge : IsMerge merge
unfolding set_proxy lookup ◌==◌
merge-IsMerge = record {
  reads = λ d d' e same. ap (λ x. set_proxy x e) (same (codes "Proxy"));
  sets_proxy = λ c e. refl;
}

abbrev site : IngressObject
site = record {
  namespace = codes "a";
  name = codes "ing";
  annotations = [];
  creation = 0;
  rules = [];
  load_balancer = [];
}

abbrev proxy : Parser Config
proxy = λ ing. (some (parse_proxy (some ing)), none)

abbrev missing : Parser Config
missing = λ ing. (none, some missing_annotations)

abbrev in_order : Map (Parser Config)
in_order = (codes "Proxy", proxy) ∷ (codes "Other", missing) ∷ []

abbrev backwards : Map (Parser Config)
backwards = (codes "Other", missing) ∷ (codes "Proxy", proxy) ∷ []

proxy-Allows : Allows site proxy
proxy-Allows err e = cc

missing-Allows : Allows site missing
unfolding is_location_denied
missing-Allows err e = rw (← missing_is) refl
  where
    missing_is : missing_annotations ≡ err
    missing_is = cc

in_order-Allows : (name : Text) (p : Parser Config) → In (name, p) in_order → Allows site p
in_order-Allows name p (inl here) =
    subst (Allows site) (sym (ap (λ (x : Text × Parser Config). x.1) here)) proxy-Allows
in_order-Allows name p (inr (inl there)) =
    subst (Allows site) (sym (ap (λ (x : Text × Parser Config). x.1) there)) missing-Allows
in_order-Allows name p (inr (inr none_more)) = elim none_more [ ]

extract-order_example : extract merge in_order site ≡ extract merge backwards site
unfolding lookup ◌==◌
extract-order_example =
    extract-order merge site in_order backwards merge-IsMerge (Permᴰ.swap refl refl)
      (refl, (refl, tt)) (refl, (refl, tt)) in_order-Allows
