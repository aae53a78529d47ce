-- ===== src/Controller/Routing/Collision.antt =====
-- Upstream names of different namespaces can be the same.
use wls_ingress.Base.{[], ◌∷◌, ◌++◌, Option, some, ◌≡◌, ◌≢◌, refl, sym, ap, ◌∙◌, In, All}
use wls_ingress.Base.Slices.{items}
use wls_ingress.Base.Maps.{Map}
use wls_ingress.Base.{arith, append_assoc}
use wls_ingress.Base.Text.{Text, ==_iff, ==_refl}
use wls_ingress.Base.Run.{ok}
use wls_ingress.Ingress.{IntOrString, IngressBackend, IngressRule, IngressObject, Backend}
use wls_ingress.Config.{Configuration, ConfigurationBackend}
use wls_ingress.Controller.Services.{Snapshot}
use wls_ingress.Controller.Routing.{
  upstream_name, name_of, first_backend, upstream, get_configuration,
}
use wls_ingress.Controller.Routing.Flat.{all_rules}
use wls_ingress.Controller.Routing.Upstreams.{HasPath, last_for}
use wls_ingress.Controller.Routing.Servers.{first_for}
use wls_ingress.Controller.Routing.Served.{IsOrder, Routed, get_configuration-Routed}

-- Moving a dash-separated part from the namespace to the service gives the same upstream name.
pub upstream_name_collision :
    (ns part service : Text) (port : IntOrString)
    → upstream_name (ns ++ (b'-' ∷ part)) service port
      ≡ upstream_name ns (part ++ (b'-' ∷ service)) port
unfolding upstream_name
upstream_name_collision ns part service port = simp append_assoc

some_injective : {A : Type 0} {x y : A} → some x ≡ some y → x ≡ y
some_injective e = cc

-- The host of the first rule is to be served with the upstream of the second.
collision-Routed :
    (store : Snapshot) (first second : IngressObject) (r1 r2 : IngressRule) (b1 b2 : IngressBackend)
    → first.rules ≡ r1 ∷ []
    → second.rules ≡ r2 ∷ []
    → first_backend r1 ≡ ok b1
    → first_backend r2 ≡ ok b2
    → r1.host ≢ []
    → name_of first.namespace b1 ≡ name_of second.namespace b2
    → Routed store
        (all_rules (first ∷ second ∷ []))
        (record { backend = some (upstream store second.namespace b2); hostname = r1.host })
unfolding first_for last_for
collision-Routed store first second r1 r2 b1 b2 h1 h2 f1 f2 n e =
    rw (h1, h2)
      (record {
        full = n;
        name = name_of first.namespace b1;
        first = ground (arith, ==_refl r1.host);
        winner = (second.namespace, b2);
        last = ground (arith, ==_iff (name_of second.namespace b2) (name_of first.namespace b1));
        backend = refl;
      })

-- If an ingress with one rule is followed by another ingress with one rule, whatever their
-- namespaces, both rules have an HTTP path, and the upstreams of the two rules have one name, then
-- getConfiguration, in whatever order it visits the hosts, gives a configuration that serves the
-- host of the first rule, if it is not empty, with the upstream of the second rule's service, and
-- with no other.
pub get_configuration-collision :
    (store : Snapshot) (order : Map (Option Backend) → Map (Option Backend))
    (first second : IngressObject) (r1 r2 : IngressRule) (b1 b2 : IngressBackend)
    → IsOrder order
    → first.rules ≡ r1 ∷ []
    → second.rules ≡ r2 ∷ []
    → first_backend r1 ≡ ok b1
    → first_backend r2 ≡ ok b2
    → r1.host ≢ []
    → name_of first.namespace b1 ≡ name_of second.namespace b2
    → (c : Configuration) × (get_configuration store order (first ∷ second ∷ []) ≡ ok c)
      × In
          (record { backend = some (upstream store second.namespace b2); hostname = r1.host })
          (items c.services)
      × ((s : ConfigurationBackend)
          → In s (items c.services)
          → s.hostname ≡ r1.host
          → s.backend ≡ some (upstream store second.namespace b2))
get_configuration-collision store order first second r1 r2 b1 b2 o h1 h2 f1 f2 n e =
    let paths : All HasPath (all_rules (first ∷ second ∷ [])) =
      rw (h1, h2) ((b1, f1), ((b2, f2), tt)) in
    let (c, ran, exact) = get_configuration-Routed store order (first ∷ second ∷ []) o paths in
    let wanted = collision-Routed store first second r1 r2 b1 b2 h1 h2 f1 f2 n e in
    (
      c,
      ran,
      (exact (record { backend = some (upstream store second.namespace b2); hostname = r1.host })).1
          wanted,
      λ s i host.
          let r = (exact s).0 i in
          let names : r.name ≡ wanted.name = some_injective (
            sym r.first
            ∙ ap (λ (x : Text). first_for x (all_rules (first ∷ second ∷ []))) host
            ∙ wanted.first) in
          let winners : r.winner ≡ wanted.winner = some_injective (
            sym r.last
            ∙ ap (λ (x : Text). last_for x (all_rules (first ∷ second ∷ []))) names
            ∙ wanted.last) in
          r.backend
          ∙ ap (λ (x : Text × IngressBackend). some (upstream store x.0 x.1)) winners
          ∙ sym wanted.backend,
    )
