-- ===== src/Controller/Routing.antt =====
-- internal/ingress/controller/controller.go and util.go: getConfiguration with createUpstreams and
-- createServers. A rule without paths makes the code dereference nil or index an empty slice.
pub mod Flat
pub mod Upstreams
pub mod Servers
pub mod Served
pub mod Collision
pub mod Samples
mod Tests
use wls_ingress.Base.{
  ℕ, Bool, true, false, List, [], ◌∷◌, ◌++◌, Option, none, some, if◌then◌else◌, map,
}
use wls_ingress.Base.Text.{Text, codes, ◌==◌}
use wls_ingress.Base.Slices.{Slice, append, items}
use wls_ingress.Base.Maps.{Map, lookup, insert}
use wls_ingress.Base.Run.{Run, ok, panic, ◌>>=◌}
use wls_ingress.Ingress.{
  Service, IntOrString, Endpoint, Backend, IngressBackend, HttpIngressPath, IngressRule,
  IngressObject,
}
use wls_ingress.Config.{Configuration, ConfigurationBackend}
use wls_ingress.Controller.Services.{Snapshot, service_endpoints}

-- upstreamName
unfoldable pub upstream_name : Text → Text → IntOrString → Text
upstream_name namespace service port = namespace ++ (b'-' ∷ (service ++ (b'-' ∷ port.text)))

-- The store's key of a service: Sprintf("%v/%v", namespace, name).
pub service_key : Text → Text → Text
service_key namespace name = namespace ++ (b'/' ∷ name)

-- rule.IngressRuleValue.HTTP.Paths[0].Backend
unfoldable pub first_backend : IngressRule → Run IngressBackend
first_backend rule = elim rule.http [
  | none ↦ panic
  | some [] ↦ panic
  | some (p ∷ paths) ↦ ok p.backend
]

abbrev pub name_of : Text → IngressBackend → Text
name_of namespace b = upstream_name namespace b.service_name b.service_port

-- The endpoints that serviceEndpoints returns beside an error are the nil slice.
abbrev found_endpoints : Option (Slice Endpoint) → List Endpoint
found_endpoints none = []
found_endpoints (some endps) = items endps

module _ (store : Snapshot) where
  -- The upstream that a rule sets up: newUpstream, then its endpoints, then its service.
  pub upstream : Text → IngressBackend → Backend
  unfolding service_endpoints service_key
  upstream namespace b = record {
    name = name_of namespace b;
    service = store.get_service (service_key namespace b.service_name);
    endpoints = append (some []) (
        found_endpoints
          (service_endpoints store (service_key namespace b.service_name) b.service_port.text));
  }

  -- The body of the inner loop of createUpstreams.
  pub add_upstream : Text → IngressRule → Map Backend → Run (Map Backend)
  unfolding first_backend upstream
  add_upstream namespace rule upstreams = do
    b ← first_backend rule
    ok (insert (name_of namespace b) (upstream namespace b) upstreams)

  rule_upstreams : Text → List IngressRule → Map Backend → Run (Map Backend)
  rule_upstreams namespace [] upstreams = ok upstreams
  rule_upstreams namespace (rule ∷ rules) upstreams = do
    more ← add_upstream namespace rule upstreams
    rule_upstreams namespace rules more

  pub upstreams_from : List IngressObject → Map Backend → Run (Map Backend)
  unfolding rule_upstreams
  upstreams_from [] upstreams = ok upstreams
  upstreams_from (ing ∷ rest) upstreams = do
    more ← rule_upstreams ing.namespace ing.rules upstreams
    upstreams_from rest more

  unfoldable pub create_upstreams : List IngressObject → Run (Map Backend)
  unfolding upstreams_from add_upstream
  create_upstreams ings = upstreams_from ings []

-- The body of the inner loop of createServers. A map read of a missing key gives nil.
pub add_server :
    Map Backend → Text → IngressRule → Map (Option Backend) → Run (Map (Option Backend))
unfolding first_backend
add_server upstreams namespace rule servers =
    if rule.host == [] then ok servers else elim (lookup rule.host servers) [
      | some configured ↦ ok servers
      | none ↦ (do
        b ← first_backend rule
        ok (insert rule.host (lookup (name_of namespace b) upstreams) servers))
    ]

rule_servers :
    Map Backend → Text → List IngressRule → Map (Option Backend) → Run (Map (Option Backend))
rule_servers upstreams namespace [] servers = ok servers
rule_servers upstreams namespace (rule ∷ rules) servers = do
  more ← add_server upstreams namespace rule servers
  rule_servers upstreams namespace rules more

pub servers_from :
    Map Backend → List IngressObject → Map (Option Backend) → Run (Map (Option Backend))
unfolding rule_servers
servers_from upstreams [] servers = ok servers
servers_from upstreams (ing ∷ rest) servers = do
  more ← rule_servers upstreams ing.namespace ing.rules servers
  servers_from upstreams rest more

unfoldable pub create_servers : List IngressObject → Map Backend → Run (Map (Option Backend))
unfolding servers_from add_server
create_servers ings upstreams = servers_from upstreams ings []

-- One entry of the range over `servers`.
abbrev pub configured : Text × Option Backend → ConfigurationBackend
configured (host, backend) = record { backend = backend; hostname = host }

-- getConfiguration; `order` is the order in which the range visits the entries of `servers`.
unfoldable pub get_configuration :
    Snapshot
    → (order : Map (Option Backend) → Map (Option Backend)) → List IngressObject
    → Run Configuration
unfolding create_upstreams create_servers
get_configuration store order ings = do
  upstreams ← create_upstreams store ings
  servers ← create_servers ings upstreams
  ok (record { services = append none (map configured (order servers)); controller_pods_count = 0 })
