-- ===== src/Controller/Routing/Tests.antt =====
-- Two ingresses with two hosts, run through getConfiguration, and the theorems at them.
use wls_ingress.Base.{true, [], ◌∷◌, none, some, ◌≡◌, ◌≢◌, ◌↔◌, refl, arith, In, All}
use wls_ingress.Base.Text.{codes, ◌==◌, contains_text, has_prefix}
use wls_ingress.Base.Int.{itoa}
use wls_ingress.Base.Slices.{items}
use wls_ingress.Base.Run.{ok}
use wls_ingress.Ingress.{Endpoint}
use wls_ingress.Config.{Configuration, ConfigurationBackend, configuration_equal}
use wls_ingress.Controller.Endpoints.{get_endpoints, join_host_port}
use wls_ingress.Controller.Endpoints.Collect.{Distinct}
use wls_ingress.Controller.Endpoints.Join.{NoColon}
use wls_ingress.Controller.Endpoints.Exact.{Offers}
use wls_ingress.Controller.Endpoints.Served.{Listed, get_endpoints-exact}
use wls_ingress.Controller.Routing.{get_configuration, upstream_name, upstream, first_backend}
use wls_ingress.Controller.Routing.Flat.{all_rules}
use wls_ingress.Controller.Routing.Upstreams.{HasPath}
use wls_ingress.Controller.Routing.Served.{
  Routed, get_configuration-Routed, get_configuration-ok_iff, get_configuration-order,
}
use wls_ingress.Controller.Routing.Collision.{upstream_name_collision, get_configuration-collision}
use wls_ingress.Controller.Routing.Samples.{
  http_port, service_port, app, app_endpoints, no_names, store, ingress, two, same_order,
  same_order-IsOrder, two-HasPath, backwards, backwards-IsOrder, rule_of,
}

endpoints_run :
    get_endpoints no_names
      (λ k. some app_endpoints)
      (λ s. s.name)
      (some app)
      (some service_port)
      (codes "TCP")
    ≡ record { address = codes "10.0.0.1"; port = codes "7001"; target = none }
      ∷ record { address = codes "fd00::1"; port = codes "7001"; target = none }
      ∷ []
unfolding get_endpoints itoa ◌==◌ join_host_port contains_text has_prefix
endpoints_run = refl

get_endpoints-exact_example :
    Distinct (
      get_endpoints no_names
        (λ k. some app_endpoints)
        (λ s. s.name)
        (some app)
        (some service_port)
        (codes "TCP"))
    × ((e : Endpoint)
        → Listed e (
            get_endpoints no_names
              (λ k. some app_endpoints)
              (λ s. s.name)
              (some app)
              (some service_port)
              (codes "TCP"))
          ↔ Offers service_port (codes "TCP") app_endpoints.subsets e)
get_endpoints-exact_example =
    get_endpoints-exact no_names (λ k. some app_endpoints) (λ s. s.name) app service_port
      (codes "TCP") app_endpoints refl refl

get_configuration-Routed_example :
    (c : Configuration) × (get_configuration store same_order two ≡ ok c)
    × ((s : ConfigurationBackend) → In s (items c.services) ↔ Routed store (all_rules two) s)
get_configuration-Routed_example =
    get_configuration-Routed store same_order two same_order-IsOrder two-HasPath

get_configuration-ok_iff_example :
    ((c : Configuration) × (get_configuration store same_order two ≡ ok c))
    ↔ All HasPath (all_rules two)
get_configuration-ok_iff_example = get_configuration-ok_iff store same_order two

get_configuration-order_example :
    configuration_equal
      (get_configuration-Routed store same_order two same_order-IsOrder two-HasPath).0
      (get_configuration-Routed store backwards two backwards-IsOrder two-HasPath).0
    ≡ true
get_configuration-order_example =
    get_configuration-order store same_order backwards two
      (get_configuration-Routed store same_order two same_order-IsOrder two-HasPath).0
      (get_configuration-Routed store backwards two backwards-IsOrder two-HasPath).0
      same_order-IsOrder backwards-IsOrder
      (get_configuration-Routed store same_order two same_order-IsOrder two-HasPath).1
      (get_configuration-Routed store backwards two backwards-IsOrder two-HasPath).1

x_not_empty : codes "x.org" ≢ []
x_not_empty e = ground (arith, e)

-- The host of namespace "a-b" is served by service "b-c" of namespace "a".
get_configuration-collision_example :
    (c : Configuration) × (get_configuration store same_order two ≡ ok c)
    × In
        (record {
          backend = some (
              upstream store
                (codes "a")
                (record { service_name = codes "b-c"; service_port = http_port }));
          hostname = codes "x.org";
        })
        (items c.services)
    × ((s : ConfigurationBackend)
        → In s (items c.services)
        → s.hostname ≡ codes "x.org"
        → s.backend
          ≡ some (
              upstream store
                (codes "a")
                (record { service_name = codes "b-c"; service_port = http_port })))
unfolding first_backend upstream_name
get_configuration-collision_example =
    get_configuration-collision store same_order (ingress (codes "a-b") (codes "c") (codes "x.org"))
      (ingress (codes "a") (codes "b-c") (codes "y.org")) (rule_of (codes "c") (codes "x.org"))
      (rule_of (codes "b-c") (codes "y.org"))
      (record { service_name = codes "c"; service_port = http_port })
      (record { service_name = codes "b-c"; service_port = http_port }) same_order-IsOrder refl refl
      refl refl x_not_empty (upstream_name_collision (codes "a") (codes "b") (codes "c") http_port)

port-NoColon : NoColon (codes "7001")
port-NoColon = omega arith
