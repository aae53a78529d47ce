-- ===== src/Controller/Endpoints/Served.antt =====
-- What getEndpoints returns.
use wls_ingress.Base.{List, ◌≡◌, sym, ◌∙◌}
use wls_ingress.Base.{In, Option, some, ◌↔◌, arith}
use wls_ingress.Base.Text.{Text}
use wls_ingress.Ingress.{Service, cluster_ip, Endpoint, Endpoints, ServicePort}
use wls_ingress.Controller.Endpoints.{Resolver, get_endpoints, endpoints_by_type, cluster_endpoints}
use wls_ingress.Controller.Endpoints.Collect.{Distinct}
use wls_ingress.Controller.Endpoints.Exact.{Offers}
use wls_ingress.Controller.Endpoints.Exact.Subsets.{
  collected, collected-Distinct, collected_sound, collected_complete,
}

-- An endpoint of the list has this address and this port.
abbrev pub Listed : Endpoint → List Endpoint → Type 0
Listed e es = (f : Endpoint) × In f es × (f.address ≡ e.address) × (f.port ≡ e.port)

module _ (net : Resolver) (get : Text → Option Endpoints) (key : Service → Text) where
  runs_collected :
      (s : Service) (port : ServicePort) (proto : Text) (ep : Endpoints)
      → s.type ≡ cluster_ip
      → get (key s) ≡ some ep
      → get_endpoints net get key (some s) (some port) proto ≡ collected port proto ep.subsets
  unfolding get_endpoints endpoints_by_type cluster_endpoints
  runs_collected s port proto ep t h = ground arith

  -- For a service that is not of type ExternalName and whose Endpoints object is in the store,
  -- getEndpoints returns no pair of an address and a port twice, and an address and a port are
  -- among those returned exactly when a subset of the object has the address, a port of the
  -- protocol asked for that the service port selects, and that port is positive.
  pub get_endpoints-exact :
      (s : Service) (port : ServicePort) (proto : Text) (ep : Endpoints)
      → s.type ≡ cluster_ip
      → get (key s) ≡ some ep
      → Distinct (get_endpoints net get key (some s) (some port) proto)
        × ((e : Endpoint)
            → Listed e (get_endpoints net get key (some s) (some port) proto)
              ↔ Offers port proto ep.subsets e)
  get_endpoints-exact s port proto ep t h = rw (runs_collected s port proto ep t h) (
    collected-Distinct port proto ep.subsets,
    λ e. (
      λ (f, i, address, printed).
          let o = collected_sound port proto ep.subsets f i in
          record {
            subset = o.subset;
            listed = o.listed;
            ep_port = o.ep_port;
            of_subset = o.of_subset;
            selected = o.selected;
            ep_address = o.ep_address;
            at = o.at;
            address = sym address ∙ o.address;
            printed = sym printed ∙ o.printed;
          },
      collected_complete port proto ep.subsets e,
    ),
  )
