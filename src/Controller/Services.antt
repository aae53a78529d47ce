-- ===== src/Controller/Services.antt =====
-- internal/ingress/controller/controller.go, serviceEndpoints: from a service key and the port of
-- an Ingress backend to endpoints. The store answers from one snapshot.
use wls_ingress.Base.{Bool, List, [], ◌∷◌, Option, none, some, if◌then◌else◌, ◌||◌}
use wls_ingress.Base.Text.{Text, codes, ◌==◌}
use wls_ingress.Base.Int.{itoa, atoi, to_int32}
use wls_ingress.Base.Slices.{Slice, append}
use wls_ingress.Ingress.{
  Service, ServiceType, cluster_ip, external_name, ServicePort, IntOrString, Endpoint, Endpoints,
}
use wls_ingress.Controller.Endpoints.{Resolver, get_endpoints}

-- The store's GetService and GetServiceEndpoints (`none` is an error, with a nil pointer), and
-- what the code calls outside: the lookup of names, k8s.MetaNamespaceKey, intstr.FromString.
pub record Snapshot : Type 0 where
  pub net : Resolver
  pub get_service : Text → Option Service
  pub get_service_endpoints : Text → Option Endpoints
  pub meta_key : Service → Text
  pub from_string : Text → IntOrString

abbrev pub tcp : Text
tcp = codes "TCP"

module _ (store : Snapshot) where
  pub endpoints_at : Service → ServicePort → List Endpoint
  unfolding get_endpoints
  endpoints_at svc port =
      get_endpoints store.net store.get_service_endpoints store.meta_key (some svc) (some port) tcp

  -- The test of the loop over svc.Spec.Ports.
  pub port_matches : Text → ServicePort → Bool
  port_matches backend_port p =
      itoa p.port == backend_port || p.target_port.text == backend_port || p.name == backend_port

  -- The loop over svc.Spec.Ports, which breaks at the first port that matches.
  pub port_endpoints : Service → Text → List ServicePort → Slice Endpoint
  unfolding port_matches endpoints_at
  port_endpoints svc backend_port [] = none
  port_endpoints svc backend_port (p ∷ ports) =
      if port_matches backend_port p
      then append none (endpoints_at svc p)
      else port_endpoints svc backend_port ports

  -- The branch of an ExternalName service.
  external_service_endpoints : Service → Text → Slice Endpoint
  unfolding endpoints_at
  external_service_endpoints svc backend_port = elim (atoi backend_port) [
    | none ↦ none
    | some external_port ↦ append none (
        endpoints_at svc (record {
          name = [];
          port = to_int32 external_port;
          target_port = store.from_string backend_port;
        }))
  ]

  by_type : ServiceType → Service → Text → Slice Endpoint
  by_type external_name svc backend_port = external_service_endpoints svc backend_port
  by_type cluster_ip svc backend_port = port_endpoints svc backend_port svc.ports

  -- serviceEndpoints; `none` is an error.
  unfoldable pub service_endpoints : Text → Text → Option (Slice Endpoint)
  unfolding by_type external_service_endpoints port_endpoints
  service_endpoints svc_key backend_port = elim (store.get_service svc_key) [
    | none ↦ none
    | some svc ↦ some (by_type svc.type svc backend_port)
  ]
