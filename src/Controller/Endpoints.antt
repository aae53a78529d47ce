-- ===== src/Controller/Endpoints.antt =====
-- internal/ingress/controller/endpoints.go: the endpoints of a service and a target port.
pub mod Join
pub mod Collect
pub mod Exact
pub mod Served
use wls_ingress.Base.{ℕ, Bool, true, false, List, [], ◌∷◌, ◌++◌, Option, none, some, if◌then◌else◌}
use wls_ingress.Base.{◌||◌, ◌&&◌, not}
use wls_ingress.Base.Text.{Text, codes, ◌==◌, contains_text}
use wls_ingress.Base.Int.{ℤ, pos, negsuc, not_positive, itoa}
use wls_ingress.Ingress.{
  Service, ServiceType, cluster_ip, external_name, ServicePort, Endpoint, Endpoints, EndpointSubset,
  EndpointPort, EndpointAddress,
}

-- net.JoinHostPort
unfoldable pub join_host_port : Text → Text → Text
join_host_port host port =
    if contains_text host (codes ":")
    then b'[' ∷ (host ++ b']' ∷ b':' ∷ port)
    else host ++ b':' ∷ port

-- The key is among those processed.
pub holds : Text → List Text → Bool
holds k [] = false
holds k (j ∷ js) = j == k || holds k js

-- The variables of the loops: `upsServers` and `processedUpstreamServers`.
pub record Found : Type 0 where
  pub servers : List Endpoint
  pub processed : List Text

abbrev pub nothing_found : Found
nothing_found = record { servers = []; processed = [] }

-- One round of the loop over `ss.Addresses`.
add_address : ℤ → EndpointAddress → Found → Found
add_address target_port address f =
    let ep = join_host_port address.ip (itoa target_port) in
    if holds ep f.processed then f else record {
      servers =
          f.servers
          ++ record { address = address.ip; port = itoa target_port; target = address.target_ref }
            ∷ [];
      processed = ep ∷ f.processed;
    }

pub add_addresses : ℤ → List EndpointAddress → Found → Found
add_addresses target_port [] f = f
add_addresses target_port (a ∷ addresses) f =
    add_addresses target_port addresses (add_address target_port a f)

-- The `targetPort` that a port of the subset gives: 0 if the names differ.
pub target_port_of : ServicePort → EndpointPort → ℤ
target_port_of port ep_port =
    if port.name == []
    then ep_port.port
    else if port.name == ep_port.name
    then ep_port.port
    else pos 0

-- One round of the loop over `ss.Ports`.
add_port : ServicePort → Text → List EndpointAddress → EndpointPort → Found → Found
add_port port proto addresses ep_port f =
    if not (ep_port.protocol == proto)
    then f
    else if not_positive (target_port_of port ep_port)
    then f
    else add_addresses (target_port_of port ep_port) addresses f

pub add_ports : ServicePort → Text → List EndpointAddress → List EndpointPort → Found → Found
add_ports port proto addresses [] f = f
add_ports port proto addresses (p ∷ ports) f =
    add_ports port proto addresses ports (add_port port proto addresses p f)

pub add_subsets : ServicePort → Text → List EndpointSubset → Found → Found
add_subsets port proto [] f = f
add_subsets port proto (ss ∷ subsets) f =
    add_subsets port proto subsets (add_ports port proto ss.addresses ss.ports f)

-- What the code calls outside: net.ParseIP (is the text an IP address?) and net.LookupHost under
-- wait.ExponentialBackoff (was the name resolved by one of the attempts?).
pub record Resolver : Type 0 where
  pub is_ip : Text → Bool
  pub resolves : Text → Bool

module _ (net : Resolver) (get_service_endpoints : Text → Option Endpoints) where
  -- The branch of an ExternalName service.
  external_endpoints : Service → ServicePort → List Endpoint
  external_endpoints s port =
      if not_positive port.target_port.int_value
      then []
      else if not (net.is_ip s.external) && not (net.resolves s.external)
      then []
      else record { address = s.external; port = itoa port.target_port.int_value; target = none }
        ∷ []

  -- The branch of every other service; `svc_key` is what k8s.MetaNamespaceKey returns.
  cluster_endpoints : Text → ServicePort → Text → List Endpoint
  unfolding add_subsets add_ports add_port add_addresses add_address holds target_port_of
  cluster_endpoints svc_key port proto = elim (get_service_endpoints svc_key) [
    | none ↦ []
    | some ep ↦ (add_subsets port proto ep.subsets nothing_found).servers
  ]

  endpoints_by_type : ServiceType → Text → Service → ServicePort → Text → List Endpoint
  endpoints_by_type external_name svc_key s port proto = external_endpoints s port
  endpoints_by_type cluster_ip svc_key s port proto = cluster_endpoints svc_key port proto

  unfoldable pub get_endpoints :
      (key : Service → Text) → Option Service → Option ServicePort → Text → List Endpoint
  unfolding endpoints_by_type external_endpoints cluster_endpoints
  get_endpoints key none port proto = []
  get_endpoints key (some s) none proto = []
  get_endpoints key (some s) (some port) proto = endpoints_by_type s.type (key s) s port proto
