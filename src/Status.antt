-- ===== src/Status.antt =====
-- internal/ingress/status/status.go, and the parts of internal/k8s/main.go that it calls: the
-- addresses of the controller, written to the status of every ingress. What is read of the cluster
-- is a snapshot; net.ParseIP, StringInSlice and the client that writes are parameters.
pub mod Slices
pub mod Addresses
pub mod Updates
pub mod Polling
mod Tests
use wls_ingress.Base.{
  ℕ, zero, suc, Bool, true, false, not, ◌&&◌, ◌||◌, List, [], ◌∷◌, ◌++◌, Option, none, some,
  if◌then◌else◌,
}
use wls_ingress.Base.{length, nat_eq, ltb, map}
use mathlib.Core.Option
use wls_ingress.Base.Text.{Text, codes, ◌==◌, text_lt, split}
use wls_ingress.Base.Sort.{sort_stable}
use wls_ingress.Ingress.{ServiceType, external_name, cluster_ip, LoadBalancerIngress, IngressObject}

-- The fields of corev1.Service that are read here.
pub record PublishedService : Type 0 where
  pub type : ServiceType
  pub external_name : Text
  pub external_ips : List Text
  pub load_balancer : List LoadBalancerIngress

pub record Pod : Type 0 where
  pub phase : Text
  pub node_name : Text

pub record NodeAddress : Type 0 where
  pub type : Text
  pub address : Text

-- What the API server answers, `none` for an error: a service by namespace and name, the pods with
-- the labels of this one, and the addresses of a node.
pub record Cluster : Type 0 where
  pub get_service : Text → Text → Option PublishedService
  pub list_pods : Option (List Pod)
  pub get_node : Text → Option (List NodeAddress)

-- ParseNameNS
unfoldable pub parse_name_ns : Text → Option (Text × Text)
parse_name_ns input = elim (split input (codes "/")) [
  | [] ↦ none
  | ns ∷ [] ↦ none
  | ns ∷ name ∷ [] ↦ some (ns, name)
  | _ ∷ _ ∷ _ ∷ _ ↦ none
]

-- The loops of GetNodeIPOrName: the first address of the type that is not empty.
unfoldable pub first_address : Text → List NodeAddress → Text
first_address type [] = []
first_address type (a ∷ addresses) =
    let later = first_address type addresses in
    if a.type == type && not (a.address == []) then a.address else later

-- GetNodeIPOrName
unfoldable pub get_node_ip_or_name : Cluster → Text → Bool → Text
get_node_ip_or_name cluster name use_internal_ip = elim (cluster.get_node name) [
  | none ↦ []
  | some addresses ↦
      let internal = first_address (codes "InternalIP") addresses in
      if use_internal_ip && not (internal == [])
      then internal
      else first_address (codes "ExternalIP") addresses
]

-- The addresses of a load balancer, by the first loop of runningAddresses.
pub load_balancer_addresses : List LoadBalancerIngress → List Text
load_balancer_addresses [] = []
load_balancer_addresses (ip ∷ ips) =
    (if ip.ip == [] then ip.hostname else ip.ip) ∷ load_balancer_addresses ips

published_addresses : PublishedService → List Text
published_addresses svc = elim svc.type [
  | external_name ↦ svc.external_name ∷ []
  | cluster_ip ↦ load_balancer_addresses svc.load_balancer ++ svc.external_ips
]

module _ (in_slice : Text → List Text → Bool) where
  -- One round of the second loop of runningAddresses.
  pub add_pod : Cluster → Pod → List Text → List Text
  add_pod cluster pod addrs =
      let name = get_node_ip_or_name cluster pod.node_name false in
      if not (pod.phase == codes "Running")
      then addrs
      else if in_slice name addrs
      then addrs
      else addrs ++ name ∷ []

  pub pod_addresses : Cluster → List Pod → List Text → List Text
  pod_addresses cluster [] addrs = addrs
  pod_addresses cluster (pod ∷ pods) addrs = pod_addresses cluster pods (add_pod cluster pod addrs)

  -- runningAddresses; the error of ParseNameNS is dropped, and leaves two empty names.
  unfoldable pub running_addresses : Cluster → Text → Option (List Text)
  unfolding published_addresses pod_addresses
  running_addresses cluster publish_service =
      if not (publish_service == [])
      then elim (parse_name_ns publish_service) [
        | none ↦ Option.map published_addresses (cluster.get_service [] [])
        | some (ns, name) ↦ Option.map published_addresses (cluster.get_service ns name)
      ]
      else Option.map (λ (pods : List Pod). pod_addresses cluster pods []) cluster.list_pods

-- isRunningMultiplePods
unfoldable pub is_running_multiple_pods : Cluster → Bool
is_running_multiple_pods cluster = elim cluster.list_pods [
  | none ↦ false
  | some pods ↦ ltb 1 (length pods)
]

-- sliceToStatus
unfoldable pub slice_to_status : (Text → Bool) → List Text → List LoadBalancerIngress
slice_to_status is_ip endpoints =
    sort_stable (λ a b. text_lt a.ip b.ip)
      (map
        (λ ep.
          if is_ip ep then record { ip = ep; hostname = [] } else record { ip = []; hostname = ep })
        endpoints)

-- lessLoadBalancerIngress
unfoldable pub less_load_balancer_ingress : LoadBalancerIngress → LoadBalancerIngress → Bool
less_load_balancer_ingress a b =
    if text_lt a.hostname b.hostname
    then true
    else if text_lt b.hostname a.hostname
    then false
    else text_lt a.ip b.ip

-- The loop of ingressSliceEqual.
pub slices_agree : List LoadBalancerIngress → List LoadBalancerIngress → Bool
slices_agree [] rhs = true
slices_agree (l ∷ lhs) [] = true
slices_agree (l ∷ lhs) (r ∷ rhs) =
    let later = slices_agree lhs rhs in
    if not (l.ip == r.ip) then false else if not (l.hostname == r.hostname) then false else later

-- ingressSliceEqual
unfoldable pub ingress_slice_equal : List LoadBalancerIngress → List LoadBalancerIngress → Bool
unfolding slices_agree
ingress_slice_equal lhs rhs =
    if not (nat_eq (length lhs) (length rhs)) then false else slices_agree lhs rhs

abbrev pub sorted : List LoadBalancerIngress → List LoadBalancerIngress
sorted = sort_stable less_load_balancer_ingress

-- The loop of updateStatus: the ingresses that are queued for an update.
unfoldable pub queued : List LoadBalancerIngress → List IngressObject → List IngressObject
queued new [] = []
queued new (ing ∷ ings) =
    let later = queued new ings in
    if ingress_slice_equal (sorted ing.load_balancer) new then later else ing ∷ later

-- The ingress client: Get by namespace and name, and UpdateStatus (was there no error?).
pub record IngressClient : Type 1 where
  pub State : Type 0
  pub get : Text → Text → State → Option IngressObject
  pub update_status : IngressObject → State → Bool × State

module _ (client : IngressClient) where
  -- runUpdate
  unfoldable pub run_update : IngressObject → List LoadBalancerIngress → client.State → client.State
  run_update ing status s = elim (client.get ing.namespace ing.name s) [
    | none ↦ s
    | some curr ↦ (client.update_status (record curr { load_balancer = status }) s).1
  ]

  pub run_updates : List IngressObject → List LoadBalancerIngress → client.State → client.State
  run_updates [] status s = s
  run_updates (ing ∷ ings) status s = run_updates ings status (run_update ing status s)

  -- updateStatus; the work units of the pool are taken in the order in which they are queued.
  unfoldable pub update_status :
      List LoadBalancerIngress → List IngressObject → client.State → client.State
  unfolding run_updates
  update_status new ings s = run_updates (queued (sorted new) ings) (sorted new) s

  module _ (in_slice : Text → List Text → Bool) (is_ip : Text → Bool) where
    -- sync: whether it returns an error, and the cluster after it.
    unfoldable pub sync :
        (shutting_down : Bool)
        → Cluster
        → Text
        → List IngressObject
        → client.State
        → Bool × client.State
    sync shutting_down cluster publish_service ings s =
        if shutting_down
        then (false, s)
        else elim (running_addresses in_slice cluster publish_service) [
          | none ↦ (true, s)
          | some addrs ↦ (false, update_status (slice_to_status is_ip addrs) ings s)
        ]

    -- Shutdown, without that of the queue.
    unfoldable pub shutdown :
        (update_status_on_shutdown : Bool)
        → Cluster
        → Text
        → List IngressObject
        → client.State
        → client.State
    shutdown update_status_on_shutdown cluster publish_service ings s =
        if not update_status_on_shutdown
        then s
        else elim (running_addresses in_slice cluster publish_service) [
          | none ↦ s
          | some addrs ↦
              if ltb 1 (length addrs)
              then s
              else if is_running_multiple_pods cluster
              then s
              else update_status [] ings s
        ]
