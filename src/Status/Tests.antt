-- ===== src/Status/Tests.antt =====
-- A cluster in memory, runs of the status sync on it, and the theorems at them.
use wls_ingress.Base.{
  ◌≤◌, Bool, true, false, ◌&&◌, List, [], ◌∷◌, Option, none, some, ◌≡◌, ◌↔◌, refl, if◌then◌else◌,
  arith, In, inl, inr, length, Bool-cases,
}
use wls_ingress.Base.Text.{Text, codes, ◌==◌, ==_iff, ==_refl}
use wls_ingress.Base.Sort.{sort_stable}
use wls_ingress.Ingress.{LoadBalancerIngress, IngressObject}
use wls_ingress.Status.{
  Cluster, Pod, NodeAddress, running_addresses, is_running_multiple_pods, IngressClient,
  update_status, add_pod, shutdown, queued, ingress_slice_equal, get_node_ip_or_name, first_address,
  run_update,
}
use wls_ingress.Status.Addresses.{
  IsInSlice, IsRunning, Distinct, running_addresses-exact, shutdown_clears,
}
use wls_ingress.Status.Updates.{IsIngressClient, update_status_settles}
use mathlib.Core.List.{Permᴰ}

find_named : Text → Text → List IngressObject → Option IngressObject
find_named ns name [] = none
find_named ns name (i ∷ is) =
    let later = find_named ns name is in
    if i.namespace == ns && i.name == name then some i else later

abbrev memory : IngressClient
memory = record {
  State = List IngressObject;
  get = find_named;
  update_status = λ i s. (true, i ∷ s);
}

named :
    (ns name : Text) (s : List IngressObject) (i : IngressObject)
    → find_named ns name s ≡ some i
    → (i.namespace ≡ ns) × (i.name ≡ name)
unfolding find_named
named ns name [] i h = cc
named ns name (x ∷ s) i h =
    ground (arith, ==_iff x.namespace ns, ==_iff x.name name, named ns name s i)

memory-IsIngressClient : IsIngressClient memory
unfolding find_named
memory-IsIngressClient = record {
  get_named = named;
  update_other = λ ns name i s n. elim n [
    | inl d ↦ ground (arith, ==_iff i.namespace ns, d)
    | inr d ↦ ground (arith, ==_iff i.name name, d)
  ];
  update_done = λ i s e. ground (arith, ==_refl i.namespace, ==_refl i.name);
  update_failed = λ i s e. cc;
}

in_slice : Text → List Text → Bool
in_slice s [] = false
in_slice s (x ∷ xs) = let later = in_slice s xs in if s == x then true else later

in_slice-IsInSlice : IsInSlice in_slice
unfolding in_slice
in_slice-IsInSlice s [] = (λ h. cc, λ i. elim i [ ])
in_slice-IsInSlice s (x ∷ xs) = (
  λ h. elim (Bool-cases (s == x)) [
    | inl e ↦ inl ((==_iff s x).0 e)
    | inr e ↦ inr ((in_slice-IsInSlice s xs).0 (rw e at h))
  ],
  λ i. elim i [
    | inl e ↦ rw ((==_iff s x).1 e)
    | inr j ↦ let found = (in_slice-IsInSlice s xs).1 j in ground arith
  ],
)

abbrev node_1 : List NodeAddress
node_1 =
    record { type = codes "InternalIP"; address = codes "10.1.0.1" }
    ∷ record { type = codes "ExternalIP"; address = codes "192.0.2.1" }
    ∷ []

abbrev running : Pod
running = record { phase = codes "Running"; node_name = codes "n1" }

abbrev two_pods : List Pod
two_pods = running ∷ record { phase = codes "Pending"; node_name = codes "n2" } ∷ []

abbrev cluster : List Pod → Cluster
cluster pods = record {
  get_service = λ ns name. none;
  list_pods = some pods;
  get_node = λ name. some node_1;
}

abbrev site : IngressObject
site = record {
  namespace = codes "default";
  name = codes "site";
  annotations = [];
  creation = 0;
  rules = [];
  load_balancer = record { ip = codes "192.0.2.1"; hostname = [] } ∷ [];
}

abbrev new : List LoadBalancerIngress
new =
    record { ip = codes "192.0.2.7"; hostname = [] }
    ∷ record { ip = []; hostname = codes "a.b" }
    ∷ []

addresses_run : running_addresses in_slice (cluster two_pods) [] ≡ some (codes "192.0.2.1" ∷ [])
unfolding running_addresses ◌==◌ get_node_ip_or_name first_address in_slice add_pod
addresses_run = refl

running_addresses-exact_example :
    (addrs : List Text) × (running_addresses in_slice (cluster two_pods) [] ≡ some addrs)
    × Distinct addrs
    × ((a : Text) → In a addrs ↔ IsRunning (cluster two_pods) two_pods a)
running_addresses-exact_example =
    running_addresses-exact in_slice in_slice-IsInSlice (cluster two_pods) two_pods refl

update_status_settles_example :
    (i : IngressObject) × (find_named
        (codes "default")
        (codes "site")
        (update_status memory new (site ∷ []) (site ∷ []))
      ≡ some i)
    × Permᴰ i.load_balancer new
unfolding find_named ◌==◌
update_status_settles_example =
    update_status_settles memory memory-IsIngressClient (λ i s. refl) new (site ∷ []) (site ∷ [])
      (λ ing i. elim i [ inl e ↦ (site, rw e refl, rw e refl) | inr j ↦ absurd j ]) site (inl refl)

cleared :
    shutdown memory in_slice (λ t. true) true (cluster (running ∷ [])) [] (site ∷ []) (site ∷ [])
    ≡ record site { load_balancer = [] } ∷ site ∷ []
unfolding shutdown running_addresses ◌==◌ get_node_ip_or_name first_address in_slice
    is_running_multiple_pods update_status sort_stable queued ingress_slice_equal run_update
    find_named add_pod
cleared = refl

shutdown_clears_example :
    (true ≡ true)
    × ((addrs : List Text) × (running_addresses in_slice (cluster (running ∷ [])) [] ≡ some addrs)
        × length addrs ≤ 1)
    × (is_running_multiple_pods (cluster (running ∷ [])) ≡ false)
    × (shutdown memory in_slice (λ t. true) true (cluster (running ∷ [])) [] (site ∷ []) (site ∷ [])
        ≡ update_status memory [] (site ∷ []) (site ∷ []))
shutdown_clears_example =
    shutdown_clears memory in_slice (λ t. true) true (cluster (running ∷ [])) [] (site ∷ [])
      (site ∷ []) (λ e. cc (cleared, e))
