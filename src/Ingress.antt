-- ===== src/Ingress.antt =====
-- internal/ingress/types.go, internal/ingress/types_equals.go and the Kubernetes objects, as far
-- as the program reads them. A pointer is an `Option`: where the source first compares two
-- pointers and then what they point to, a shared pointer is a shared value, so the second
-- comparison alone gives the same result.
pub mod Equality
use wls_ingress.Base.{Bool, true, false, List, Option, none, some, if◌then◌else◌, not, ◌≡◌, refl}
use wls_ingress.Base.Text.{Text, ◌==◌}
use wls_ingress.Base.Int.{ℤ}
use wls_ingress.Base.Slices.{Slice}
use wls_ingress.Base.Maps.{Map}
use wls_ingress.Base.{ℕ}
use wls_ingress.Sets.{compare}

-- corev1.ObjectReference
pub record ObjectReference : Type 0 where
  pub uid : Text
  pub resource_version : Text

-- intstr.IntOrString, by what its String() and IntValue() return.
pub record IntOrString : Type 0 where
  pub text : Text
  pub int_value : ℤ

-- corev1.ServicePort
pub record ServicePort : Type 0 where
  pub name : Text
  pub port : ℤ
  pub target_port : IntOrString

-- corev1.Service; `cluster_ip` and `external_name` tell the two values of Spec.Type apart that the
-- program distinguishes.
pub data ServiceType : Type 0 where
  cluster_ip external_name : ServiceType

pub record Service : Type 0 where
  pub namespace : Text
  pub name : Text
  pub type : ServiceType
  pub external : Text
  pub ports : List ServicePort

pub record Endpoint : Type 0 where
  pub address : Text
  pub port : Text
  pub target : Option ObjectReference

pub record Backend : Type 0 where
  pub name : Text
  pub service : Option Service
  pub endpoints : Slice Endpoint

-- The part of (*Endpoint).Equal that compares the targets.
target_equal : Option ObjectReference → Option ObjectReference → Bool
target_equal none none = true
target_equal none (some t2) = false
target_equal (some t1) none = false
target_equal (some t1) (some t2) =
    if not (t1.uid == t2.uid)
    then false
    else if not (t1.resource_version == t2.resource_version)
    then false
    else true

-- (*Endpoint).Equal, on endpoints that are not nil: `compareEndpointsFunc` passes no others.
unfoldable pub endpoint_equal : Endpoint → Endpoint → Bool
unfolding target_equal
endpoint_equal e1 e2 =
    if not (e1.address == e2.address)
    then false
    else if not (e1.port == e2.port)
    then false
    else if not (target_equal e1.target e2.target)
    then false
    else true

-- compareEndpoints, with compareEndpointsFunc
unfoldable pub compare_endpoints : Slice Endpoint → Slice Endpoint → Bool
compare_endpoints a b = compare endpoint_equal a b

-- The part of (*Backend).Equal that compares the services.
service_equal : Option Service → Option Service → Bool
service_equal none none = true
service_equal none (some s2) = false
service_equal (some s1) none = false
service_equal (some s1) (some s2) =
    if not (s1.namespace == s2.namespace)
    then false
    else if not (s1.name == s2.name)
    then false
    else true

-- (*Backend).Equal
unfoldable pub backend_equal : Option Backend → Option Backend → Bool
unfolding service_equal compare_endpoints
backend_equal none none = true
backend_equal none (some b2) = false
backend_equal (some b1) none = false
backend_equal (some b1) (some b2) =
    if not (b1.name == b2.name)
    then false
    else if not (service_equal b1.service b2.service)
    then false
    else if not (compare_endpoints b1.endpoints b2.endpoints)
    then false
    else true

-- networkingv1beta1.IngressBackend
pub record IngressBackend : Type 0 where
  pub service_name : Text
  pub service_port : IntOrString

-- networkingv1beta1.HTTPIngressPath
pub record HttpIngressPath : Type 0 where
  pub path : Text
  pub backend : IngressBackend

-- networkingv1beta1.IngressRule; `http` may be nil.
pub record IngressRule : Type 0 where
  pub host : Text
  pub http : Option (List HttpIngressPath)

-- corev1.LoadBalancerIngress
pub record LoadBalancerIngress : Type 0 where
  pub ip : Text
  pub hostname : Text

-- networkingv1beta1.Ingress; the creation time in seconds.
pub record IngressObject : Type 0 where
  pub namespace : Text
  pub name : Text
  pub annotations : Map Text
  pub creation : ℕ
  pub rules : List IngressRule
  pub load_balancer : List LoadBalancerIngress

-- corev1.Endpoints
pub record EndpointAddress : Type 0 where
  pub ip : Text
  pub target_ref : Option ObjectReference

pub record EndpointPort : Type 0 where
  pub name : Text
  pub port : ℤ
  pub protocol : Text

pub record EndpointSubset : Type 0 where
  pub addresses : List EndpointAddress
  pub ports : List EndpointPort

pub record Endpoints : Type 0 where
  pub subsets : List EndpointSubset
