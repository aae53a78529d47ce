-- ===== src/Controller/Routing/Samples.antt =====
-- Two ingresses with two hosts, and a store with their service, for the examples.
use wls_ingress.Base.{false, List, [], ◌∷◌, Option, none, some, refl, All}
use wls_ingress.Base.Text.{Text, codes}
use wls_ingress.Base.Int.{pos}
use wls_ingress.Base.Maps.{Map}
use wls_ingress.Ingress.{
  Service, cluster_ip, ServicePort, IntOrString, Endpoints, Backend, IngressRule, IngressObject,
}
use wls_ingress.Controller.Endpoints.{Resolver}
use wls_ingress.Controller.Services.{Snapshot}
use wls_ingress.Controller.Routing.{first_backend}
use wls_ingress.Controller.Routing.Flat.{all_rules}
use wls_ingress.Controller.Routing.Upstreams.{HasPath}
use wls_ingress.Controller.Routing.Served.{IsOrder}
use mathlib.Core.List.{reverse}
use mathlib.Core.List.Permᴰ

abbrev pub http_port : IntOrString
http_port = record { text = codes "7001"; int_value = pos 7001 }

abbrev pub service_port : ServicePort
service_port = record { name = []; port = pos 7001; target_port = http_port }

abbrev pub app : Service
app = record {
  namespace = codes "a";
  name = codes "app";
  type = cluster_ip;
  external = [];
  ports = service_port ∷ [];
}

-- One subset with an address that stands in it twice.
abbrev pub app_endpoints : Endpoints
app_endpoints = record {
  subsets =
      record {
        addresses =
            record { ip = codes "10.0.0.1"; target_ref = none }
            ∷ record { ip = codes "10.0.0.1"; target_ref = none }
            ∷ record { ip = codes "fd00::1"; target_ref = none }
            ∷ [];
        ports = record { name = []; port = pos 7001; protocol = codes "TCP" } ∷ [];
      }
      ∷ [];
}

abbrev pub no_names : Resolver
no_names = record { is_ip = λ _. false; resolves = λ _. false }

abbrev pub store : Snapshot
store = record {
  net = no_names;
  get_service = λ k. some app;
  get_service_endpoints = λ k. some app_endpoints;
  meta_key = λ s. s.name;
  from_string = λ t. record { text = t; int_value = pos 0 };
}

abbrev pub ingress : Text → Text → Text → IngressObject
ingress ns service host = record {
  namespace = ns;
  name = codes "ing";
  annotations = [];
  creation = 0;
  rules =
      record {
        host = host;
        http = some (
            record {
              path = codes "/";
              backend = record { service_name = service; service_port = http_port };
            }
            ∷ []);
      }
      ∷ [];
  load_balancer = [];
}

-- The upstreams of the two have the name "a-b-c-7001".
abbrev pub two : List IngressObject
two =
    ingress (codes "a-b") (codes "c") (codes "x.org")
    ∷ ingress (codes "a") (codes "b-c") (codes "y.org")
    ∷ []

abbrev pub same_order : Map (Option Backend) → Map (Option Backend)
same_order m = m

pub same_order-IsOrder : IsOrder same_order
same_order-IsOrder m = Permᴰ.refl m

pub two-HasPath : All HasPath (all_rules two)
unfolding first_backend
two-HasPath = (
  (record { service_name = codes "c"; service_port = http_port }, refl),
  ((record { service_name = codes "b-c"; service_port = http_port }, refl), tt),
)

abbrev pub backwards : Map (Option Backend) → Map (Option Backend)
backwards m = reverse m

pub backwards-IsOrder : IsOrder backwards
backwards-IsOrder m = Permᴰ.reverse m

abbrev pub rule_of : Text → Text → IngressRule
rule_of service host = record {
  host = host;
  http = some (
      record {
        path = codes "/";
        backend = record { service_name = service; service_port = http_port };
      }
      ∷ []);
}
