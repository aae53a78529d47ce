-- ===== src/Handler/Tests.antt =====
-- Requests to a handler with one host, and the theorems at them.
use wls_ingress.Base.{◌-◌, true, [], ◌∷◌, none, some, ◌≡◌, refl, arith, inl}
use wls_ingress.Base.Text.{Text, codes, ◌==◌, contains_text, has_prefix, split, cut, first_part}
use wls_ingress.Base.Maps.{lookup, insert}
use wls_ingress.Base.Run.{ok, panic}
use wls_ingress.Ingress.{Endpoint, Backend}
use wls_ingress.Config.{Configuration}
use wls_ingress.Redis.{add_cookie, create_namespaced_key}
use wls_ingress.Redis.Server.{server, server-IsRedis, server-IsReliable}
use wls_ingress.Handler.{
  Request, Response, Handler, Outside, session, no_cookie, handle_root, get_host,
  get_host_endpoints, is_class_lookup, session_id,
}
use wls_ingress.Handler.Total.{IsIntn, handle_root_runs, handle_root_panics}
use wls_ingress.Handler.Sticky.{handle_root-sticky, only_forwarded}
use wls_ingress.Handler.Proxies.{IsProxyMap, Reaches}
use wls_ingress.Base.{In}
use wls_ingress.Handler.{endpoint_url}
use wls_ingress.Handler.Replicas.{handle_root-replicas}
use wls_ingress.Handler.Proxies.Reaching.{Target, handle_root-Reaches}

abbrev prefix : Text
prefix = codes "WLS-ING"

-- Every URL parses, Intn takes the last index, the upstream answers with one session.
abbrev out : Outside
out = record {
  url_parses = λ url. true;
  intn = λ n. n - 1;
  set_cookie = λ url r. codes "JSESSIONID=s1; Path=/";
}

abbrev endpoint_1 : Endpoint
endpoint_1 = record { address = codes "10.0.0.1"; port = codes "8001"; target = none }

abbrev endpoint_2 : Endpoint
endpoint_2 = record { address = codes "10.0.0.2"; port = codes "8002"; target = none }

abbrev backend : Backend
backend = record {
  name = codes "b";
  service = none;
  endpoints = some (endpoint_1 ∷ endpoint_2 ∷ []);
}

abbrev config : Configuration
config = record {
  services = some (record { backend = some backend; hostname = codes "a.b" } ∷ []);
  controller_pods_count = 1;
}

abbrev started : Handler server
started = record { target_config = config; proxy_map = []; redis = [] }

abbrev first_request : Request
first_request = record {
  host = codes "a.b:80";
  method = codes "GET";
  request_uri = codes "/";
  cookie = no_cookie;
}

abbrev next_request : Request
next_request = record first_request { cookie = session (codes "s1") }

abbrev class_request : Request
class_request = record first_request {
  host = codes "c.d";
  request_uri = codes "/bea_wls_internal/classeskkkkkkk/x";
}

abbrev after_first : Handler server
after_first = record {
  target_config = config;
  proxy_map = (codes "10.0.0.2", codes "http://10.0.0.2:8002") ∷ [];
  redis = (codes "WLS-ING:s1", codes "10.0.0.2") ∷ [];
}

index_below : IsIntn (λ n. n - 1)
index_below n h = omega arith

first_run :
    handle_root out server prefix first_request started
    ≡ ok (only_forwarded (codes "http://10.0.0.2:8002"), after_first)
unfolding handle_root get_host get_host_endpoints first_part split cut ◌==◌ has_prefix contains_text
    session_id lookup insert add_cookie create_namespaced_key
first_run = refl

handle_root_runs_example :
    (x : Response × Handler server) × (handle_root out server prefix first_request started ≡ ok x)
unfolding is_class_lookup has_prefix ◌==◌
handle_root_runs_example =
    handle_root_runs out server prefix first_request started index_below ((backend, refl), tt) refl

abbrev nobody : Handler server
nobody = record {
  target_config = record { services = none; controller_pods_count = 1 };
  proxy_map = [];
  redis = [];
}

handle_root_panics_example : handle_root out server prefix class_request nobody ≡ panic
unfolding is_class_lookup has_prefix ◌==◌ get_host first_part split cut get_host_endpoints
handle_root_panics_example =
    handle_root_panics out server prefix class_request nobody (λ e. cc) refl refl (inl refl)

handle_root-sticky_example :
    (h : Handler server) × (handle_root out server prefix next_request after_first
      ≡ ok (only_forwarded (codes "http://10.0.0.2:8002"), h))
unfolding get_host first_part split cut ◌==◌ has_prefix get_host_endpoints session_id
handle_root-sticky_example =
    handle_root-sticky out server prefix server-IsRedis server-IsReliable first_request next_request
      started after_first (codes "http://10.0.0.2:8002") (codes "s1") endpoint_1 endpoint_1
      (endpoint_2 ∷ []) (endpoint_2 ∷ []) (λ e. cc) refl ((λ e. cc), ((λ e. cc), tt)) refl first_run
      refl (λ e. cc) refl refl

started-IsProxyMap : IsProxyMap []
unfolding lookup
started-IsProxyMap address url e = cc

handle_root-Reaches_example :
    Reaches
      (Target out server prefix first_request started)
      (only_forwarded (codes "http://10.0.0.2:8002"), after_first)
handle_root-Reaches_example =
    handle_root-Reaches out server prefix first_request started
      (only_forwarded (codes "http://10.0.0.2:8002"), after_first) started-IsProxyMap first_run

-- The second replica sends the session of 10.0.0.2:8002 to 10.0.0.2:7001.
handle_root-replicas_example :
    (f : Endpoint) × (g : Handler server) × In f (endpoint_1 ∷ endpoint_2 ∷ [])
    × (codes "http://10.0.0.2:8002" ≡ endpoint_url f.address f.port)
    × (handle_root out server prefix next_request (record started { redis = after_first.redis })
        ≡ ok (only_forwarded (endpoint_url f.address (codes "7001")), g))
unfolding get_host first_part split cut ◌==◌ has_prefix get_host_endpoints session_id
handle_root-replicas_example =
    handle_root-replicas out server prefix server-IsRedis server-IsReliable first_request
      next_request started after_first (record started { redis = after_first.redis })
      (codes "http://10.0.0.2:8002") (codes "s1") endpoint_1 endpoint_1 (endpoint_2 ∷ [])
      (endpoint_2 ∷ []) (λ u. refl) refl refl (λ e. cc) refl ((λ e. cc), ((λ e. cc), tt)) refl
      first_run refl (λ e. cc) refl refl
