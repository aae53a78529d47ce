-- ===== src/Status/Polling/Tests.antt =====
-- A poll with one session of a live endpoint and one of a dead one, and the theorem at it.
use wls_ingress.Base.{true, List, [], ◌∷◌, Option, none, some, ◌≡◌, refl, arith}
use wls_ingress.Base.Text.{Text, codes, contains_text, has_prefix, ◌==◌}
use wls_ingress.Base.Maps.{Map, lookup, insert, remove}
use wls_ingress.Base.Run.{ok}
use wls_ingress.Base.Int.{pos}
use wls_ingress.Ingress.{IngressObject, Endpoints}
use wls_ingress.Redis.{
  clean, get_all_entries, get_endpoint, create_namespaced, create_namespaced_key,
}
use wls_ingress.Redis.Server.{server, listing, server-IsRedis}
use wls_ingress.Redis.Laws.{IsReliable, IsLiteral}
use wls_ingress.Redis.Sweeping.{IsEntryOrder}
use wls_ingress.Controller.Routing.{first_backend}
use wls_ingress.Status.Polling.{
  poll, get_active_endpoints, complete, active_rules, rule_active, addresses_of, active_from,
}
use wls_ingress.Status.Polling.Sessions.{Offered, poll-sessions}
use mathlib.Core.List.Permᴰ

abbrev prefix : Text
prefix = codes "WLS-ING"

abbrev in_order : Map Text → Map Text
in_order m = m

in_order-IsEntryOrder : IsEntryOrder in_order
in_order-IsEntryOrder m = Permᴰ.refl m

prefix-IsLiteral : IsLiteral (create_namespaced prefix)
unfolding create_namespaced
prefix-IsLiteral = omega arith

abbrev endpoints : Text → Option Endpoints
endpoints key = some (record {
  subsets =
      record { addresses = record { ip = codes "10.0.0.2"; target_ref = none } ∷ []; ports = [] }
      ∷ [];
})

abbrev site : IngressObject
site = record {
  namespace = codes "default";
  name = codes "site";
  annotations = [];
  creation = 0;
  rules =
      record {
        host = codes "a.b";
        http = some (
            record {
              path = codes "/";
              backend = record {
                service_name = codes "app";
                service_port = record { text = codes "80"; int_value = pos 80 };
              };
            }
            ∷ []);
      }
      ∷ [];
  load_balancer = [];
}

abbrev before : Map Text
before = (codes "WLS-ING:abc", codes "10.0.0.1") ∷ (codes "WLS-ING:def", codes "10.0.0.2") ∷ []

abbrev afterwards : Map Text
afterwards = (codes "WLS-ING:def", codes "10.0.0.2") ∷ []

poll_run : poll endpoints server prefix in_order (site ∷ []) before ≡ ok afterwards
unfolding poll get_active_endpoints clean get_all_entries get_endpoint lookup insert remove
    create_namespaced_key ◌==◌ contains_text listing has_prefix first_backend active_rules
    rule_active addresses_of active_from
poll_run = refl

poll-sessions_example :
    (lookup (codes "WLS-ING:def") before ≡ some (codes "10.0.0.2")
      → Offered endpoints (site ∷ []) (codes "10.0.0.2")
      → lookup (codes "WLS-ING:def") afterwards ≡ some (codes "10.0.0.2"))
    × (IsReliable server
        → (addrs : List Text) × (get_active_endpoints endpoints (site ∷ []) ≡ ok (complete addrs))
        → has_prefix (codes "WLS-ING:def") (create_namespaced prefix) ≡ true
        → lookup (codes "WLS-ING:def") afterwards ≡ some (codes "10.0.0.2")
        → Offered endpoints (site ∷ []) (codes "10.0.0.2"))
unfolding server-IsRedis
poll-sessions_example =
    poll-sessions server server-IsRedis prefix in_order prefix-IsLiteral in_order-IsEntryOrder
      endpoints (site ∷ []) before afterwards poll_run (codes "WLS-ING:def") (codes "10.0.0.2")
