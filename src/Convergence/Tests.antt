-- ===== src/Convergence/Tests.antt =====
-- The theorems at the examples of Samples.antt.
use wls_ingress.Base.{◌-◌, true, [], ◌≡◌, ◌≢◌, ◌↔◌, refl}
use wls_ingress.Base.Text.{Text, codes}
use wls_ingress.Base.Maps.{lookup}
use wls_ingress.Base.Run.{ok}
use wls_ingress.Redis.Server.{server}
use wls_ingress.Store.{Store}
use wls_ingress.Store.Memory.{key, memory, memory-IsCache, memory_listed}
use wls_ingress.Controller.Routing.Samples.{store, same_order-IsOrder}
use wls_ingress.Controller.Sync.{Controller, sync_ingress}
use wls_ingress.Convergence.Hosts.{Serves}
use wls_ingress.Convergence.History.{handle_all}
use wls_ingress.Task.{element, enqueue, on_taken, begin_round, finish_round}
use wls_ingress.Task.Memory.{take_first, memory-IsWorkQueue, empty}
use wls_ingress.Task.Memory as Task_Memory
use wls_ingress.Convergence.Running.{begun}
use wls_ingress.Convergence.Accounting.{Reflects}
use wls_ingress.Convergence.Quiescence.{Reached-Reflects}
use wls_ingress.Handler.{Request, Handler, Outside, no_cookie}
use wls_ingress.Convergence.Chosen.{Chosen}
use wls_ingress.Convergence.Reflects.{Wanted, listed_objects, handle_all-Serves}
use wls_ingress.Convergence.Samples.{
  wls, one, changes, one-IsHistory, one-HasPaths, fresh, orders, present, at_rest, at_rest_reached,
  nothing_queued,
}

handle_all-Serves_example :
    (s : Store memory wls) × (n' : Controller server) × (handle_all memory wls changes
        (record { ingresses = []; update_ch = [] })
      ≡ ok s)
    × (sync_ingress server
          (codes "WLS-ING")
          store
          orders
          (listed_objects memory wls key memory-IsCache memory_listed s)
          fresh
        ≡ ok n')
    × ((h : Text)
        → Serves n'.target_config h
          ↔ ((h ≢ []) × Wanted memory wls key memory-IsCache memory_listed one h))
unfolding lookup
handle_all-Serves_example =
    handle_all-Serves memory wls key memory-IsCache memory_listed server (codes "WLS-ING") store
      orders [] changes one fresh (λ k. refl) one-IsHistory one-HasPaths same_order-IsOrder refl
      refl

Reached-Reflects_example :
    (at_rest.controller.target_config ≡ at_rest.controller.running_config)
    × Reflects server wls present at_rest.controller.running_config
unfolding begun begin_round on_taken finish_round element enqueue take_first
Reached-Reflects_example =
    Reached-Reflects server wls Task_Memory.memory memory-IsWorkQueue at_rest at_rest_reached refl
      refl nothing_queued

-- The first request after it.
abbrev request : Request
request = record {
  host = codes "x.org:80";
  method = codes "GET";
  request_uri = codes "/";
  cookie = no_cookie;
}

-- Every URL parses, Intn takes the last index, the upstream answers with one session.
abbrev out : Outside
out = record {
  url_parses = λ url. true;
  intn = λ n. n - 1;
  set_cookie = λ url r. codes "JSESSIONID=s1; Path=/";
}

abbrev handler : Handler server
handler = record { target_config = at_rest.controller.target_config; proxy_map = []; redis = [] }
