-- ===== src/Controller/Sync/Tests.antt =====
-- A synchronisation of a leader, on the store and the objects of the samples.
use wls_ingress.Base.{true, false, [], ◌∷◌, none, some, ◌≡◌, refl, arith, inl}
use wls_ingress.Base.Text.{Text, codes, has_prefix, ◌==◌, contains_text}
use wls_ingress.Base.Maps.{lookup, insert, remove}
use wls_ingress.Base.Run.{ok}
use wls_ingress.Ingress.{Endpoint, Backend}
use wls_ingress.Config.{Configuration, ConfigurationBackend, configuration_equal}
use wls_ingress.Redis.{
  create_namespaced, create_namespaced_key, clean, get_all_entries, get_endpoint,
}
use wls_ingress.Redis.Laws.{IsLiteral}
use wls_ingress.Redis.Server.{server, listing, server-IsRedis, server-IsReliable}
use wls_ingress.Redis.Sweeping.{IsEntryOrder}
use wls_ingress.Controller.Routing.{get_configuration}
use wls_ingress.Controller.Routing.Samples.{
  store, two, same_order, same_order-IsOrder, backwards, two-HasPath,
}
use wls_ingress.Controller.Sync.{
  Controller, Orders, sync_ingress, on_update, is_leader, live_addresses,
}
use wls_ingress.Controller.Sync.Current.{sync_ingress-current}
use wls_ingress.Controller.Sync.Sessions.{Serves, on_update-sessions, on_update_keeps}
use mathlib.Core.List.Permᴰ

abbrev prefix : Text
prefix = codes "WLS-ING"

abbrev orders : Orders
orders = record { hosts = same_order; entries = λ m. m }

abbrev orders' : Orders
orders' = record { hosts = backwards; entries = λ m. m }

entries_order : IsEntryOrder (λ m. m)
entries_order m = Permᴰ.refl m

prefix-IsLiteral : IsLiteral (create_namespaced prefix)
unfolding create_namespaced
prefix-IsLiteral = omega arith

abbrev empty : Configuration
empty = record { services = none; controller_pods_count = 0 }

-- A leader that has just started; one session is of an address that is gone.
abbrev started : Controller server
started = record {
  running_config = empty;
  target_config = empty;
  current_leader = 1;
  queue_shutting_down = false;
  redis = (codes "WLS-ING:s", codes "10.0.0.1") ∷ (codes "WLS-ING:t", codes "10.9.9.9") ∷ [];
}

abbrev endpoint : Endpoint
endpoint = record { address = codes "10.0.0.1"; port = codes "7001"; target = none }

abbrev backend : Backend
backend = record { name = codes "b"; service = none; endpoints = some (endpoint ∷ []) }

abbrev one_host : ConfigurationBackend
one_host = record { backend = some backend; hostname = codes "x.org" }

abbrev config : Configuration
config = record { services = some (one_host ∷ []); controller_pods_count = 0 }

abbrev updated : Controller server
updated = record started {
  running_config = config;
  target_config = config;
  redis = (codes "WLS-ING:s", codes "10.0.0.1") ∷ [];
}

update_run : on_update server prefix orders config started ≡ ok updated
unfolding on_update clean get_all_entries get_endpoint lookup insert remove create_namespaced_key
    ◌==◌ contains_text listing has_prefix live_addresses
update_run = refl

sync_ingress-current_example :
    (n' : Controller server) × (c : Configuration) × (sync_ingress server prefix store orders two
        started
      ≡ ok n')
    × (get_configuration store orders.hosts two ≡ ok c)
    × (n'.target_config ≡ n'.running_config)
    × (configuration_equal n'.running_config c ≡ true)
    × (n'.queue_shutting_down ≡ false)
    × (n'.current_leader ≡ 1)
sync_ingress-current_example =
    sync_ingress-current server prefix store orders two started same_order-IsOrder two-HasPath refl
      refl

session_in_space : has_prefix (codes "WLS-ING:s") (create_namespaced prefix) ≡ true
unfolding has_prefix create_namespaced
session_in_space = refl

on_update-sessions_example : Serves (one_host ∷ []) (codes "10.0.0.1")
unfolding server-IsRedis is_leader lookup ◌==◌
on_update-sessions_example =
    on_update-sessions server prefix server-IsRedis prefix-IsLiteral server-IsReliable orders config
      started updated entries_order refl update_run (codes "WLS-ING:s") (codes "10.0.0.1")
      session_in_space refl

served : Serves (one_host ∷ []) (codes "10.0.0.1")
served = record {
  service = one_host;
  listed = inl refl;
  backend = backend;
  not_nil = refl;
  endpoint = endpoint;
  of_backend = inl refl;
  address = refl;
}

on_update_keeps_example : lookup (codes "WLS-ING:s") updated.redis ≡ some (codes "10.0.0.1")
unfolding server-IsRedis lookup ◌==◌
on_update_keeps_example =
    on_update_keeps server prefix server-IsRedis prefix-IsLiteral orders config started updated
      entries_order update_run (codes "WLS-ING:s") (codes "10.0.0.1") refl served
