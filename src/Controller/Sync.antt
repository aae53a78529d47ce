-- ===== src/Controller/Sync.antt =====
-- internal/ingress/controller: syncIngress (controller.go), OnUpdate, setLeader and isLeader
-- (wls.go), and UpdateConfiguration of the HTTP handler.
pub mod Current
pub mod Sessions
mod Tests
use wls_ingress.Base.{
  ℕ, Bool, true, false, List, [], ◌∷◌, ◌++◌, Option, none, some, if◌then◌else◌, not, nat_eq,
}
use wls_ingress.Base.Text.{Text}
use wls_ingress.Base.Slices.{Slice, items}
use wls_ingress.Base.Maps.{Map}
use wls_ingress.Base.Run.{Run, ok, panic, ◌>>=◌}
use wls_ingress.Ingress.{Backend, Endpoint, IngressObject}
use wls_ingress.Config.{Configuration, ConfigurationBackend, configuration_equal}
use wls_ingress.Redis.{Client, clean}
use wls_ingress.Controller.Services.{Snapshot}
use wls_ingress.Controller.Routing.{get_configuration}

-- The fields of WLSController that a synchronisation uses; `target_config` is the handler's.
pub record Controller (client : Client) : Type 0 where
  pub running_config : Configuration
  pub target_config : Configuration
  pub current_leader : ℕ
  pub queue_shutting_down : Bool
  pub redis : client.State

-- What a range visits: the order of the hosts, and the order of the redis entries.
pub record Orders : Type 0 where
  pub hosts : Map (Option Backend) → Map (Option Backend)
  pub entries : Map Text → Map Text

-- The addresses of the endpoints; the loops of OnUpdate dereference each backend.
pub addresses : List Endpoint → List Text
addresses [] = []
addresses (ep ∷ eps) = ep.address ∷ addresses eps

pub backend_addresses : Option Backend → Run (List Text)
backend_addresses none = panic
backend_addresses (some b) = ok (addresses (items b.endpoints))

unfoldable pub live_addresses : List ConfigurationBackend → Run (List Text)
unfolding backend_addresses addresses
live_addresses [] = ok []
live_addresses (service ∷ services) = do
  here ← backend_addresses service.backend
  more ← live_addresses services
  ok (here ++ more)

module _ (client : Client) (prefix : Text) where
  -- setLeader
  unfoldable pub set_leader : Bool → Controller client → Controller client
  set_leader leader n = record n { current_leader = if leader then 1 else 0 }

  -- isLeader
  unfoldable pub is_leader : Controller client → Bool
  is_leader n = not (nat_eq n.current_leader 0)

  -- (*WLSHandler).UpdateConfiguration, seen from the controller
  update_configuration : Configuration → Controller client → Controller client
  update_configuration config n = record n { target_config = config }

  -- The branch of OnUpdate for the leader.
  clean_redis : Orders → Configuration → Controller client → Run (Controller client)
  clean_redis orders config n = do
    ips ← live_addresses (items config.services)
    ok (record n { redis = (clean client prefix orders.entries ips n.redis).1 })

  -- OnUpdate
  unfoldable pub on_update : Orders → Configuration → Controller client → Run (Controller client)
  unfolding update_configuration clean_redis is_leader
  on_update orders config n =
      let n' = update_configuration config (record n { running_config = config }) in
      if is_leader n' then clean_redis orders config n' else ok n'

  -- syncIngress after the rate limiter, with the ingresses that the store lists.
  unfoldable pub sync_ingress :
      Snapshot → Orders → List IngressObject → Controller client → Run (Controller client)
  unfolding on_update
  sync_ingress store orders ings n = if n.queue_shutting_down then ok n else (do
    generated ← get_configuration store orders.hosts ings
    if configuration_equal n.running_config generated then ok n else on_update orders generated n)
