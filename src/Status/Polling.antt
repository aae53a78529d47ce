-- ===== src/Status/Polling.antt =====
-- internal/ingress/status/status.go: the poll of Run, with which the leader removes old sessions.
pub mod Sessions
mod Tests
use wls_ingress.Base.{List, [], ◌∷◌, ◌++◌, Option, none, some, map}
use wls_ingress.Base.Text.{Text}
use wls_ingress.Base.Maps.{Map}
use wls_ingress.Base.Run.{Run, ok, panic, ◌>>=◌}
use wls_ingress.Ingress.{IngressObject, IngressRule, EndpointSubset, Endpoints}
use wls_ingress.Redis.{Client, clean}
use wls_ingress.Controller.Routing.{first_backend, service_key}

-- The two inner loops of getActiveEndpoints.
pub addresses_of : List EndpointSubset → List Text
addresses_of [] = []
addresses_of (subset ∷ subsets) = map (λ a. a.ip) subset.addresses ++ addresses_of subsets

-- The endpoints, returned with an error or without one.
pub data Active : Type 0 where
  with_error : List Text → Active
  complete : List Text → Active

module _ (get_service_endpoints : Text → Option Endpoints) where
  -- One round of the loop over the rules of an ingress.
  pub rule_active : Text → IngressRule → List Text → Run Active
  rule_active namespace rule endpoints = do
    b ← first_backend rule
    elim (get_service_endpoints (service_key namespace b.service_name)) [
      | none ↦ ok (with_error endpoints)
      | some eps ↦ ok (complete (endpoints ++ addresses_of eps.subsets))
    ]

  pub active_rules : Text → List IngressRule → List Text → Run Active
  active_rules namespace [] endpoints = ok (complete endpoints)
  active_rules namespace (rule ∷ rules) endpoints = do
    r ← rule_active namespace rule endpoints
    elim r [ with_error e ↦ ok (with_error e) | complete e ↦ active_rules namespace rules e ]

  pub active_from : List IngressObject → List Text → Run Active
  active_from [] endpoints = ok (complete endpoints)
  active_from (ing ∷ ings) endpoints = do
    r ← active_rules ing.namespace ing.rules endpoints
    elim r [ with_error e ↦ ok (with_error e) | complete e ↦ active_from ings e ]

  -- getActiveEndpoints
  unfoldable pub get_active_endpoints : List IngressObject → Run Active
  unfolding active_from
  get_active_endpoints ings = active_from ings []

  module _ (client : Client) (prefix : Text) (order : Map Text → Map Text) where
    -- The redis part of the function that Run polls.
    unfoldable pub poll : List IngressObject → client.State → Run client.State
    poll ings s = do
      active ← get_active_endpoints ings
      elim active [
        | with_error e ↦ ok s
        | complete endpoints ↦ ok (clean client prefix order endpoints s).1
      ]
