-- ===== src/Controller/Sync/Current.antt =====
-- After a synchronisation the handler serves the configuration of the store.
use wls_ingress.Base.{true, false, List, [], ◌∷◌, ◌++◌, some, ◌≡◌}
use wls_ingress.Base.{refl, sym, ◌∙◌, arith, inl, inr, Bool-cases, All, All_of_In}
use wls_ingress.Base.Text.{Text}
use wls_ingress.Base.Slices.{items}
use wls_ingress.Base.Run.{ok}
use wls_ingress.Ingress.{Backend, IngressObject}
use wls_ingress.Config.{Configuration, ConfigurationBackend, configuration_equal}
use wls_ingress.Config.Equality.{configuration_equal-IsEquivalence}
use wls_ingress.Redis.{Client, clean}
use wls_ingress.Controller.Services.{Snapshot}
use wls_ingress.Controller.Routing.{get_configuration, upstream}
use wls_ingress.Controller.Routing.Flat.{all_rules}
use wls_ingress.Controller.Routing.Upstreams.{HasPath}
use wls_ingress.Controller.Routing.Served.{IsOrder, get_configuration-Routed}
use wls_ingress.Controller.Sync.{
  Controller, Orders, sync_ingress, on_update, clean_redis, is_leader, live_addresses, addresses,
}

-- No backend is nil.
abbrev pub HasBackends : List ConfigurationBackend → Type 0
HasBackends = All (λ s. (b : Backend) × (s.backend ≡ some b))

pub live_addresses_run :
    (ss : List ConfigurationBackend)
    → HasBackends ss
    → (ips : List Text) × (live_addresses ss ≡ ok ips)
unfolding live_addresses
live_addresses_run [] h = ([], refl)
live_addresses_run (s ∷ ss) ((b, e), h) =
    let (more, f) = live_addresses_run ss h in (addresses (items b.endpoints) ++ more, ground arith)

module _ (client : Client) (prefix : Text) where
  on_update_runs :
      (orders : Orders) (config : Configuration) (n : Controller client)
      → HasBackends (items config.services)
      → (n' : Controller client) × (on_update client prefix orders config n ≡ ok n')
        × (n'.running_config ≡ config)
        × (n'.target_config ≡ config)
        × (n'.queue_shutting_down ≡ n.queue_shutting_down)
        × (n'.current_leader ≡ n.current_leader)
  unfolding on_update clean_redis
  on_update_runs orders config n h =
      let (ips, e) = live_addresses_run (items config.services) h in
      elim (Bool-cases (is_leader client prefix n)) [
        | inl lead ↦ (
          record n {
            running_config = config;
            target_config = config;
            redis = (clean client prefix orders.entries ips n.redis).1;
          },
          ground arith,
          refl,
          refl,
          refl,
          refl,
        )
        | inr follow ↦ (
          record n { running_config = config; target_config = config },
          ground arith,
          refl,
          refl,
          refl,
          refl,
        )
      ]

  -- If the queue is not shutting down, the handler has the controller's running configuration and
  -- every rule has an HTTP path, then syncIngress ends without a panic. Afterwards the handler
  -- still has the running configuration, which Equal takes for the one generated from the store,
  -- and the leadership is as before.
  pub sync_ingress-current :
      (store : Snapshot) (orders : Orders) (ings : List IngressObject) (n : Controller client)
      → IsOrder orders.hosts
      → All HasPath (all_rules ings)
      → n.queue_shutting_down ≡ false
      → n.target_config ≡ n.running_config
      → (n' : Controller client) × (c : Configuration) × (sync_ingress client prefix store orders
            ings n
          ≡ ok n')
        × (get_configuration store orders.hosts ings ≡ ok c)
        × (n'.target_config ≡ n'.running_config)
        × (configuration_equal n'.running_config c ≡ true)
        × (n'.queue_shutting_down ≡ false)
        × (n'.current_leader ≡ n.current_leader)
  unfolding sync_ingress
  sync_ingress-current store orders ings n o h quiet coherent =
      let (c, e, exact) = get_configuration-Routed store orders.hosts ings o h in
      elim (Bool-cases (configuration_equal n.running_config c)) [
        | inl same ↦ (n, c, ground arith, e, coherent, same, quiet, refl)
        | inr new ↦
            let backends =
              All_of_In (λ s. (b : Backend) × (s.backend ≡ some b)) (items c.services)
                (λ s i.
                  let r = (exact s).0 i in (upstream store r.winner.0 r.winner.1, r.backend)) in
            let (n', f, run, target, q, l) = on_update_runs orders c n backends in
            (
              n',
              c,
              ground arith,
              e,
              target ∙ sym run,
              rw run (configuration_equal-IsEquivalence.reflexive c),
              q ∙ quiet,
              l,
            )
      ]
