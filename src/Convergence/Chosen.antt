-- ===== src/Convergence/Chosen.antt =====
-- The endpoints that the objects give a host, and those of a configuration that reflects them.
use wls_ingress.Base.{
  true, List, [], ◌∷◌, none, some, ◌≡◌, ◌≢◌, ◌↔◌, refl, sym, ◌∙◌, subst, inl, inr, All_of_In,
  Option-cases, In,
}
use wls_ingress.Base.Text.{Text}
use wls_ingress.Base.Slices.{Slice, items}
use wls_ingress.Base.Run.{ok}
use wls_ingress.Ingress.{
  Backend, Endpoint, IngressBackend, backend_equal, compare_endpoints, endpoint_equal,
}
use wls_ingress.Ingress.Equality.{
  backend_equal-IsEquivalence, backend_endpoints, endpoint_equal_iff, endpoint_equal-IsEquivalence,
}
use wls_ingress.Sets.Members.{compare-member}
use wls_ingress.Config.{Configuration, ConfigurationBackend, configuration_equal}
use wls_ingress.Config.Equality.{configuration_equal-IsEquivalence}
use wls_ingress.Redis.{Client}
use wls_ingress.Controller.Routing.{upstream}
use wls_ingress.Controller.Routing.Flat.{all_rules}
use wls_ingress.Controller.Routing.Upstreams.{last_for}
use wls_ingress.Controller.Routing.Servers.{first_for}
use wls_ingress.Controller.Routing.Served.{
  Routed, get_configuration-ok_iff, get_configuration-Routed,
}
use wls_ingress.Handler.{get_host_endpoints}
use wls_ingress.Handler.Hosts.{get_host_endpoints_from, get_host_endpoints_found}
use wls_ingress.Controller.Sync.Current.{HasBackends}
use wls_ingress.Convergence.Hosts.{equal-member}
use wls_ingress.Convergence.Running.{Objects}
use wls_ingress.Convergence.Accounting.{Reflects}
use mathlib.Core.List.Permᴰ

-- The address is of an endpoint that the objects give the host: of the service of the last rule
-- whose upstream has the name that the first rule for the host asks for.
pub record Chosen (o : Objects) (host address : Text) : Type 0 where
  pub name : Text
  pub first : first_for host (all_rules o.ingresses) ≡ some name
  pub winner : Text × IngressBackend
  pub last : last_for name (all_rules o.ingresses) ≡ some winner
  pub endpoint : Endpoint
  pub of_service : In endpoint (items (upstream o.services winner.0 winner.1).endpoints)
  pub same_address : address ≡ endpoint.address

-- An endpoint of the one backend has the address of an endpoint of the other.
equal_address :
    (b b' : Backend) (e : Endpoint)
    → backend_equal (some b) (some b') ≡ true
    → In e (items b.endpoints)
    → (f : Endpoint) × In f (items b'.endpoints) × (e.address ≡ f.address)
unfolding compare_endpoints
equal_address b b' e same i =
    let c = backend_endpoints b b' same in
    let (f, j, g) =
      compare-member endpoint_equal endpoint_equal-IsEquivalence b.endpoints b'.endpoints e c i in
    (f, j, ((endpoint_equal_iff e f).0 g).address)

some_of_In :
    (es : Slice Endpoint) (f : Endpoint)
    → In f (items es)
    → (e : Endpoint) × (rest : List Endpoint) × (es ≡ some (e ∷ rest))
some_of_In none f i = elim i [ ]
some_of_In (some []) f i = elim i [ ]
some_of_In (some (e ∷ rest)) f i = (e, rest, refl)

module _ (client : Client) (prefix : Text) where
  -- What a configuration reflects: it counts as one whose services are those to be given.
  Reflects-generated :
      (o : Objects) (config : Configuration)
      → Reflects client prefix o config
      → (c : Configuration) × (configuration_equal config c ≡ true)
        × ((s : ConfigurationBackend)
            → In s (items c.services) ↔ Routed o.services (all_rules o.ingresses) s)
  Reflects-generated o config reflects =
      let (c, g, same) =
        reflects (record { hosts = λ m. m; entries = λ m. m }) (λ m. Permᴰ.refl m) in
      let paths = (get_configuration-ok_iff o.services (λ m. m) o.ingresses).0 (c, g) in
      let (d, k, exact) =
        get_configuration-Routed o.services (λ m. m) o.ingresses (λ m. Permᴰ.refl m) paths in
      let one : c ≡ d = cc in
      (d, subst (λ (x : Configuration). configuration_equal config x ≡ true) one same, exact)

  -- A service of a configuration that reflects the objects is one that they are to give.
  Reflects-Routed :
      (o : Objects) (config : Configuration) (s : ConfigurationBackend)
      → Reflects client prefix o config
      → In s (items config.services)
      → (t : ConfigurationBackend) × Routed o.services (all_rules o.ingresses) t
        × (s.hostname ≡ t.hostname)
        × (backend_equal s.backend t.backend ≡ true)
  Reflects-Routed o config s reflects i =
      let (c, same, exact) = Reflects-generated o config reflects in
      let (t, l, hosts, backs) = equal-member config c s same i in (t, (exact t).0 l, hosts, backs)

  pub Reflects-HasBackends :
      (o : Objects) (config : Configuration)
      → Reflects client prefix o config
      → HasBackends (items config.services)
  Reflects-HasBackends o config reflects =
      All_of_In (λ (s : ConfigurationBackend). (b : Backend) × (s.backend ≡ some b))
        (items config.services)
        (λ s i.
          let (t, r, hosts, backs) = Reflects-Routed o config s reflects i in
          elim (Option-cases s.backend) [
            | inr found ↦ found
            | inl missing ↦ absurd (
                not_nil (upstream o.services r.winner.0 r.winner.1)
                  (rw missing at (rw r.backend at backs)))
          ])
    where
      not_nil : (b : Backend) → backend_equal none (some b) ≡ true → ⊥
      not_nil b e = unfold backend_equal in cc

  pub host-Chosen :
      (o : Objects) (config : Configuration) (host : Text) (es : List Endpoint) (e : Endpoint)
      → Reflects client prefix o config
      → get_host_endpoints config host ≡ ok (some es)
      → In e es
      → Chosen o host e.address
  host-Chosen o config host es e reflects found i =
      let (s, b, j, named, back, listed) = get_host_endpoints_from config host es found in
      let (t, r, hosts, backs) = Reflects-Routed o config s reflects j in
      let target = upstream o.services r.winner.0 r.winner.1 in
      let backends : backend_equal (some b) (some target) ≡ true =
        rw back at (rw r.backend at backs) in
      let (f, n, address) =
        equal_address b target e backends
          (subst (λ (x : Slice Endpoint). In e (items x)) (sym listed) i) in
      record {
        name = r.name;
        first =
            subst (λ (x : Text). first_for x (all_rules o.ingresses) ≡ some r.name)
              (sym hosts ∙ named) r.first;
        winner = r.winner;
        last = r.last;
        endpoint = f;
        of_service = n;
        same_address = address;
      }

  -- A service of the host has the backend that the objects give it.
  host_backend :
      (o : Objects) (config : Configuration) (host a : Text) (u : ConfigurationBackend)
      → Reflects client prefix o config
      → (h : Chosen o host a) → In u (items config.services)
      → u.hostname ≡ host
      → backend_equal u.backend (some (upstream o.services h.winner.0 h.winner.1)) ≡ true
  host_backend o config host a u reflects h i named =
      let (t, r, hosts, backs) = Reflects-Routed o config u reflects i in
      let first = r.first in
      let first' = h.first in
      let at_host : t.hostname ≡ host = sym hosts ∙ named in
      let names : r.name ≡ h.name = cc in
      let last = r.last in
      let last' = h.last in
      let winners : r.winner ≡ h.winner = cc in
      subst
        (λ (x : Text × IngressBackend).
          backend_equal u.backend (some (upstream o.services x.0 x.1)) ≡ true)
        winners (rw r.backend at backs)

  -- A host for which there is an endpoint has endpoints in the configuration.
  pub host_has_endpoints :
      (o : Objects) (config : Configuration) (host a : Text)
      → Reflects client prefix o config
      → host ≢ []
      → Chosen o host a
      → (e : Endpoint) × (es : List Endpoint) × (get_host_endpoints config host
          ≡ ok (some (e ∷ es)))
  host_has_endpoints o config host a reflects full h =
      let (c, same, exact) = Reflects-generated o config reflects in
      let target = upstream o.services h.winner.0 h.winner.1 in
      let wanted : ConfigurationBackend = record { hostname = host; backend = some target } in
      let there = (exact wanted).1 (record {
        full = full;
        name = h.name;
        first = h.first;
        winner = h.winner;
        last = h.last;
        backend = refl;
      }) in
      let (s, i, named, backs) =
        equal-member c config wanted (configuration_equal-IsEquivalence.symmetric config c same)
          there in
      let (u, b, j, host_same, back, found) =
        get_host_endpoints_found config host s i (sym named)
          (Reflects-HasBackends o config reflects) in
      let backends : backend_equal (some b) (some target) ≡ true =
        rw back at (host_backend o config host a u reflects h j host_same) in
      let (f, k, address) =
        equal_address target b h.endpoint
          (backend_equal-IsEquivalence.symmetric (some b) (some target) backends) h.of_service in
      let (e, es, some_there) = some_of_In b.endpoints f k in
      (
        e,
        es,
        subst (λ (x : Slice Endpoint). get_host_endpoints config host ≡ ok x) some_there found,
      )
