-- ===== src/Controller/Sync/Sessions.antt =====
-- What OnUpdate does to the sessions in redis.
use wls_ingress.Base.{true, List, [], ◌∷◌, ◌++◌, Option, none, some, ◌≡◌}
use wls_ingress.Base.{refl, sym, ◌∙◌, arith, inl, inr, Bool-cases, In, subst, ap, In-append_cases}
use wls_ingress.Base.{In-append_left, In-append_right}
use wls_ingress.Base.Text.{Text, has_prefix}
use wls_ingress.Base.Slices.{items}
use wls_ingress.Base.Run.{ok, Run-cases}
use wls_ingress.Ingress.{Backend, Endpoint}
use wls_ingress.Config.{Configuration, ConfigurationBackend}
use wls_ingress.Redis.{Client, clean, create_namespaced}
use wls_ingress.Redis.Laws.{IsRedis, IsReliable, IsLiteral}
use wls_ingress.Redis.Sweeping.{IsEntryOrder}
use wls_ingress.Redis.Cleaning.{clean_keeps, clean_removes}
use wls_ingress.Controller.Sync.{
  Controller, Orders, on_update, clean_redis, is_leader, live_addresses, addresses,
}

-- An endpoint of the configuration has this address.
pub record Serves (services : List ConfigurationBackend) (v : Text) : Type 0 where
  pub service : ConfigurationBackend
  pub listed : In service services
  pub backend : Backend
  pub not_nil : service.backend ≡ some backend
  pub endpoint : Endpoint
  pub of_backend : In endpoint (items backend.endpoints)
  pub address : v ≡ endpoint.address

In-addresses :
    (v : Text) (es : List Endpoint)
    → In v (addresses es)
    → (e : Endpoint) × In e es × (v ≡ e.address)
unfolding addresses
In-addresses v [] i = elim i [ ]
In-addresses v (e ∷ es) (inl same) = (e, inl refl, same)
In-addresses v (e ∷ es) (inr i) = let (f, j, same) = In-addresses v es i in (f, inr j, same)

addresses-In : (e : Endpoint) (es : List Endpoint) → In e es → In e.address (addresses es)
unfolding addresses
addresses-In e [] i = elim i [ ]
addresses-In e (f ∷ es) (inl same) = inl (ap (λ (x : Endpoint). x.address) same)
addresses-In e (f ∷ es) (inr i) = inr (addresses-In e es i)

live_parts :
    (s : ConfigurationBackend) (ss : List ConfigurationBackend) (ips : List Text)
    → live_addresses (s ∷ ss) ≡ ok ips
    → (b : Backend) × (more : List Text) × (s.backend ≡ some b)
      × (live_addresses ss ≡ ok more)
      × (ips ≡ addresses (items b.endpoints) ++ more)
unfolding live_addresses
live_parts s ss ips e = parts s.backend refl
  where
    parts :
        (o : Option Backend)
        → s.backend ≡ o
        → (b : Backend) × (more : List Text) × (s.backend ≡ some b)
          × (live_addresses ss ≡ ok more)
          × (ips ≡ addresses (items b.endpoints) ++ more)
    parts none h = absurd (ground arith)
    parts (some b) h = elim (Run-cases (live_addresses ss)) [
      | inl p ↦ absurd (ground arith)
      | inr (more, p) ↦ (b, more, h, p, ground arith)
    ]

live_sound :
    (ss : List ConfigurationBackend) (ips : List Text) (v : Text)
    → live_addresses ss ≡ ok ips
    → In v ips
    → Serves ss v
unfolding live_addresses
live_sound [] ips v e i =
    let empty : ips ≡ [] = cc in absurd (subst (λ (l : List Text). In v l) empty i)
live_sound (s ∷ ss) ips v e i =
    let (b, more, h, p, all) = live_parts s ss ips e in
    elim (In-append_cases v (addresses (items b.endpoints)) more
      (subst (λ (l : List Text). In v l) all i)) [
        | inl here ↦
            let (f, j, same) = In-addresses v (items b.endpoints) here in
            record {
              service = s;
              listed = inl refl;
              backend = b;
              not_nil = h;
              endpoint = f;
              of_backend = j;
              address = same;
            }
        | inr later ↦
            let r = live_sound ss more v p later in
            record {
              service = r.service;
              listed = inr r.listed;
              backend = r.backend;
              not_nil = r.not_nil;
              endpoint = r.endpoint;
              of_backend = r.of_backend;
              address = r.address;
            }
      ]

live_complete :
    (ss : List ConfigurationBackend) (ips : List Text) (v : Text)
    → live_addresses ss ≡ ok ips
    → Serves ss v
    → In v ips
live_complete ss ips v e r = go ss ips e r.listed
  where
    go :
        (ts : List ConfigurationBackend) (js : List Text)
        → live_addresses ts ≡ ok js
        → In r.service ts
        → In v js
    go [] js f i = elim i [ ]
    go (s ∷ ts) js f (inl same) =
        let (b, more, h, p, all) = live_parts s ts js f in
        let one : r.backend ≡ b =
          cc (r.not_nil, ap (λ (x : ConfigurationBackend). x.backend) same) in
        let at : In r.endpoint (items b.endpoints) =
          subst (λ (x : Backend). In r.endpoint (items x.endpoints)) one r.of_backend in
        subst (λ (l : List Text). In v l) (sym all)
          (In-append_left v (addresses (items b.endpoints)) more (
            subst (λ (x : Text). In x (addresses (items b.endpoints))) (sym r.address)
              (addresses-In r.endpoint (items b.endpoints) at)))
    go (s ∷ ts) js f (inr i) =
        let (b, more, h, p, all) = live_parts s ts js f in
        subst (λ (l : List Text). In v l) (sym all)
          (In-append_right v (addresses (items b.endpoints)) more (go ts more p i))

module _ (client : Client) (prefix : Text) (redis : IsRedis client)
    (literal : IsLiteral (create_namespaced prefix)) where
  open redis use {view}

  cleaned :
      (orders : Orders) (config : Configuration) (n n' : Controller client)
      → is_leader client prefix n ≡ true
      → on_update client prefix orders config n ≡ ok n'
      → (ips : List Text) × (live_addresses (items config.services) ≡ ok ips)
        × (n'.redis ≡ (clean client prefix orders.entries ips n.redis).1)
  unfolding on_update clean_redis
  cleaned orders config n n' lead e = elim (Run-cases (live_addresses (items config.services))) [
    | inl p ↦ absurd (ground arith)
    | inr (ips, p) ↦ (ips, p, ground arith)
  ]

  -- An update by the leader, when no redis command fails and the prefix has no pattern character,
  -- leaves in the namespace only sessions
  -- whose address is that of an endpoint of the new configuration.
  pub on_update-sessions :
      IsReliable client
      → (orders : Orders) (config : Configuration) (n n' : Controller client)
      → IsEntryOrder orders.entries
      → is_leader client prefix n ≡ true
      → on_update client prefix orders config n ≡ ok n'
      → (k v : Text) → has_prefix k (create_namespaced prefix) ≡ true
      → view n'.redis k ≡ some v
      → Serves (items config.services) v
  on_update-sessions works orders config n n' o lead e k v p h =
      let (ips, live, same) = cleaned orders config n n' lead e in
      live_sound (items config.services) ips v live (
        (clean_removes client redis prefix orders.entries literal o works ips n.redis).1 k v p
          (rw same at h))

  -- An update with a prefix without pattern characters, by a leader or not and whatever redis
  -- commands fail, keeps every session whose
  -- address is that of an endpoint of the new configuration.
  pub on_update_keeps :
      (orders : Orders) (config : Configuration) (n n' : Controller client)
      → IsEntryOrder orders.entries
      → on_update client prefix orders config n ≡ ok n'
      → (k v : Text) → view n.redis k ≡ some v
      → Serves (items config.services) v
      → view n'.redis k ≡ some v
  unfolding on_update
  on_update_keeps orders config n n' o e k v h s = elim (Bool-cases (is_leader client prefix n)) [
    | inl lead ↦
        let (ips, live, same) = cleaned orders config n n' lead e in
        rw same (
          clean_keeps client redis prefix orders.entries literal o ips n.redis k
            (inr (v, h, live_complete (items config.services) ips v live s))
          ∙ h)
    | inr follow ↦ let same : n'.redis ≡ n.redis = ground arith in rw same h
  ]
