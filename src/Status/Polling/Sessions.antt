-- ===== src/Status/Polling/Sessions.antt =====
-- Which sessions the poll keeps.
use wls_ingress.Base.{
  true, List, [], ◌∷◌, ◌++◌, Option, some, ◌≡◌, ◌↔◌, ◌⊎◌, ◌∙◌, arith, In, In-append_left,
  In-append_right, In-append_cases, inl, inr, Option-cases, subst,
}
use wls_ingress.Base.Text.{Text, has_prefix}
use wls_ingress.Base.Maps.{Map}
use wls_ingress.Base.Run.{ok, Run-cases}
use wls_ingress.Ingress.{IngressObject, IngressRule, IngressBackend, Endpoints}
use wls_ingress.Redis.{Client, clean, create_namespaced}
use wls_ingress.Redis.Laws.{IsRedis, IsReliable, IsLiteral}
use wls_ingress.Redis.Sweeping.{IsEntryOrder}
use wls_ingress.Redis.Cleaning.{clean_keeps, clean_removes}
use wls_ingress.Controller.Routing.{first_backend, service_key}
use wls_ingress.Status.Polling.{
  addresses_of, with_error, complete, rule_active, active_rules, active_from, get_active_endpoints,
  poll,
}

joined : {A B C P Q : Type 0} → (B ↔ (A ⊎ P)) → (C ↔ (B ⊎ Q)) → C ↔ (A ⊎ (P ⊎ Q))
joined f g = (
  λ c. elim (g.0 c) [
    | inl b ↦ elim (f.0 b) [ inl a ↦ inl a | inr p ↦ inr (inl p) ]
    | inr q ↦ inr (inr q)
  ],
  λ o. elim o [
    | inl a ↦ g.1 (inl (f.1 (inl a)))
    | inr r ↦ elim r [ inl p ↦ g.1 (inl (f.1 (inr p))) | inr q ↦ g.1 (inr q) ]
  ],
)

module _ (get : Text → Option Endpoints) where
  -- An address of the Endpoints object of the rule's service.
  abbrev pub IsOffered : Text → IngressRule → Text → Type 0
  IsOffered ns rule a =
      (b : IngressBackend) × (eps : Endpoints) × (first_backend rule ≡ ok b)
      × (get (service_key ns b.service_name) ≡ some eps)
      × In a (addresses_of eps.subsets)

  abbrev pub OfferedBy : Text → List IngressRule → Text → Type 0
  OfferedBy ns [] a = ⊥
  OfferedBy ns (rule ∷ rules) a = IsOffered ns rule a ⊎ OfferedBy ns rules a

  -- An address of an endpoint of some rule of some ingress.
  abbrev pub Offered : List IngressObject → Text → Type 0
  Offered [] a = ⊥
  Offered (ing ∷ ings) a = OfferedBy ing.namespace ing.rules a ⊎ Offered ings a

  rule_active_exact :
      (ns : Text) (rule : IngressRule) (acc addrs : List Text) (a : Text)
      → rule_active get ns rule acc ≡ ok (complete addrs)
      → In a addrs ↔ (In a acc ⊎ IsOffered ns rule a)
  unfolding rule_active
  rule_active_exact ns rule acc addrs a h = elim (Run-cases (first_backend rule)) [
    | inl e ↦ absurd (ground arith)
    | inr (b, e) ↦ elim (Option-cases (get (service_key ns b.service_name))) [
      | inl f ↦ absurd (ground arith)
      | inr (eps, f) ↦
          let all : acc ++ addresses_of eps.subsets ≡ addrs = ground arith in
          rw (← all) (
            λ i. elim (In-append_cases a acc (addresses_of eps.subsets) i) [
              | inl j ↦ inl j
              | inr j ↦ inr (b, eps, e, f, j)
            ],
            λ o. elim o [
              | inl j ↦ In-append_left a acc (addresses_of eps.subsets) j
              | inr (b', eps', e', f', j) ↦
                  let same_backend : b' ≡ b = cc in
                  let same : eps' ≡ eps = cc in
                  In-append_right a acc (addresses_of eps.subsets)
                    (subst (λ (x : Endpoints). In a (addresses_of x.subsets)) same j)
            ],
          )
    ]
  ]

  active_rules_exact :
      (ns : Text) (rules : List IngressRule) (acc addrs : List Text) (a : Text)
      → active_rules get ns rules acc ≡ ok (complete addrs)
      → In a addrs ↔ (In a acc ⊎ OfferedBy ns rules a)
  unfolding active_rules
  active_rules_exact ns [] acc addrs a h =
      let same : acc ≡ addrs = ground arith in
      rw (← same) (λ i. inl i, λ o. elim o [ inl i ↦ i | inr j ↦ absurd j ])
  active_rules_exact ns (rule ∷ rules) acc addrs a h =
      elim (Run-cases (rule_active get ns rule acc)) [
        | inl e ↦ absurd (ground arith)
        | inr (with_error l, e) ↦ absurd (ground arith)
        | inr (complete l, e) ↦
            let one = rule_active_exact ns rule acc l a e in
            let rest = active_rules_exact ns rules l addrs a (ground arith) in joined one rest
      ]

  active_from_exact :
      (ings : List IngressObject) (acc addrs : List Text) (a : Text)
      → active_from get ings acc ≡ ok (complete addrs)
      → In a addrs ↔ (In a acc ⊎ Offered ings a)
  unfolding active_from
  active_from_exact [] acc addrs a h =
      let same : acc ≡ addrs = ground arith in
      rw (← same) (λ i. inl i, λ o. elim o [ inl i ↦ i | inr j ↦ absurd j ])
  active_from_exact (ing ∷ ings) acc addrs a h =
      elim (Run-cases (active_rules get ing.namespace ing.rules acc)) [
        | inl e ↦ absurd (ground arith)
        | inr (with_error l, e) ↦ absurd (ground arith)
        | inr (complete l, e) ↦
            let one = active_rules_exact ing.namespace ing.rules acc l a e in
            let rest = active_from_exact ings l addrs a (ground arith) in joined one rest
      ]

module _ (client : Client) (redis : IsRedis client) (prefix : Text) (order : Map Text → Map Text)
    (literal : IsLiteral (create_namespaced prefix)) (o : IsEntryOrder order)
    (get : Text → Option Endpoints) where
  -- With a prefix without pattern characters: the poll, if it does not panic, keeps every session
  -- whose address some ingress offers, whatever redis commands fail. If no command fails and every
  -- service has its Endpoints object, it leaves in the namespace no others.
  pub poll-sessions :
      (ings : List IngressObject) (s s' : client.State)
      → poll get client prefix order ings s ≡ ok s'
      → (k v : Text)
      → (redis.view s k ≡ some v → Offered get ings v → redis.view s' k ≡ some v)
        × (IsReliable client
            → (addrs : List Text) × (get_active_endpoints get ings ≡ ok (complete addrs))
            → has_prefix k (create_namespaced prefix) ≡ true
            → redis.view s' k ≡ some v
            → Offered get ings v)
  unfolding poll get_active_endpoints
  poll-sessions ings s s' h k v = elim (Run-cases (active_from get ings [])) [
    | inl e ↦ absurd (ground arith)
    | inr (with_error l, e) ↦
        let same : s ≡ s' = ground arith in
        (rw (← same) (λ there offered. there), λ works (addrs, f) p there. absurd (ground arith))
    | inr (complete l, e) ↦
        let same : (clean client prefix order l s).1 ≡ s' = ground arith in
        let exact = active_from_exact get ings [] l v e in
        rw (← same) (
          λ there offered.
              clean_keeps client redis prefix order literal o l s k
                (inr (v, there, exact.1 (inr offered)))
              ∙ there,
          λ works (addrs, f) p there.
              elim (exact.0
                ((clean_removes client redis prefix order literal o works l s).1 k v p there)) [
                  | inl j ↦ elim j [ ]
                  | inr offered ↦ offered
                ],
        )
  ]
