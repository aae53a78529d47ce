-- ===== src/Controller/Routing/Flat.antt =====
-- The two nested loops of createUpstreams and of createServers run over the rules of all
-- ingresses, in order.
use wls_ingress.Base.{List, [], ◌∷◌, ◌++◌, Option, map, ◌≡◌, refl}
use wls_ingress.Base.{inl, inr, In, In-append_left, In-append_right, In-append_cases, subst, ◌↔◌}
use wls_ingress.Base.Text.{Text}
use wls_ingress.Base.Maps.{Map}
use wls_ingress.Base.Run.{Run, ok, ◌>>=◌, Run-cases}
use wls_ingress.Ingress.{Backend, IngressRule, IngressObject}
use wls_ingress.Controller.Services.{Snapshot}
use wls_ingress.Controller.Routing.{
  add_upstream, rule_upstreams, upstreams_from, add_server, rule_servers, servers_from,
}

-- A rule and the namespace of its ingress.
abbrev pub NamespacedRule : Type 0
NamespacedRule = Text × IngressRule

abbrev pub rules_of : IngressObject → List NamespacedRule
rules_of ing = map (λ r. (ing.namespace, r)) ing.rules

abbrev pub all_rules : List IngressObject → List NamespacedRule
all_rules [] = []
all_rules (ing ∷ ings) = rules_of ing ++ all_rules ings

pub all_rules_iff :
    (ings : List IngressObject) (x : NamespacedRule)
    → In x (all_rules ings) ↔ ((i : IngressObject) × In i ings × In x (rules_of i))
all_rules_iff [] x = (λ i. elim i [ ], λ (j, i, r). elim i [ ])
all_rules_iff (ing ∷ ings) x = (
  λ i. elim (In-append_cases x (rules_of ing) (all_rules ings) i) [
    | inl here ↦ (ing, inl refl, here)
    | inr later ↦ let (j, k, r) = (all_rules_iff ings x).0 later in (j, inr k, r)
  ],
  λ (j, i, r). elim i [
    | inl same ↦
        In-append_left x (rules_of ing) (all_rules ings)
          (subst (λ (y : IngressObject). In x (rules_of y)) same r)
    | inr k ↦ In-append_right x (rules_of ing) (all_rules ings) ((all_rules_iff ings x).1 (j, k, r))
  ],
)

module _ {S : Type 0} (step : Text → IngressRule → S → Run S) where
  -- One loop over rules.
  unfoldable pub run_rules : List NamespacedRule → S → Run S
  run_rules [] s = ok s
  run_rules ((ns, r) ∷ rules) s = do t ← step ns r s; run_rules rules t

  pub run_rules-append :
      (xs ys : List NamespacedRule) (s : S)
      → run_rules (xs ++ ys) s ≡ (run_rules xs s >>= run_rules ys)
  unfolding run_rules
  run_rules-append [] ys s = refl
  run_rules-append ((ns, r) ∷ xs) ys s = elim (Run-cases (step ns r s)) [
    | inl e ↦ rw e
    | inr (t, e) ↦ rw e (run_rules-append xs ys t)
  ]

module _ (store : Snapshot) where
  rule_upstreams-flat :
      (ns : Text) (rules : List IngressRule) (m : Map Backend)
      → rule_upstreams store ns rules m
        ≡ run_rules (add_upstream store) (map (λ r. (ns, r)) rules) m
  unfolding rule_upstreams run_rules
  rule_upstreams-flat ns [] m = refl
  rule_upstreams-flat ns (r ∷ rules) m = elim (Run-cases (add_upstream store ns r m)) [
    | inl e ↦ rw e
    | inr (t, e) ↦ rw e (rule_upstreams-flat ns rules t)
  ]

  pub upstreams_from-flat :
      (ings : List IngressObject) (m : Map Backend)
      → upstreams_from store ings m ≡ run_rules (add_upstream store) (all_rules ings) m
  unfolding upstreams_from run_rules
  upstreams_from-flat [] m = refl
  upstreams_from-flat (ing ∷ ings) m =
      elim (Run-cases (run_rules (add_upstream store) (rules_of ing) m)) [
        | inl e ↦ rw (run_rules-append, rule_upstreams-flat ing.namespace ing.rules m, e)
        | inr (t, e) ↦
            rw (run_rules-append, rule_upstreams-flat ing.namespace ing.rules m, e)
              (upstreams_from-flat ings t)
      ]

module _ (upstreams : Map Backend) where
  rule_servers-flat :
      (ns : Text) (rules : List IngressRule) (m : Map (Option Backend))
      → rule_servers upstreams ns rules m
        ≡ run_rules (add_server upstreams) (map (λ r. (ns, r)) rules) m
  unfolding rule_servers run_rules
  rule_servers-flat ns [] m = refl
  rule_servers-flat ns (r ∷ rules) m = elim (Run-cases (add_server upstreams ns r m)) [
    | inl e ↦ rw e
    | inr (t, e) ↦ rw e (rule_servers-flat ns rules t)
  ]

  pub servers_from-flat :
      (ings : List IngressObject) (m : Map (Option Backend))
      → servers_from upstreams ings m ≡ run_rules (add_server upstreams) (all_rules ings) m
  unfolding servers_from run_rules
  servers_from-flat [] m = refl
  servers_from-flat (ing ∷ ings) m =
      elim (Run-cases (run_rules (add_server upstreams) (rules_of ing) m)) [
        | inl e ↦ rw (run_rules-append, rule_servers-flat ing.namespace ing.rules m, e)
        | inr (t, e) ↦
            rw (run_rules-append, rule_servers-flat ing.namespace ing.rules m, e)
              (servers_from-flat ings t)
      ]
