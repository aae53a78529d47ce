-- ===== src/Convergence/Reflects.antt =====
-- What the HTTP handler serves after a synchronisation, seen from the ingresses of the informer.
use wls_ingress.Base.{false, List, [], ◌∷◌, none, some, map, ◌≡◌, ◌≢◌, ◌↔◌, refl, arith, All, In}
use wls_ingress.Base.{All_of_In, subst, sym, ap, ◌∙◌, inl, inr, Option-cases, In-map, In-map_inv}
use wls_ingress.Base.Text.{Text}
use wls_ingress.Base.Run.{ok}
use wls_ingress.Ingress.{IngressRule, IngressObject}
use wls_ingress.Config.{Configuration}
use wls_ingress.Redis.{Client}
use wls_ingress.Store.{
  AnnotatedIngress, Cache, annotated, default_rule, default_path, Store, list_ingresses,
}
use wls_ingress.Store.Mirror.{IsCache, World, Change, Mirrors}
use wls_ingress.Controller.Services.{Snapshot}
use wls_ingress.Controller.Routing.{first_backend}
use wls_ingress.Controller.Routing.Flat.{NamespacedRule, all_rules, rules_of, all_rules_iff}
use wls_ingress.Controller.Routing.Upstreams.{HasPath}
use wls_ingress.Controller.Routing.Served.{IsOrder, get_configuration-Routed}
use wls_ingress.Controller.Sync.{Controller, Orders, sync_ingress}
use wls_ingress.Controller.Sync.Current.{sync_ingress-current}
use wls_ingress.Convergence.Hosts.{Serves, equal-Serves, generated-Serves}
use wls_ingress.Convergence.History.{
  handle_all, IsHistory, Accepted, handle_all-Mirrors, listed_iff,
}

-- The defaults of syncIngress change neither the host nor the backend.
default_rule_lem :
    (r : IngressRule)
    → ((default_rule r).host ≡ r.host) × (first_backend (default_rule r) ≡ first_backend r)
unfolding default_rule default_path first_backend
default_rule_lem r = elim (Option-cases r.http) [
  | inl e ↦ (ground arith, ground arith)
  | inr ([], e) ↦ (ground arith, ground arith)
  | inr (p ∷ ps, e) ↦ (ground arith, ground arith)
]

annotated_rules :
    (i : IngressObject) (x : NamespacedRule)
    → In x (rules_of (annotated i).ingress)
    → (r : IngressRule) × In r i.rules × (x ≡ (i.namespace, default_rule r))
unfolding annotated
annotated_rules i x h =
    let (d, j, e) =
      In-map_inv (λ (r : IngressRule). (i.namespace, r)) x (map default_rule i.rules) h in
    let (r, k, f) = In-map_inv default_rule d i.rules j in
    (r, k, e ∙ ap (λ (q : IngressRule). (i.namespace, q)) f)

rules_annotated :
    (i : IngressObject) (r : IngressRule)
    → In r i.rules
    → In (i.namespace, default_rule r) (rules_of (annotated i).ingress)
unfolding annotated
rules_annotated i r h =
    In-map (λ (q : IngressRule). (i.namespace, q)) (default_rule r) (map default_rule i.rules)
      (In-map default_rule r i.rules h)

module _ (cache : Cache) (ingress_class : Text) (key : IngressObject → Text)
    (laws : IsCache cache key)
    (listed : (a : AnnotatedIngress) (t : cache.State)
      → In a (cache.list t) ↔ ((k : Text) × (cache.get_by_key k t ≡ some a))) where
  -- A rule for the host in an ingress of an accepted class.
  abbrev pub Wanted : World → Text → Type 0
  Wanted w h =
      (i : IngressObject) × (r : IngressRule) × Accepted cache ingress_class key w i
      × In r i.rules
      × (r.host ≡ h)

  -- Every rule of an ingress of an accepted class has an HTTP path.
  abbrev pub HasPaths : World → Type 0
  HasPaths w =
      (i : IngressObject)
      → Accepted cache ingress_class key w i
      → (r : IngressRule) → In r i.rules
      → HasPath (i.namespace, r)

  abbrev pub listed_objects : Store cache ingress_class → List IngressObject
  listed_objects s =
      map (λ (a : AnnotatedIngress). a.ingress) (list_ingresses cache ingress_class none s)

  module _ (w : World) (s : Store cache ingress_class)
      (m : Mirrors cache ingress_class key w s) where
    listed_rules_iff :
        (x : NamespacedRule)
        → In x (all_rules (listed_objects s)) ↔ (
            (i : IngressObject) × (r : IngressRule) × Accepted cache ingress_class key w i
            × In r i.rules
            × (x ≡ (i.namespace, default_rule r)))
    listed_rules_iff x =
        let list_iff = listed_iff cache ingress_class key laws w s (λ a. listed a s.ingresses) m in
        (
          λ i.
              let (o, j, r) = (all_rules_iff (listed_objects s) x).0 i in
              let (a, k, e) =
                In-map_inv (λ (a : AnnotatedIngress). a.ingress) o
                  (list_ingresses cache ingress_class none s) j in
              let (ing, acc, f) = (list_iff a).0 k in
              let (rule, l, g) = annotated_rules ing x (
                subst (λ (y : IngressObject). In x (rules_of y))
                  (e ∙ ap (λ (a : AnnotatedIngress). a.ingress) f) r) in
              (ing, rule, acc, l, g),
          λ (ing, r, acc, l, g). (all_rules_iff (listed_objects s) x).1 (
            (annotated ing).ingress,
            In-map (λ (a : AnnotatedIngress). a.ingress) (annotated ing)
                (list_ingresses cache ingress_class none s)
                ((list_iff (annotated ing)).1 (ing, acc, refl)),
            subst (λ (y : NamespacedRule). In y (rules_of (annotated ing).ingress)) (sym g)
                (rules_annotated ing r l),
          ),
        )

    listed-HasPath : HasPaths w → All HasPath (all_rules (listed_objects s))
    listed-HasPath h = All_of_In HasPath (all_rules (listed_objects s)) (λ x i.
        let (ing, r, acc, l, g) = (listed_rules_iff x).0 i in
        let (b, e) = h ing acc r l in subst HasPath (sym g) (b, (default_rule_lem r).1 ∙ e))

    Wanted-iff :
        (h : Text)
        → ((x : NamespacedRule) × In x (all_rules (listed_objects s)) × (x.1.host ≡ h)) ↔ Wanted w h
    Wanted-iff h = (
      λ (x, i, e).
          let (ing, r, acc, l, g) = (listed_rules_iff x).0 i in
          (
            ing,
            r,
            acc,
            l,
            sym (default_rule_lem r).0 ∙ sym (ap (λ (y : NamespacedRule). y.1.host) g) ∙ e,
          ),
      λ (ing, r, acc, l, e). (
        (ing.namespace, default_rule r),
        (listed_rules_iff (ing.namespace, default_rule r)).1 (ing, r, acc, l, refl),
        (default_rule_lem r).0 ∙ e,
      ),
    )

  -- Whatever calls the informer made since the store was empty, as long as it handed over no deletion
  -- as a tombstone of the extensions group (such a call is dropped): if every rule of an ingress of an
  -- accepted class has an HTTP path, the queue is not shutting down and the handler has the
  -- controller's running configuration, then the handlers of the store and the next synchronisation
  -- return, and afterwards the HTTP handler serves a host exactly when it is not empty and some
  -- rule of an ingress that the informer has, of an accepted class, is for the host.
  pub handle_all-Serves :
      (client : Client) (prefix : Text) (services : Snapshot) (orders : Orders)
      (empty : cache.State) (changes : List Change) (w : World) (n : Controller client)
      → ((k : Text) → cache.get_by_key k empty ≡ none)
      → IsHistory cache ingress_class key (λ k. none) changes w
      → HasPaths w
      → IsOrder orders.hosts
      → n.queue_shutting_down ≡ false
      → n.target_config ≡ n.running_config
      → (s : Store cache ingress_class) × (n' : Controller client) × (handle_all cache ingress_class
            changes
            (record { ingresses = empty; update_ch = [] })
          ≡ ok s)
        × (sync_ingress client prefix services orders (listed_objects s) n ≡ ok n')
        × ((h : Text) → Serves n'.target_config h ↔ ((h ≢ []) × Wanted w h))
  handle_all-Serves client prefix services orders empty changes w n nothing history paths order up
        coherent =
      let (s, e, m) =
        handle_all-Mirrors cache ingress_class key laws (λ k. none) w changes
          (record { ingresses = empty; update_ch = [] }) history nothing in
      let p = listed-HasPath w s m paths in
      let (n', c, f, g, target, same, q, l) =
        sync_ingress-current client prefix services orders (listed_objects s) n order p up
          coherent in
      let (d, k, exact) =
        get_configuration-Routed services orders.hosts (listed_objects s) order p in
      let one : c ≡ d = cc in
      (
        s,
        n',
        e,
        f,
        λ h.
            let running = equal-Serves n'.running_config c h same in
            let generated = generated-Serves services (all_rules (listed_objects s)) d h p exact in
            (
              λ x.
                  let y = generated.0 (
                    subst (λ (z : Configuration). Serves z h) one
                      (running.0 (subst (λ (z : Configuration). Serves z h) target x))) in
                  (y.0, (Wanted-iff w s m h).0 y.1),
              λ (full, x).
                  subst (λ (z : Configuration). Serves z h) (sym target)
                    (running.1 (
                      subst (λ (z : Configuration). Serves z h) (sym one)
                        (generated.1 (full, (Wanted-iff w s m h).1 x)))),
            ),
      )
