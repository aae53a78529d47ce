-- ===== src/Controller/Routing/Served.antt =====
-- What getConfiguration serves.
use wls_ingress.Base.{true, List, [], ◌∷◌, Option, none, some, map, ◌≡◌, ◌≢◌, refl, sym, ◌∙◌}
use wls_ingress.Base.{All, arith, inl, inr, In, In-perm, In-map, In-map_inv, map-perm, ◌↔◌}
use wls_ingress.Base.{Option-cases}
use wls_ingress.Base.Text.{Text}
use wls_ingress.Base.Slices.{append, items}
use wls_ingress.Base.Maps.{Map, lookup, DistinctKeys, lookup_of_In, In_of_lookup}
use wls_ingress.Base.Run.{ok, Run-cases}
use wls_ingress.Ingress.{Backend, IngressBackend, IngressObject}
use wls_ingress.Config.{Configuration, ConfigurationBackend, configuration_equal}
use wls_ingress.Config.Equality.{configuration_equal-perm, configuration_equal-IsEquivalence}
use wls_ingress.Controller.Services.{Snapshot}
use wls_ingress.Controller.Routing.{
  upstream, create_upstreams, create_servers, get_configuration, configured, add_upstream,
  add_server,
}
use wls_ingress.Controller.Routing.Flat.{
  NamespacedRule, all_rules, run_rules, upstreams_from-flat, servers_from-flat,
}
use wls_ingress.Controller.Routing.Upstreams.{
  HasPath, last_for, upstreams_run, upstreams_HasPath, lookup-upstreams,
}
use wls_ingress.Controller.Routing.Servers.{
  first_for, first_for-last_for, servers_run, lookup-servers, servers_kept,
}
use mathlib.Core.List.{Permᴰ}
use mathlib.Core.List.Permᴰ

-- A range over a map visits each entry once, in some order.
abbrev pub IsOrder : (Map (Option Backend) → Map (Option Backend)) → Type 0
IsOrder order = (m : Map (Option Backend)) → Permᴰ (order m) m

-- What is to be served for a host: the host is not empty, `name` is the upstream's name of the
-- first rule for the host, and the backend is the upstream of the last rule with that name.
pub record Routed (store : Snapshot) (rules : List NamespacedRule) (s : ConfigurationBackend)
    : Type 0 where
  pub full : s.hostname ≢ []
  pub name : Text
  pub first : first_for s.hostname rules ≡ some name
  pub winner : Text × IngressBackend
  pub last : last_for name rules ≡ some winner
  pub backend : s.backend ≡ some (upstream store winner.0 winner.1)

module _ (store : Snapshot) (ings : List IngressObject) where
  -- The servers of a run, with what is known of them.
  pub record Servers (servers : Map (Option Backend)) : Type 0 where
    pub upstreams : Map Backend
    pub created : create_upstreams store ings ≡ ok upstreams
    pub served : create_servers ings upstreams ≡ ok servers
    pub distinct : DistinctKeys servers
    pub exact :
        (s : ConfigurationBackend)
        → (lookup s.hostname servers ≡ some s.backend) ↔ Routed store (all_rules ings) s

  module _ (h : All HasPath (all_rules ings)) where
    routed :
        (u : Map Backend) (m : Map (Option Backend))
        → run_rules (add_upstream store) (all_rules ings) [] ≡ ok u
        → run_rules (add_server u) (all_rules ings) [] ≡ ok m
        → (s : ConfigurationBackend) → lookup s.hostname m ≡ some s.backend
        → Routed store (all_rules ings) s
    unfolding lookup
    routed u m e f s l =
        let (d, empty) = servers_kept u (all_rules ings) [] m h f tt in
        let full : s.hostname ≢ [] =
          λ same. absurd (let gone : lookup s.hostname m ≡ none = rw same empty in ground arith) in
        let found = lookup-servers u s.hostname (all_rules ings) [] m full h f in
        elim (Option-cases (first_for s.hostname (all_rules ings))) [
          | inl missing ↦ absurd (ground arith)
          | inr (name, first) ↦
              let (w, last) = first_for-last_for s.hostname name (all_rules ings) first in
              let up = lookup-upstreams store (all_rules ings) [] u name e in
              record {
                full = full;
                name = name;
                first = first;
                winner = w;
                last = last;
                backend = ground arith;
              }
        ]

    looked_up :
        (u : Map Backend) (m : Map (Option Backend))
        → run_rules (add_upstream store) (all_rules ings) [] ≡ ok u
        → run_rules (add_server u) (all_rules ings) [] ≡ ok m
        → (s : ConfigurationBackend) → Routed store (all_rules ings) s
        → lookup s.hostname m ≡ some s.backend
    unfolding lookup
    looked_up u m e f s r =
        let found = lookup-servers u s.hostname (all_rules ings) [] m r.full h f in
        let up = lookup-upstreams store (all_rules ings) [] u r.name e in
        let first = r.first in let last = r.last in let back = r.backend in ground arith

    pub Servers-exist : (m : Map (Option Backend)) × Servers m
    unfolding create_upstreams create_servers
    Servers-exist =
        let (u, e) = upstreams_run store (all_rules ings) [] h in
        let (m, f) = servers_run u (all_rules ings) [] h in
        let (d, empty) = servers_kept u (all_rules ings) [] m h f tt in
        (
          m,
          record {
            upstreams = u;
            created = upstreams_from-flat store ings [] ∙ e;
            served = servers_from-flat u ings [] ∙ f;
            distinct = d;
            exact = λ s. (routed u m e f s, looked_up u m e f s);
          },
        )

-- The configuration of a run, from its servers.
abbrev of_servers :
    (Map (Option Backend) → Map (Option Backend)) → Map (Option Backend) → Configuration
of_servers order m = record {
  services = append none (map configured (order m));
  controller_pods_count = 0;
}

configuration_of_servers :
    (store : Snapshot) (order : Map (Option Backend) → Map (Option Backend))
    (ings : List IngressObject) (m : Map (Option Backend))
    → Servers store ings m
    → get_configuration store order ings ≡ ok (of_servers order m)
unfolding get_configuration
configuration_of_servers store order ings m s = rw (s.created, s.served)

items-append-none : {A : Type 0} (xs : List A) → items (append none xs) ≡ xs
items-append-none [] = refl
items-append-none (x ∷ xs) = refl

-- If every rule of every ingress has an HTTP path, getConfiguration does not panic, in whatever
-- order the hosts are visited, and it serves a host with a backend exactly when the host is not
-- empty and the backend is the upstream of the last rule whose upstream has the name that the
-- first rule for the host asks for. So no backend is nil.
pub get_configuration-Routed :
    (store : Snapshot) (order : Map (Option Backend) → Map (Option Backend))
    (ings : List IngressObject)
    → IsOrder order
    → All HasPath (all_rules ings)
    → (c : Configuration) × (get_configuration store order ings ≡ ok c)
      × ((s : ConfigurationBackend) → In s (items c.services) ↔ Routed store (all_rules ings) s)
get_configuration-Routed store order ings o h =
    let (m, s) = Servers-exist store ings h in
    (
      of_servers order m,
      configuration_of_servers store order ings m s,
      λ b. (
        λ i.
            let ((host, back), j, e) =
              In-map_inv configured b (order m) (rw items-append-none at i) in
            (s.exact b).0
              (rw e (lookup_of_In host back m s.distinct (In-perm (host, back) (o m) j))),
        λ r. rw items-append-none (
            In-map configured (b.hostname, b.backend) (order m)
              (In-perm (b.hostname, b.backend) (Permᴰ.symm (o m))
                (In_of_lookup b.hostname b.backend m ((s.exact b).1 r)))),
      ),
    )

-- getConfiguration panics exactly when some rule of some ingress has no HTTP path: it returns a
-- configuration if and only if every rule has one.
pub get_configuration-ok_iff :
    (store : Snapshot) (order : Map (Option Backend) → Map (Option Backend))
    (ings : List IngressObject)
    → ((c : Configuration) × (get_configuration store order ings ≡ ok c))
      ↔ All HasPath (all_rules ings)
unfolding get_configuration create_upstreams
get_configuration-ok_iff store order ings = (
  λ (c, e). elim (Run-cases (create_upstreams store ings)) [
    | inl p ↦ absurd (ground arith)
    | inr (u, f) ↦
        upstreams_HasPath store (all_rules ings) [] u (sym (upstreams_from-flat store ings []) ∙ f)
  ],
  λ h.
      let (m, s) = Servers-exist store ings h in
      (of_servers order m, configuration_of_servers store order ings m s),
)

of_servers_equal :
    (a b : Map (Option Backend))
    → Permᴰ a b
    → configuration_equal
        (record { services = append none (map configured a); controller_pods_count = 0 })
        (record { services = append none (map configured b); controller_pods_count = 0 })
      ≡ true
of_servers_equal [] [] p = configuration_equal-IsEquivalence.reflexive _
of_servers_equal [] (y ∷ b) p = absurd (In-perm y (Permᴰ.symm p) (inl refl))
of_servers_equal (x ∷ a) [] p = absurd (In-perm x p (inl refl))
of_servers_equal (x ∷ a) (y ∷ b) p =
    configuration_equal-perm _ _ (map configured (x ∷ a)) (map configured (y ∷ b)) refl refl
      (map-perm configured p)

-- The random order in which Go ranges over the hosts is invisible: two runs over the same objects
-- with any two orders give configurations that Equal takes for equal.
pub get_configuration-order :
    (store : Snapshot) (order order' : Map (Option Backend) → Map (Option Backend))
    (ings : List IngressObject) (c c' : Configuration)
    → IsOrder order
    → IsOrder order'
    → get_configuration store order ings ≡ ok c
    → get_configuration store order' ings ≡ ok c'
    → configuration_equal c c' ≡ true
get_configuration-order store order order' ings c c' o o' e e' =
    let h = (get_configuration-ok_iff store order ings).0 (c, e) in
    let (m, s) = Servers-exist store ings h in
    let left : c ≡ of_servers order m = cc (configuration_of_servers store order ings m s) in
    let right : c' ≡ of_servers order' m = cc (configuration_of_servers store order' ings m s) in
    rw (left, right) (of_servers_equal (order m) (order' m) (Permᴰ.trans (o m) (Permᴰ.symm (o' m))))
