-- ===== src/Status/Updates.antt =====
-- What updateStatus writes.
use wls_ingress.Base.{
  true, false, List, [], ◌∷◌, some, ◌≡◌, ◌≢◌, ◌⊎◌, sym, ◌∙◌, subst, arith, In, inl, inr, Bool-cases,
  Option-cases,
}
use wls_ingress.Base.Text.{Text, ◌==◌, ==_iff}
use wls_ingress.Base.Sort.{sort_stable-perm}
use wls_ingress.Ingress.{LoadBalancerIngress, IngressObject}
use wls_ingress.Status.{
  less_load_balancer_ingress, ingress_slice_equal, sorted, queued, IngressClient, run_update,
  run_updates, update_status,
}
use wls_ingress.Status.Slices.{ingress_slice_equal-sorted, queued_iff}
use mathlib.Core.List.{Permᴰ}
use mathlib.Core.List.Permᴰ

-- The documented effect of the client: Get returns the object of the name, and UpdateStatus
-- replaces the object of its name, or on an error changes nothing.
pub record IsIngressClient (client : IngressClient) : Type 0 where
  pub get_named :
      (ns name : Text) (s : client.State) (i : IngressObject)
      → client.get ns name s ≡ some i
      → (i.namespace ≡ ns) × (i.name ≡ name)
  pub update_other :
      (ns name : Text) (i : IngressObject) (s : client.State)
      → (i.namespace ≢ ns) ⊎ (i.name ≢ name)
      → client.get ns name (client.update_status i s).1 ≡ client.get ns name s
  pub update_done :
      (i : IngressObject) (s : client.State)
      → (client.update_status i s).0 ≡ true
      → client.get i.namespace i.name (client.update_status i s).1 ≡ some i
  pub update_failed :
      (i : IngressObject) (s : client.State)
      → (client.update_status i s).0 ≡ false
      → client.get i.namespace i.name (client.update_status i s).1 ≡ client.get i.namespace i.name s

module _ (client : IngressClient) (laws : IsIngressClient client)
    (works : (i : IngressObject) (s : client.State) → (client.update_status i s).0 ≡ true) where
  -- The object of the name exists, with addresses that have `P`.
  abbrev Holds : (List LoadBalancerIngress → Type 0) → Text → Text → client.State → Type 0
  Holds P ns name s = (i : IngressObject) × (client.get ns name s ≡ some i) × P i.load_balancer

  same_name : (a b c d : Text) → ((a ≡ c) × (b ≡ d)) ⊎ ((a ≢ c) ⊎ (b ≢ d))
  same_name a b c d = elim (Bool-cases (a == c)) [
    | inr n ↦ inr (inl (λ e. cc (n, (==_iff a c).1 e)))
    | inl p ↦ elim (Bool-cases (b == d)) [
      | inr n ↦ inr (inr (λ e. cc (n, (==_iff b d).1 e)))
      | inl q ↦ inl ((==_iff a c).0 p, (==_iff b d).0 q)
    ]
  ]

  module _ (P : List LoadBalancerIngress → Type 0) (status : List LoadBalancerIngress)
      (p : P status) where
    run_update-Holds :
        (ing : IngressObject) (ns name : Text) (s : client.State)
        → Holds P ns name s
        → Holds P ns name (run_update client ing status s)
    unfolding run_update
    run_update-Holds ing ns name s (i, g, q) =
        elim (Option-cases (client.get ing.namespace ing.name s)) [
          | inl e ↦ let ran : run_update client ing status s ≡ s = ground arith in rw ran (i, g, q)
          | inr (curr, e) ↦
              let next : IngressObject = record curr { load_balancer = status } in
              let ran : run_update client ing status s ≡ (client.update_status next s).1 =
                ground arith in
              elim (same_name curr.namespace curr.name ns name) [
                | inl (c, d) ↦ rw ran (next, cc (laws.update_done next s (works next s), c, d), p)
                | inr n ↦ rw ran (i, laws.update_other ns name next s n ∙ g, q)
              ]
        ]

    run_update_sets :
        (ing i : IngressObject) (s : client.State)
        → client.get ing.namespace ing.name s ≡ some i
        → Holds P ing.namespace ing.name (run_update client ing status s)
    unfolding run_update
    run_update_sets ing i s e =
        let (a, b) = laws.get_named ing.namespace ing.name s i e in
        let next : IngressObject = record i { load_balancer = status } in
        let ran : run_update client ing status s ≡ (client.update_status next s).1 = ground arith in
        rw ran (next, cc (laws.update_done next s (works next s), a, b), p)

    run_updates-Holds :
        (todo : List IngressObject) (ns name : Text) (s : client.State)
        → Holds P ns name s
        → Holds P ns name (run_updates client todo status s)
    unfolding run_updates
    run_updates-Holds [] ns name s h = h
    run_updates-Holds (ing ∷ todo) ns name s h =
        run_updates-Holds todo ns name (run_update client ing status s)
          (run_update-Holds ing ns name s h)

  module _ (P : List LoadBalancerIngress → Type 0) (status : List LoadBalancerIngress)
      (p : P status) where
    run_updates_set :
        (todo : List IngressObject) (ing : IngressObject) (s : client.State)
        → In ing todo
        → Holds (λ l. Unit) ing.namespace ing.name s
        → Holds P ing.namespace ing.name (run_updates client todo status s)
    unfolding run_updates
    run_updates_set [] ing s i h = elim i [ ]
    run_updates_set (x ∷ todo) ing s (inl same) (i, g, u) =
        run_updates-Holds P status p todo ing.namespace ing.name (run_update client x status s) (
          subst
            (λ (y : IngressObject). Holds P ing.namespace ing.name (run_update client y status s))
            same (run_update_sets P status p ing i s g))
    run_updates_set (x ∷ todo) ing s (inr later) h =
        run_updates_set todo ing (run_update client x status s) later
          (run_update-Holds (λ l. Unit) status tt x ing.namespace ing.name s h)

  -- If every write of the client succeeds and what the controller has of the ingresses is what the
  -- cluster has, then updateStatus leaves every ingress with the new addresses, in some order.
  pub update_status_settles :
      (new : List LoadBalancerIngress) (ings : List IngressObject) (s : client.State)
      → ((ing : IngressObject)
          → In ing ings
          → (i : IngressObject) × (client.get ing.namespace ing.name s ≡ some i)
            × (i.load_balancer ≡ ing.load_balancer))
      → (ing : IngressObject) → In ing ings
      → (i : IngressObject) × (client.get ing.namespace ing.name (update_status client new ings s)
          ≡ some i)
        × Permᴰ i.load_balancer new
  unfolding update_status
  update_status_settles new ings s current ing i =
      let (c, g, same) = current ing i in
      let reached = Permᴰ.symm (sort_stable-perm less_load_balancer_ingress new) in
      elim (Bool-cases (ingress_slice_equal (sorted ing.load_balancer) (sorted new))) [
        | inl e ↦
            run_updates-Holds (λ l. Permᴰ l new) (sorted new) reached (queued (sorted new) ings)
              ing.namespace ing.name s
              (
                c,
                g,
                subst (λ (l : List LoadBalancerIngress). Permᴰ l new) (sym same)
                    ((ingress_slice_equal-sorted ing.load_balancer new).0 e),
              )
        | inr e ↦
            run_updates_set (λ l. Permᴰ l new) (sorted new) reached (queued (sorted new) ings) ing s
              ((queued_iff new ings ing).1
                (i, λ p. cc (e, (ingress_slice_equal-sorted ing.load_balancer new).1 p)))
              (c, g, tt)
      ]
