-- ===== src/Convergence/Accounting.antt =====
-- What has to be left to do while the running configuration is not the one of the objects: what every
-- state of Running.antt keeps.
use wls_ingress.Base.{
  ℕ, ◌≤◌, Bool, true, false, List, [], ◌∷◌, ◌++◌, Option, none, some, ◌≡◌, ◌≢◌, ◌⊎◌, ltb,
}
use wls_ingress.Base.{ap, subst, arith, inl, inr}
use wls_ingress.Base.Text.{Text}
use wls_ingress.Base.Run.{ok, Run-cases}
use wls_ingress.Config.{Configuration, configuration_equal}
use wls_ingress.Config.Equality.{configuration_equal-IsEquivalence}
use wls_ingress.Redis.{Client}
use wls_ingress.Controller.Routing.{get_configuration}
use wls_ingress.Controller.Routing.Served.{
  IsOrder, get_configuration-ok_iff, get_configuration-order,
}
use wls_ingress.Controller.Sync.{Controller, Orders, sync_ingress}
use wls_ingress.Controller.Sync.Current.{sync_ingress-current}
use wls_ingress.Task.{Element, WorkQueue, Phase, idle, syncing}
use wls_ingress.Task.Outstanding.{IsWorkQueue}
use wls_ingress.Convergence.Running.{Objects, Whole}

pub idle_or_syncing : {p : Phase} {e : Element} {ts : ℕ} → p ≡ idle → p ≡ syncing e ts → ⊥
idle_or_syncing i s = cc

pub true_or_false : {b : Bool} → b ≡ false → b ≡ true → ⊥
true_or_false f t = cc

pub append_ne : (events : List Text) (key : Text) → events ++ key ∷ [] ≢ []
append_ne [] key e = cc
append_ne (x ∷ events) key e = cc

pub none_or_some : {x : Option Objects} {o : Objects} → x ≡ none → x ≡ some o → ⊥
none_or_some n s = cc

pub some_injective : {o o' : Objects} → some o ≡ some o' → o ≡ o'
some_injective e = cc

pub not_skipped :
    (y x : Element) (last : ℕ) → y ≡ x → ltb x.timestamp last ≡ true → last ≤ y.timestamp → ⊥
not_skipped y x last same old l = let eq = ap (λ (z : Element). z.timestamp) same in ground arith

module _ (client : Client) (prefix : Text) where
  -- The configuration is the one generated from the objects, in whatever order hosts are visited.
  abbrev pub Reflects : Objects → Configuration → Type 0
  Reflects o config =
      (orders : Orders)
      → IsOrder orders.hosts
      → (c : Configuration) × (get_configuration o.services orders.hosts o.ingresses ≡ ok c)
        × (configuration_equal config c ≡ true)

  -- A synchronisation that returns reflects what it read.
  pub sync-Reflects :
      (o : Objects) (orders : Orders) (n n' : Controller client)
      → IsOrder orders.hosts
      → n.queue_shutting_down ≡ false
      → n.target_config ≡ n.running_config
      → sync_ingress client prefix o.services orders o.ingresses n ≡ ok n'
      → Reflects o n'.running_config
        × (n'.target_config ≡ n'.running_config)
        × (n'.queue_shutting_down ≡ false)
  unfolding sync_ingress
  sync-Reflects o orders n n' order up coherent e =
      elim (Run-cases (get_configuration o.services orders.hosts o.ingresses)) [
        | inl p ↦ absurd (ground (arith, p, e, up))
        | inr (c, p) ↦
            let paths = (get_configuration-ok_iff o.services orders.hosts o.ingresses).0 (c, p) in
            let (m, d, f, g, target, same, q, l) =
              sync_ingress-current client prefix o.services orders o.ingresses n order paths up
                coherent in
            let one : m ≡ n' = cc in
            subst
              (λ (x : Controller client).
                Reflects o x.running_config
                × (x.target_config ≡ x.running_config)
                × (x.queue_shutting_down ≡ false))
              one
              (
                λ orders' order'.
                    let (d', g') =
                      (get_configuration-ok_iff o.services orders'.hosts o.ingresses).1 paths in
                    (
                      d',
                      g',
                      configuration_equal-IsEquivalence.transitive m.running_config d d' same (
                          get_configuration-order o.services orders.hosts orders'.hosts o.ingresses
                            d d' order order' g g'),
                    ),
                target,
                q,
              )
      ]

  module _ (w : WorkQueue) (laws : IsWorkQueue w) where
    abbrev pub State : Type 0
    State = Whole client prefix w

    -- A queued element that the worker will not skip, not after the running synchronisation either.
    abbrev pub Waits : State → Type 0
    Waits m =
        (x : Element) × laws.Queued m.tasks.queue x
        × (m.tasks.last_sync ≤ x.timestamp)
        × ((e : Element) (ts : ℕ) (o : Objects)
            → m.phase ≡ syncing e ts
            → m.seen ≡ some o
            → ts ≤ x.timestamp)

    -- The synchronisation that runs has read nothing yet, or what is there now.
    abbrev pub InWork : State → Type 0
    InWork m =
        (e : Element) × (ts : ℕ) × (m.phase ≡ syncing e ts)
        × ((m.seen ≡ none) ⊎ (m.seen ≡ some m.objects))

    abbrev pub Pending : State → Type 0
    Pending m = (m.events ≢ []) ⊎ Waits m ⊎ InWork m

    -- The running configuration is current, and no synchronisation is about to change that.
    abbrev pub Settled : State → Type 0
    Settled m =
        Reflects m.objects m.controller.running_config
        × ((e : Element) (ts : ℕ) (o : Objects)
            → m.phase ≡ syncing e ts
            → m.seen ≡ some o
            → o ≡ m.objects)

    pub record Invariant (m : State) : Type 0 where
      pub up : w.shutting_down m.tasks.queue ≡ false
      pub quiet : m.controller.queue_shutting_down ≡ false
      pub coherent : m.controller.target_config ≡ m.controller.running_config
      pub synced_before : m.tasks.last_sync ≤ m.clock
      pub began_before : (e : Element) (ts : ℕ) → m.phase ≡ syncing e ts → ts ≤ m.clock
      pub accounted : Pending m ⊎ Settled m

    -- What is left to do when no synchronisation runs.
    abbrev pub Unfinished : State → Type 0
    Unfinished m =
        (m.events ≢ [])
        ⊎ ((x : Element) × laws.Queued m.tasks.queue x × (m.tasks.last_sync ≤ x.timestamp))
        ⊎ Reflects m.objects m.controller.running_config

    pub remains_at_idle : (m : State) → m.phase ≡ idle → Invariant m → Unfinished m
    remains_at_idle m p h = elim h.accounted [
      | inl (inl ev) ↦ inl ev
      | inl (inr (inl (x, q, l, r))) ↦ inr (inl (x, q, l))
      | inl (inr (inr (e, ts, k, r))) ↦ absurd (idle_or_syncing p k)
      | inr (current, r) ↦ inr (inr current)
    ]

    pub accounted_at_idle : (m : State) → m.phase ≡ idle → Unfinished m → Pending m ⊎ Settled m
    accounted_at_idle m p (inl ev) = inl (inl ev)
    accounted_at_idle m p (inr (inl (x, q, l))) =
        inl (inr (inl (x, q, l, λ e ts o k s. absurd (idle_or_syncing p k))))
    accounted_at_idle m p (inr (inr current)) =
        inr (current, λ e ts o k s. absurd (idle_or_syncing p k))
