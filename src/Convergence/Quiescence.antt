-- ===== src/Convergence/Quiescence.antt =====
-- A controller with nothing left to do serves what is in the cluster.
use wls_ingress.Base.{◌≢◌, ◌⊎◌, ℕ, ◌≤◌, Bool, false, [], ◌∷◌, ◌++◌, none, some, ◌≡◌}
use wls_ingress.Base.{refl, sym, ◌∙◌, subst, arith, inl, inr}
use wls_ingress.Base.Text.{Text}
use wls_ingress.Base.Run.{ok}
use wls_ingress.Redis.{Client}
use wls_ingress.Controller.Routing.Served.{IsOrder}
use wls_ingress.Controller.Sync.{Controller, Orders, set_leader, sync_ingress}
use wls_ingress.Task.{Element, WorkQueue, Queue, idle, syncing, begin_round, finish_round}
use wls_ingress.Task.Outstanding.{IsWorkQueue}
use wls_ingress.Convergence.Running.{
  Objects, changed, begun, Step, passes, changes, receives, begins, reads, elects, syncs, Reached,
  started, later,
}
use wls_ingress.Convergence.Accounting.{
  remains_at_idle, accounted_at_idle, Reflects, sync-Reflects, State, Invariant, append_ne,
  none_or_some, some_injective,
}
use wls_ingress.Convergence.Handing.{received-Invariant, taken_lem, enqueue_queues}

module _ (client : Client) (prefix : Text) (w : WorkQueue) (laws : IsWorkQueue w) where
  passed :
      (m : State client prefix w laws) (clock : ℕ)
      → m.clock ≤ clock
      → Invariant client prefix w laws m
      → Invariant client prefix w laws (record m { clock = clock })
  passed m clock t h = record {
    up = h.up;
    quiet = h.quiet;
    coherent = h.coherent;
    synced_before = omega (arith, h.synced_before);
    began_before = λ e ts p. omega (arith, h.began_before e ts p);
    accounted = h.accounted;
  }

  changed_lem :
      (m : State client prefix w laws) (objects : Objects) (key : Text)
      → Invariant client prefix w laws m
      → Invariant client prefix w laws
          (record m { objects = objects; events = m.events ++ key ∷ [] })
  changed_lem m objects key h = record {
    up = h.up;
    quiet = h.quiet;
    coherent = h.coherent;
    synced_before = h.synced_before;
    began_before = h.began_before;
    accounted = inl (inl (append_ne m.events key));
  }

  has_read :
      (m : State client prefix w laws) (e : Element) (ts : ℕ)
      → m.phase ≡ syncing e ts
      → Invariant client prefix w laws m
      → Invariant client prefix w laws (record m { seen = some m.objects })
  has_read m e ts p h = record {
    up = h.up;
    quiet = h.quiet;
    coherent = h.coherent;
    synced_before = h.synced_before;
    began_before = h.began_before;
    accounted = inl (inr (inr (e, ts, p, inr refl)));
  }

  elected :
      (m : State client prefix w laws) (leader : Bool)
      → Invariant client prefix w laws m
      → Invariant client prefix w laws
          (record m { controller = set_leader client prefix leader m.controller })
  unfolding set_leader
  elected m leader h = record {
    up = h.up;
    quiet = h.quiet;
    coherent = h.coherent;
    synced_before = h.synced_before;
    began_before = h.began_before;
    accounted = h.accounted;
  }

  -- When a synchronisation ends: an event waits, or an element that was added after it began, or it
  -- read the objects that there are.
  remains_after :
      (m : State client prefix w laws) (e : Element) (ts : ℕ) (o : Objects)
      → m.phase ≡ syncing e ts
      → m.seen ≡ some o
      → Invariant client prefix w laws m
      → (m.events ≢ [])
        ⊎ ((x : Element) × laws.Queued m.tasks.queue x × (ts ≤ x.timestamp))
        ⊎ (o ≡ m.objects)
  remains_after m e ts o p s h = elim h.accounted [
    | inl (inl ev) ↦ inl ev
    | inl (inr (inl (x, q, l, r))) ↦ inr (inl (x, q, r e ts o p s))
    | inl (inr (inr (e', ts', k, inl nothing))) ↦ absurd (none_or_some nothing s)
    | inl (inr (inr (e', ts', k, inr all))) ↦ inr (inr (some_injective (sym s ∙ all)))
    | inr (old, r) ↦ inr (inr (r e ts o p s))
  ]

  synced_lem :
      (m : State client prefix w laws) (e : Element) (ts : ℕ) (o : Objects) (orders : Orders)
      (n' : Controller client)
      → m.phase ≡ syncing e ts
      → m.seen ≡ some o
      → IsOrder orders.hosts
      → sync_ingress client prefix o.services orders o.ingresses m.controller ≡ ok n'
      → Invariant client prefix w laws m
      → Invariant client prefix w laws (record m {
        tasks = finish_round w e ts false m.clock m.tasks;
        phase = idle;
        seen = none;
        controller = n';
      })
  unfolding finish_round
  synced_lem m e ts o orders n' p s order ran h =
      let (reflects, target, quiet) =
        sync-Reflects client prefix o orders m.controller n' order h.quiet h.coherent ran in
      record {
        up = laws.done_down e (w.forget e m.tasks.queue) ∙ laws.forget_down e m.tasks.queue ∙ h.up;
        quiet = quiet;
        coherent = target;
        synced_before = h.began_before e ts p;
        began_before = λ e' ts' q. cc;
        accounted =
            accounted_at_idle client prefix w laws
              (record m {
                tasks = finish_round w e ts false m.clock m.tasks;
                phase = idle;
                seen = none;
                controller = n';
              })
              refl
              (elim (remains_after m e ts o p s h) [
                | inl ev ↦ inl ev
                | inr (inl (x, q, l)) ↦
                    let kept = laws.forget_keeps e x m.tasks.queue q in
                    inr (inl (x, laws.done_keeps e x (w.forget e m.tasks.queue) kept, l))
                | inr (inr same) ↦ inr (
                    inr (
                      subst (λ (y : Objects). Reflects client prefix y n'.running_config) same
                        reflects))
              ]);
      }

  Step-Invariant :
      (m m' : State client prefix w laws)
      → Step client prefix w m m'
      → Invariant client prefix w laws m
      → Invariant client prefix w laws m'
  unfolding begun begin_round
  Step-Invariant m _ (passes _ clock t) h = passed m clock t h
  Step-Invariant m _ (changes _ endpoints ingresses key) h =
      changed_lem m (changed endpoints ingresses m.objects) key h
  Step-Invariant m _ (receives _ key rest e) h =
      received-Invariant client prefix w laws key rest m h
  Step-Invariant m _ (begins _ p) h =
      taken_lem client prefix w laws (w.get m.tasks.queue) m refl p h
  Step-Invariant m _ (reads _ e ts p s) h = has_read m e ts p h
  Step-Invariant m _ (elects _ leader) h = elected m leader h
  Step-Invariant m _ (syncs _ e ts o orders n' p s order ran) h =
      synced_lem m e ts o orders n' p s order ran h

  Reached-Invariant :
      (m : State client prefix w laws)
      → Reached client prefix w m
      → Invariant client prefix w laws m
  Reached-Invariant _ (started objects q initial now n up quiet coherent) =
      let new : Queue w = record { queue = q; last_sync = 0; worker_done = false } in
      let (x, queued, late, same, up') =
        enqueue_queues client prefix w laws initial false now new up in
      record {
        up = up';
        quiet = quiet;
        coherent = coherent;
        synced_before = rw same (omega arith);
        began_before = λ e ts p. cc;
        accounted = inl (inr (inl (x, queued, rw same (omega arith), λ e ts o p. cc)));
      }
  Reached-Invariant _ (later m m' h step) = Step-Invariant m m' step (Reached-Invariant m h)

  -- Skipping tasks is safe, and no change is missed: with a work queue that meets its laws, as
  -- long as Stop is not called, no event is lost to an overflow of the event channel and the
  -- services and the answers of DNS stay as they are, in whatever order endpoints and ingresses
  -- change, events are received, leaders are elected, the clock passes and the worker takes, skips
  -- and synchronises, if no event waits, no element is queued and no synchronisation runs, then
  -- the HTTP handler has the running configuration, and Equal takes it for the one that is
  -- generated from the objects in the store.
  pub Reached-Reflects :
      (m : State client prefix w laws)
      → Reached client prefix w m
      → m.events ≡ []
      → m.phase ≡ idle
      → ((x : Element) → ¬ laws.Queued m.tasks.queue x)
      → (m.controller.target_config ≡ m.controller.running_config)
        × Reflects client prefix m.objects m.controller.running_config
  Reached-Reflects m reached no_events resting empty =
      let h = Reached-Invariant m reached in
      (
        h.coherent,
        elim (remains_at_idle client prefix w laws m resting h) [
          | inl ev ↦ absurd (ev no_events)
          | inr (inl (x, q, l)) ↦ absurd (empty x q)
          | inr (inr current) ↦ current
        ],
      )
