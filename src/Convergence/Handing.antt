-- ===== src/Convergence/Handing.antt =====
-- What an event and a round of the worker, up to its synchronisation, leave to do.
use wls_ingress.Base.{ℕ, ◌≤◌, Bool, true, false, List, none, some, ◌≡◌, ltb}
use wls_ingress.Base.{refl, ◌∙◌, arith, inl, inr, Bool-cases}
use wls_ingress.Base.Text.{Text}
use wls_ingress.Redis.{Client}
use wls_ingress.Task.{
  Element, Taken, item, quit, waits, WorkQueue, Queue, idle, element, enqueue, on_taken,
}
use wls_ingress.Task.Outstanding.{IsWorkQueue}
use wls_ingress.Convergence.Running.{received}
use wls_ingress.Convergence.Accounting.{
  remains_at_idle, accounted_at_idle, State, Invariant, true_or_false, not_skipped,
}

module _ (client : Client) (prefix : Text) (w : WorkQueue) (laws : IsWorkQueue w) where
  -- An element that was just added waits.
  pub enqueue_queues :
      (key : Text) (skippable : Bool) (now : ℕ) (q : Queue w)
      → w.shutting_down q.queue ≡ false
      → (x : Element) × laws.Queued (enqueue w (some key) skippable now now q).queue x
        × (now ≤ x.timestamp)
        × ((enqueue w (some key) skippable now now q).last_sync ≡ q.last_sync)
        × (w.shutting_down (enqueue w (some key) skippable now now q).queue ≡ false)
  unfolding enqueue
  enqueue_queues key skippable now q up =
      let x = element w key skippable now now in
      rw up (x, laws.add_queues x q.queue up, element_later, refl, laws.add_down x q.queue ∙ up)
    where
      element_later : now ≤ (element w key skippable now now).timestamp
      element_later = unfold element in ground arith

  pub received-Invariant :
      (key : Text) (rest : List Text) (m : State client prefix w laws)
      → Invariant client prefix w laws m
      → Invariant client prefix w laws (received client prefix w key rest m)
  unfolding received
  received-Invariant key rest m h =
      let (x, queued, late, same, up) = enqueue_queues key true m.clock m.tasks h.up in
      record {
        up = up;
        quiet = h.quiet;
        coherent = h.coherent;
        synced_before = rw same h.synced_before;
        began_before = h.began_before;
        accounted = inl (
            inr (
              inl (
                x,
                queued,
                rw same (omega (arith, h.synced_before, late)),
                λ e ts o p s. omega (arith, h.began_before e ts p, late),
              )));
      }

  -- A round that finds nothing.
  waited-Invariant :
      (m : State client prefix w laws)
      → m.phase ≡ idle
      → Invariant client prefix w laws m
      → Invariant client prefix w laws (record m { phase = idle; seen = none })
  waited-Invariant m p h = record {
    up = h.up;
    quiet = h.quiet;
    coherent = h.coherent;
    synced_before = h.synced_before;
    began_before = λ e ts q. cc;
    accounted =
        accounted_at_idle client prefix w laws (record m { phase = idle; seen = none }) refl
          (remains_at_idle client prefix w laws m p h);
  }

  -- A round that skips the element it took: what still waits is not that one.
  skipped-Invariant :
      (x : Element) (s : w.State) (m : State client prefix w laws)
      → w.get m.tasks.queue ≡ item x s
      → ltb x.timestamp m.tasks.last_sync ≡ true
      → m.phase ≡ idle
      → Invariant client prefix w laws m
      → Invariant client prefix w laws (record m {
        tasks = record m.tasks { queue = w.done x (w.forget x s) };
        phase = idle;
        seen = none;
      })
  skipped-Invariant x s m g old p h = record {
    up =
        laws.done_down x (w.forget x s)
        ∙ laws.forget_down x s
        ∙ laws.get_down x m.tasks.queue s g
        ∙ h.up;
    quiet = h.quiet;
    coherent = h.coherent;
    synced_before = h.synced_before;
    began_before = λ e ts q. cc;
    accounted =
        accounted_at_idle client prefix w laws
          (record m {
            tasks = record m.tasks { queue = w.done x (w.forget x s) };
            phase = idle;
            seen = none;
          })
          refl
          (elim (remains_at_idle client prefix w laws m p h) [
            | inl ev ↦ inl ev
            | inr (inl (y, q, l)) ↦ elim (laws.get_keeps x y m.tasks.queue s g q) [
              | inl same ↦ absurd (not_skipped y x m.tasks.last_sync same old l)
              | inr still ↦
                  inr
                    (inl (y, laws.done_keeps x y (w.forget x s) (laws.forget_keeps x y s still), l))
            ]
            | inr (inr current) ↦ inr (inr current)
          ]);
  }

  -- What a round does up to sync, by the result of Get.
  pub taken_lem :
      (t : Taken w.State) (m : State client prefix w laws)
      → w.get m.tasks.queue ≡ t
      → m.phase ≡ idle
      → Invariant client prefix w laws m
      → Invariant client prefix w laws (record m {
        tasks = (on_taken w t m.clock m.tasks).1;
        phase = (on_taken w t m.clock m.tasks).0;
        seen = none;
      })
  unfolding on_taken
  taken_lem waits m g p h = waited-Invariant m p h
  taken_lem (quit s) m g p h = absurd (true_or_false h.up (laws.quits_down m.tasks.queue s g))
  taken_lem (item x s) m g p h = elim (Bool-cases (ltb x.timestamp m.tasks.last_sync)) [
    | inl old ↦ rw old (skipped-Invariant x s m g old p h)
    | inr new ↦ rw new (record {
      up = laws.get_down x m.tasks.queue s g ∙ h.up;
      quiet = h.quiet;
      coherent = h.coherent;
      synced_before = h.synced_before;
      began_before = λ e ts q. ground (arith, q);
      accounted = inl (inr (inr (x, m.clock, refl, inl refl)));
    })
  ]
