-- ===== src/Lifecycle/Events.antt =====
-- The sync queue of a controller: it is never shut down, and the events that are sent become tasks.
use wls_ingress.Base.{ℕ, Bool, true, false, List, Option, none, some, ◌≡◌, ◌≢◌, ltb}
use wls_ingress.Base.{refl, sym, ◌∙◌, subst, arith, inl, inr, Bool-cases}
use wls_ingress.Base.Text.{Text}
use wls_ingress.Status.{IngressClient}
use wls_ingress.Store.{Object}
use wls_ingress.Task
use wls_ingress.Task.{
  Element, WorkQueue, Queue, Taken, item, quit, waits, exited, enqueue, element, on_taken,
  begin_round, finish_round,
}
use wls_ingress.Task.Machine.{
  Machine, Entry, added, skipped, synced, failed, add_entries, begin_entries, taken_entries,
}
use wls_ingress.Task.Outstanding.{IsWorkQueue}
use wls_ingress.Lifecycle.{
  WlsController, new_wls_controller, start, serve, enqueue_task, IsWork, begins, finishes, Step,
  sends, receives, works, serves, stops, shuts_status, shut_status_queue, Reached, started, later,
}
use wls_ingress.Lifecycle.Stopping.{on_event_stopped, on_event_running}
use wls_ingress.Task.Machine
use wls_ingress.Lifecycle.Afterwards.{stop_keeps}

module _ (w : WorkQueue) (client : IngressClient) (in_slice : Text → List Text → Bool)
    (is_ip : Text → Bool) (key_func : Object → Option Text) (laws : IsWorkQueue w) where
  abbrev pub Wls : Type 0
  Wls = WlsController w client in_slice is_ip key_func

  -- The queue is not shut down, and its worker has not returned.
  abbrev pub Open : Machine w → Type 0
  Open m = (w.shutting_down m.tasks.queue ≡ false) × (m.phase ≢ exited)

  enqueue-Open :
      (key : Option Text) (skippable : Bool) (now now' : ℕ) (n : Wls)
      → Open n.sync_queue
      → Open (enqueue_task w client in_slice is_ip key_func key skippable now now' n).sync_queue
  unfolding enqueue_task enqueue
  enqueue-Open none skippable now now' n (up, p) = (ground arith, p)
  enqueue-Open (some k) skippable now now' n (up, p) =
      (rw up (laws.add_down (element w k skippable now now') n.sync_queue.tasks.queue ∙ up), p)

  on_taken-Open :
      (t : Taken w.State) (now : ℕ) (q : Queue w)
      → w.get q.queue ≡ t
      → w.shutting_down q.queue ≡ false
      → (w.shutting_down (on_taken w t now q).1.queue ≡ false) × ((on_taken w t now q).0 ≢ exited)
  unfolding on_taken
  on_taken-Open waits now q g up = (up, λ e. cc)
  on_taken-Open (quit s) now q g up = cc (laws.quits_down q.queue s g)
  on_taken-Open (item e s) now q g up = elim (Bool-cases (ltb e.timestamp q.last_sync)) [
    | inl old ↦ rw old (
      laws.done_down e (w.forget e s) ∙ laws.forget_down e s ∙ laws.get_down e q.queue s g ∙ up,
      λ i. cc,
    )
    | inr new ↦ rw new (laws.get_down e q.queue s g ∙ up, λ i. cc)
  ]

  IsWork-Open : (m m' : Machine w) → IsWork w client in_slice is_ip key_func m m' → Open m → Open m'
  unfolding begin_round finish_round
  IsWork-Open m _ (begins _ now p) (up, x) = on_taken-Open (w.get m.tasks.queue) now m.tasks refl up
  IsWork-Open m _ (finishes _ e ts true now p) (up, x) =
      let again : Element = record { key = e.key; timestamp = now; is_skippable = false } in
      (
        laws.done_down e (w.add_rate_limited again m.tasks.queue)
            ∙ laws.limited_down again m.tasks.queue
            ∙ up,
        λ i. cc,
      )
  IsWork-Open m _ (finishes _ e ts false now p) (up, x) =
      (laws.done_down e (w.forget e m.tasks.queue) ∙ laws.forget_down e m.tasks.queue ∙ up, λ i. cc)

  IsWork-Reached :
      (m m' : Machine w)
      → IsWork w client in_slice is_ip key_func m m'
      → Machine.Reached w m
      → Machine.Reached w m'
  IsWork-Reached m _ (begins _ now p) h = Machine.later m _ h (Machine.begins m now p)
  IsWork-Reached m _ (finishes _ e ts fails now p) h =
      Machine.later m _ h (Machine.finishes m e ts fails now p)

  enqueue-Reached :
      (key : Option Text) (skippable : Bool) (now now' : ℕ) (n : Wls)
      → Machine.Reached w n.sync_queue
      → Machine.Reached w
          (enqueue_task w client in_slice is_ip key_func key skippable now now' n).sync_queue
  unfolding enqueue_task
  enqueue-Reached key skippable now now' n h =
      Machine.later n.sync_queue _ h (Machine.enqueues n.sync_queue key skippable now now')

  abbrev pub Fine : Wls → Type 0
  Fine n = Machine.Reached w n.sync_queue × Open n.sync_queue

  Step-Fine : (n n' : Wls) → Step w client in_slice is_ip key_func n n' → Fine n → Fine n'
  Step-Fine n _ (sends _ e) h = h
  Step-Fine n _ (receives _ e rest now now' p) (r, o) =
      let n0 : Wls = record n { update_ch = rest } in
      elim (Bool-cases n.is_shutting_down) [
        | inl down ↦
            subst Fine (sym (on_event_stopped w client in_slice is_ip key_func e now now' n0 down))
              (r, o)
        | inr up ↦
            subst Fine (sym (on_event_running w client in_slice is_ip key_func e now now' n0 up)) (
              enqueue-Reached (key_func e.object) true now now' n0 r,
              enqueue-Open (key_func e.object) true now now' n0 o,
            )
      ]
  Step-Fine n _ (works _ m step) (r, o) =
      (IsWork-Reached n.sync_queue m step r, IsWork-Open n.sync_queue m step o)
  Step-Fine n _ (serves _ e) h = unfold serve in h
  Step-Fine n _ (shuts_status _ k p) h = unfold shut_status_queue in h
  Step-Fine n n' (stops _ _ cluster publish_service ings fails ran) h =
      let (d, q, c) =
        stop_keeps w client in_slice is_ip key_func cluster publish_service ings n n' fails ran in
      subst (λ (m : Machine w). Machine.Reached w m × Open m) (sym q) h

  pub Reached-Fine : (n : Wls) → Reached w client in_slice is_ip key_func n → Fine n
  unfolding start new_wls_controller
  Reached-Fine _ (started q status_q statuses initial now now' up) =
      let n = new_wls_controller w client in_slice is_ip key_func q status_q statuses in
      (
        enqueue-Reached (some initial) false now now' n (Machine.start q),
        enqueue-Open (some initial) false now now' n (up, λ i. cc),
      )
  Reached-Fine _ (later n n' h step) = Step-Fine n n' step (Reached-Fine n h)

  -- Once Stop has returned and its goroutine has run, the queue of the status sync is shut down.
  abbrev pub StatusDown : Wls → Type 0
  StatusDown n =
      n.is_shutting_down ≡ true
      → n.status_shutdowns ≡ 0
      → w.shutting_down n.status_queue.queue ≡ true

  Step-StatusDown :
      (n n' : Wls) → Step w client in_slice is_ip key_func n n' → StatusDown n → StatusDown n'
  Step-StatusDown n _ (sends _ e) h = h
  Step-StatusDown n _ (receives _ e rest now now' p) h =
      let n0 : Wls = record n { update_ch = rest } in
      elim (Bool-cases n.is_shutting_down) [
        | inl down ↦
            subst StatusDown
              (sym (on_event_stopped w client in_slice is_ip key_func e now now' n0 down)) h
        | inr up ↦
            subst StatusDown
              (sym (on_event_running w client in_slice is_ip key_func e now now' n0 up))
              (unfold enqueue_task in h)
      ]
  Step-StatusDown n _ (works _ m step) h = h
  Step-StatusDown n _ (serves _ e) h = unfold serve in h
  Step-StatusDown n n' (stops _ _ cluster publish_service ings fails ran) h =
      let (d, q, c) =
        stop_keeps w client in_slice is_ip key_func cluster publish_service ings n n' fails ran in
      λ down z. absurd (omega (arith, c, z))
  Step-StatusDown n _ (shuts_status _ k p) h =
      unfold shut_status_queue Task.shutdown in λ down z. laws.shut_down_down n.status_queue.queue

  Reached-StatusDown : (n : Wls) → Reached w client in_slice is_ip key_func n → StatusDown n
  unfolding start new_wls_controller enqueue_task
  Reached-StatusDown _ (started q status_q statuses initial now now' up) = λ down z. cc
  Reached-StatusDown _ (later n n' h step) = Step-StatusDown n n' step (Reached-StatusDown n h)

  -- Stop shuts down the queue of the status sync, in a goroutine, and not that of the
  -- synchronisations. Whatever happens, calls of Stop included: the queue of the synchronisations is
  -- not shut down and its worker does not return, so syncIngress never finds it shutting down; and
  -- if Stop has returned and no goroutine of the status sync's Shutdown is left to run, the queue of
  -- the status sync is shut down. (For work queues that meet their laws.)
  pub Reached-Open :
      (n : Wls) → Reached w client in_slice is_ip key_func n → Open n.sync_queue × StatusDown n
  Reached-Open n h = ((Reached-Fine n h).1, Reached-StatusDown n h)
