-- ===== src/Lifecycle/Delivery.antt =====
-- The events that are sent become tasks.
use wls_ingress.Base.{
  ℕ, Bool, true, false, List, [], ◌∷◌, Option, none, some, ◌≡◌, ◌⊎◌, In, length, ◌≤◌,
}
use wls_ingress.Base.{refl, sym, ap, ◌∙◌, subst, arith, inl, inr}
use wls_ingress.Base.Text.{Text, ==_iff}
use wls_ingress.Status.{IngressClient}
use wls_ingress.Store.{Object, Event}
use wls_ingress.Task.{Element, WorkQueue, element}
use wls_ingress.Task.Machine.{Entry, added, add_entries}
use wls_ingress.Task.Outstanding.{IsWorkQueue, outstanding, Kept, Reached-Kept}
use wls_ingress.Lifecycle.{
  WlsController, receive, event_loop, enqueue_task, on_event, receives, Reached, later,
}
use wls_ingress.Lifecycle.Stopping.{on_event_running}
use wls_ingress.Lifecycle.Events.{Reached-Fine}

added_outstanding :
    (k : Text) (x : Entry) (log : List Entry)
    → ((e : Element) × (x ≡ added e))
    → outstanding k log ≡ true
    → outstanding k (x ∷ log) ≡ true
unfolding outstanding
added_outstanding k x log (e, h) o = rw h (ground arith)

module _ (w : WorkQueue) (client : IngressClient) (in_slice : Text → List Text → Bool)
    (is_ip : Text → Bool) (key_func : Object → Option Text) (laws : IsWorkQueue w) where
  abbrev pub Wls : Type 0
  Wls = WlsController w client in_slice is_ip key_func

  enqueue_outstanding :
      (key : Option Text) (skippable : Bool) (now now' : ℕ) (n : Wls) (k : Text)
      → w.shutting_down n.sync_queue.tasks.queue ≡ false
      → (key ≡ some k) ⊎ (outstanding k n.sync_queue.log ≡ true)
      → outstanding k
          (enqueue_task w client in_slice is_ip key_func key skippable now now' n).sync_queue.log
        ≡ true
  unfolding enqueue_task add_entries
  enqueue_outstanding none skippable now now' n k up (inl e) = cc
  enqueue_outstanding none skippable now now' n k up (inr o) = rw up o
  enqueue_outstanding (some j) skippable now now' n k up (inl e) =
      let same : j ≡ k = cc in unfold outstanding element in rw up (ground (arith, ==_iff j k))
  enqueue_outstanding (some j) skippable now now' n k up (inr o) = rw up (
      added_outstanding k (added (element w j skippable now now')) n.sync_queue.log
        (element w j skippable now now', refl) o)

  module _ (event : Event) (k : Text) (named : key_func event.object ≡ some k) where
    -- The event waits and enough rounds are left, or its task is outstanding.
    abbrev Due : List (ℕ × ℕ) → List Event → Wls → Type 0
    Due rounds events n =
        (In event events × length events ≤ length rounds) ⊎ (outstanding k n.sync_queue.log ≡ true)

    abbrev Delivered : Wls → Type 0
    Delivered n =
        (outstanding k n.sync_queue.log ≡ true) × Reached w client in_slice is_ip key_func n

    abbrev step : ℕ → ℕ → List Event → Wls → Wls
    step = receive w client in_slice is_ip key_func

    abbrev loop : List (ℕ × ℕ) → Wls → Wls
    loop = event_loop w client in_slice is_ip key_func

    received-Due :
        (rounds : List (ℕ × ℕ)) (clock : ℕ × ℕ) (e : Event) (events : List Event) (n : Wls)
        → w.shutting_down n.sync_queue.tasks.queue ≡ false
        → Due (clock ∷ rounds) (e ∷ events) n
        → Due rounds events (
            enqueue_task w client in_slice is_ip key_func
              (key_func e.object)
              true
              clock.0
              clock.1
              n)
    received-Due rounds clock e events n up (inl (inr i, l)) = inl (i, omega arith)
    received-Due rounds clock e events n up (inl (inl same, l)) = inr (
        enqueue_outstanding (key_func e.object) true clock.0 clock.1 n k up
          (inl (ap (λ (x : Event). key_func x.object) (sym same) ∙ named)))
    received-Due rounds clock e events n up (inr o) =
        inr (enqueue_outstanding (key_func e.object) true clock.0 clock.1 n k up (inr o))

    loop_lem :
        (rounds : List (ℕ × ℕ)) (events : List Event) (n : Wls)
        → n.update_ch ≡ events
        → Reached w client in_slice is_ip key_func n
        → n.is_shutting_down ≡ false
        → Due rounds events n
        → Delivered (loop rounds n)
    unfolding event_loop receive enqueue_task
    loop_lem [] [] n c h up (inl (i, l)) = elim i [ ]
    loop_lem [] (e ∷ events) n c h up (inl (i, l)) = absurd (omega arith)
    loop_lem [] events n c h up (inr o) = (o, h)
    loop_lem (clock ∷ rounds) [] n c h up (inl (i, l)) = elim i [ ]
    loop_lem (clock ∷ rounds) [] n c h up (inr o) =
        subst (λ (evs : List Event). Delivered (loop rounds (step clock.0 clock.1 evs n))) (sym c)
          (loop_lem rounds [] n c h up (inr o))
    loop_lem (clock ∷ rounds) (e ∷ events) n c h up due =
        let n0 : Wls = record n { update_ch = events } in
        let n1 = on_event w client in_slice is_ip key_func e clock.0 clock.1 n0 in
        let same = on_event_running w client in_slice is_ip key_func e clock.0 clock.1 n0 up in
        let open_queue = (Reached-Fine w client in_slice is_ip key_func laws n h).1.0 in
        subst (λ (evs : List Event). Delivered (loop rounds (step clock.0 clock.1 evs n))) (sym c)
          (loop_lem rounds events n1 (ap (λ (x : Wls). x.update_ch) same)
            (later n n1 h (receives n e events clock.0 clock.1 c))
            (ap (λ (x : Wls). x.is_shutting_down) same ∙ up)
            (subst (Due rounds events) (sym same)
              (received-Due rounds clock e events n0 open_queue due)))

    -- An event that waits in the channel of a controller that is not shutting down, and whose object
    -- has a key, becomes a task: after as many rounds of the event loop as events wait, an element
    -- with the key is queued or is being synchronised, and the task counts as outstanding.
    pub event_loop-Kept :
        (rounds : List (ℕ × ℕ)) (n : Wls)
        → Reached w client in_slice is_ip key_func n
        → n.is_shutting_down ≡ false
        → In event n.update_ch
        → length n.update_ch ≤ length rounds
        → (outstanding k (event_loop w client in_slice is_ip key_func rounds n).sync_queue.log
            ≡ true)
          × Kept w laws k (event_loop w client in_slice is_ip key_func rounds n).sync_queue
    event_loop-Kept rounds n h up i l =
        let (o, h') = loop_lem rounds n.update_ch n refl h up (inl (i, l)) in
        let n' = event_loop w client in_slice is_ip key_func rounds n in
        let (tasks, (open_queue, phase)) =
          Reached-Fine w client in_slice is_ip key_func laws n' h' in
        (o, Reached-Kept w laws n'.sync_queue tasks open_queue k o)
