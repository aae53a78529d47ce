-- ===== src/Lifecycle/Afterwards.antt =====
-- What still happens after Stop: the event loop adds no task, and the worker goes on.
use wls_ingress.Base.{suc, Bool, true, false, List, [], ◌∷◌, Option, ◌≡◌}
use wls_ingress.Base.{refl, ap, ◌∙◌, arith}
use wls_ingress.Base.Text.{Text}
use wls_ingress.Base.Run.{ok}
use wls_ingress.Ingress.{IngressObject}
use wls_ingress.Election.{close}
use wls_ingress.Status.{Cluster, IngressClient}
use wls_ingress.Store.{Object}
use wls_ingress.Task.{Element, WorkQueue, Queue, Taken, item, quit, waits}
use wls_ingress.Task.Machine.{
  Machine, Entry, added, skipped, synced, failed, begin_entries, taken_entries,
}
use wls_ingress.Lifecycle.{
  shutdown_listener, WlsController, serve, stop, IsWork, begins, finishes, Step, sends, receives,
  works, serves, stops, shuts_status, shut_status_queue, Later, here, next,
}
use wls_ingress.Lifecycle.Stopping.{on_event_stopped}

-- The elements that were added to the queue.
unfoldable pub additions : List Entry → List Element
additions [] = []
additions (added e ∷ log) = e ∷ additions log
additions (skipped e ∷ log) = additions log
additions (synced e ts ∷ log) = additions log
additions (failed e ∷ log) = additions log

module _ (w : WorkQueue) (client : IngressClient) (in_slice : Text → List Text → Bool)
    (is_ip : Text → Bool) (key_func : Object → Option Text) where
  abbrev pub Wls : Type 0
  Wls = WlsController w client in_slice is_ip key_func

  taken_additions :
      (t : Taken w.State) (q : Queue w) (log : List Entry)
      → additions (taken_entries w t q log) ≡ additions log
  unfolding taken_entries additions
  taken_additions waits q log = refl
  taken_additions (quit s) q log = refl
  taken_additions (item e s) q log = ground arith

  IsWork-additions :
      (m m' : Machine w)
      → IsWork w client in_slice is_ip key_func m m'
      → additions m'.log ≡ additions m.log
  unfolding begin_entries additions
  IsWork-additions m _ (begins _ now p) = taken_additions (w.get m.tasks.queue) m.tasks m.log
  IsWork-additions m _ (finishes _ e ts true now p) = refl
  IsWork-additions m _ (finishes _ e ts false now p) = refl

  -- What Stop leaves alone, when it returns.
  pub stop_keeps :
      (cluster : Cluster) (publish_service : Text) (ings : List IngressObject) (n n' : Wls)
      (fails : Bool)
      → stop w client in_slice is_ip key_func cluster publish_service ings n ≡ ok (fails, n')
      → (n'.is_shutting_down ≡ true)
        × (n'.sync_queue ≡ n.sync_queue)
        × (n'.status_shutdowns ≡ suc n.status_shutdowns)
  unfolding stop close shutdown_listener
  stop_keeps cluster publish_service ings n n' fails e = ground arith

  -- From the moment at which the controller shuts down its event loop adds no task to the queue,
  -- whatever events are sent and whatever else happens.
  pub Later-additions :
      (n n' : Wls)
      → n.is_shutting_down ≡ true
      → Later w client in_slice is_ip key_func n n'
      → (n'.is_shutting_down ≡ true) × (additions n'.sync_queue.log ≡ additions n.sync_queue.log)
  Later-additions n _ down here = (down, refl)
  Later-additions n _ down (next n' n'' l step) =
      let (d, a) = Later-additions n n' down l in let (d', a') = quiet n' n'' d step in (d', a' ∙ a)
    where
      quiet :
          (n n' : Wls)
          → n.is_shutting_down ≡ true
          → Step w client in_slice is_ip key_func n n'
          → (n'.is_shutting_down ≡ true)
            × (additions n'.sync_queue.log ≡ additions n.sync_queue.log)
      quiet n _ d (sends _ e) = (d, refl)
      quiet n _ d (receives _ e rest now now' p) =
          let n0 : Wls = record n { update_ch = rest } in
          let same = on_event_stopped w client in_slice is_ip key_func e now now' n0 d in
          (
            ap (λ (x : Wls). x.is_shutting_down) same ∙ d,
            ap (λ (x : Wls). additions x.sync_queue.log) same,
          )
      quiet n _ d (works _ m step) = (d, IsWork-additions n.sync_queue m step)
      quiet n _ d (serves _ e) = unfold serve in (d, refl)
      quiet n _ d (shuts_status _ k p) = unfold shut_status_queue in (d, refl)
      quiet n n' d (stops _ _ cluster publish_service ings fails ran) =
          let (d', q, c) = stop_keeps cluster publish_service ings n n' fails ran in
          (d', ap (λ (m : Machine w). additions m.log) q)
