-- ===== src/Lifecycle/Tests.antt =====
-- A controller that receives two events and is stopped, and the theorems at it.
use wls_ingress.Base.{
  Bool, true, false, List, [], ◌∷◌, Option, none, some, ◌≡◌, ◌≢◌, ◌⊎◌, refl, arith, inl, inr,
}
use wls_ingress.Base.Text.{Text, codes}
use wls_ingress.Base.Run.{ok, panic}
use wls_ingress.Ingress.{IngressObject}
use wls_ingress.Status.{Cluster, IngressClient, shutdown}
use wls_ingress.Store.{Object, networking, other_object, Event, create, update}
use wls_ingress.Task.{enqueue, element}
use wls_ingress.Task.Memory.{memory, memory-IsWorkQueue, task, empty}
use wls_ingress.Task.Outstanding.{Kept, outstanding}
use wls_ingress.Lifecycle.{
  WlsController, new_wls_controller, start, serve, on_event, event_loop, receive, stop,
  handle_sigterm, enqueue_task, sends, serves, stops, Reached, started, later,
}
use wls_ingress.Lifecycle.Stopping.{Stopped, Reached-handle_sigterm}
use wls_ingress.Lifecycle.Events.{Open, StatusDown, Reached-Open}
use wls_ingress.Lifecycle.Delivery.{event_loop-Kept}

-- A cluster without ingresses, whose pods cannot be listed.
abbrev no_ingresses : IngressClient
no_ingresses = record { State = Unit; get = λ ns name s. none; update_status = λ i s. (true, s) }

abbrev unlisted : Cluster
unlisted = record { get_service = λ ns name. none; list_pods = none; get_node = λ name. none }

abbrev in_slice : Text → List Text → Bool
in_slice s xs = false

abbrev is_ip : Text → Bool
is_ip s = true

abbrev site : IngressObject
site = record {
  namespace = codes "default";
  name = codes "site";
  annotations = [];
  creation = 0;
  rules = [];
  load_balancer = [];
}

abbrev key_func : Object → Option Text
key_func (networking i) = some i.name
key_func obj = none

abbrev Wls : Type 0
Wls = WlsController memory no_ingresses in_slice is_ip key_func

abbrev created : Event
created = record { type = create; object = networking site }

abbrev unknown : Event
unknown = record { type = update; object = other_object }

abbrev fresh : Wls
fresh =
    start memory no_ingresses in_slice is_ip key_func (codes "initial-sync") 1 2
      (new_wls_controller memory no_ingresses in_slice is_ip key_func empty empty tt)

abbrev serving_one : Wls
serving_one = serve memory no_ingresses in_slice is_ip key_func fresh

-- Two events wait.
abbrev busy : Wls
busy = record serving_one { update_ch = unknown ∷ created ∷ [] }

serving_one-Reached : Reached memory no_ingresses in_slice is_ip key_func serving_one
unfolding start new_wls_controller enqueue_task
serving_one-Reached =
    later fresh serving_one (started empty empty tt (codes "initial-sync") 1 2 refl)
      (serves fresh refl)

busy-Reached : Reached memory no_ingresses in_slice is_ip key_func busy
unfolding serve start new_wls_controller enqueue_task
busy-Reached =
    later _ busy (later serving_one _ serving_one-Reached (sends serving_one unknown))
      (sends _ created)

event_loop_run :
    (event_loop memory no_ingresses in_slice is_ip key_func
      ((3, 4) ∷ (5, 6) ∷ [])
      busy).sync_queue.tasks.queue.elements
    ≡ task (codes "initial-sync") 86400000000002 ∷ task (codes "site") 5 ∷ []
unfolding event_loop receive on_event serve start new_wls_controller enqueue_task enqueue element
event_loop_run = refl

event_loop-Kept_example :
    (outstanding
        (codes "site")
        (event_loop memory no_ingresses in_slice is_ip key_func
          ((3, 4) ∷ (5, 6) ∷ [])
          busy).sync_queue.log
      ≡ true)
    × Kept memory memory-IsWorkQueue
        (codes "site")
        (event_loop memory no_ingresses in_slice is_ip key_func
          ((3, 4) ∷ (5, 6) ∷ [])
          busy).sync_queue
unfolding serve start new_wls_controller enqueue_task
event_loop-Kept_example =
    event_loop-Kept memory no_ingresses in_slice is_ip key_func memory-IsWorkQueue created
      (codes "site") refl ((3, 4) ∷ (5, 6) ∷ []) busy busy-Reached refl (inr (inl refl))
      (omega arith)

some_server : {A : Type 0} (x : A) → some x ≢ none
some_server x e = cc

Reached-handle_sigterm_example :
    (busy.is_shutting_down ≡ false
      → busy.http_listener ≢ none
      → (n' : Wls) × (stop memory no_ingresses in_slice is_ip key_func unlisted [] [] busy
          ≡ ok (false, n'))
        × Stopped memory no_ingresses in_slice is_ip key_func n'
        × (n'.statuses ≡ shutdown no_ingresses in_slice is_ip true unlisted [] [] busy.statuses)
        × (handle_sigterm memory no_ingresses in_slice is_ip key_func unlisted [] [] busy ≡ ok 0))
    × ((busy.is_shutting_down ≡ true) ⊎ (busy.http_listener ≡ none)
        → handle_sigterm memory no_ingresses in_slice is_ip key_func unlisted [] [] busy ≡ panic)
Reached-handle_sigterm_example =
    Reached-handle_sigterm memory no_ingresses in_slice is_ip key_func busy unlisted [] []
      busy-Reached

-- The controller that Stop leaves.
stopped :
    (n : Wls) × (stop memory no_ingresses in_slice is_ip key_func unlisted [] [] busy
      ≡ ok (false, n))
    × Stopped memory no_ingresses in_slice is_ip key_func n
unfolding serve start new_wls_controller enqueue_task
stopped =
    let (n, e, s, same, code) =
      (Reached-handle_sigterm memory no_ingresses in_slice is_ip key_func busy unlisted [] []
          busy-Reached).0
        refl (some_server _) in
    (n, e, s)

stopped-Reached : Reached memory no_ingresses in_slice is_ip key_func stopped.0
stopped-Reached =
    later busy stopped.0 busy-Reached (stops busy stopped.0 unlisted [] [] false stopped.1)

Reached-Open_example :
    Open memory no_ingresses in_slice is_ip key_func memory-IsWorkQueue stopped.0.sync_queue
    × StatusDown memory no_ingresses in_slice is_ip key_func memory-IsWorkQueue stopped.0
Reached-Open_example =
    Reached-Open memory no_ingresses in_slice is_ip key_func memory-IsWorkQueue stopped.0
      stopped-Reached

-- The event that waits first is received after Stop.
abbrev halted : Wls
halted = record busy { is_shutting_down = true; update_ch = created ∷ unknown ∷ [] }

abbrev after_event : Wls
after_event =
    on_event memory no_ingresses in_slice is_ip key_func created 7 8
      (record halted { update_ch = unknown ∷ [] })
