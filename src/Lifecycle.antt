-- ===== src/Lifecycle.antt =====
-- internal/ingress/controller/wls.go: the controller from NewWLSController to Stop, its event loop
-- beside the worker of the task queue, and handleSigterm of cmd/wls/main.go. The ring channel of
-- events is a list: that more than its 1024 events wait, so that it drops the oldest, is left out.
pub mod Stopping
pub mod Afterwards
pub mod Events
pub mod Delivery
mod Tests
use wls_ingress.Base.{
  ℕ, suc, Bool, true, false, List, [], ◌∷◌, ◌++◌, Option, none, some, ◌≡◌, if◌then◌else◌,
}
use wls_ingress.Base.Text.{Text, codes}
use wls_ingress.Base.Run.{Run, ok, panic, ◌>>=◌}
use wls_ingress.Ingress.{IngressObject}
use wls_ingress.Election.{Channel, nil_channel, opened, close}
use wls_ingress.Status.{Cluster, IngressClient, shutdown}
use wls_ingress.Store.{Object, Event}
use wls_ingress.Task
use wls_ingress.Task.{Element, WorkQueue, Queue, enqueue, begin_round, finish_round, idle, syncing}
use wls_ingress.Task.Machine.{Machine, synced, failed, add_entries, begin_entries}

-- net/http's server: made, or shut down.
pub data HttpServer : Type 0 where
  serving : HttpServer
  shut : HttpServer

-- httpListener.Shutdown, which panics on a nil server.
pub shutdown_listener : Option HttpServer → Run (Option HttpServer)
shutdown_listener none = panic
shutdown_listener (some server) = ok (some shut)

-- The election id of Start.
unfoldable pub election_id : (id default_class ingress_class : Text) → Text
election_id id default_class ingress_class = elim ingress_class [
  | [] ↦ id ++ (codes "-" ++ default_class)
  | c ∷ cs ↦ id ++ (codes "-" ++ (c ∷ cs))
]

module _ (w : WorkQueue) (client : IngressClient) (in_slice : Text → List Text → Bool)
    (is_ip : Text → Bool) (key_func : Object → Option Text) where
  -- The fields of WLSController that its life changes, with the task queue and its log, the
  -- statuses of the ingresses in the cluster, and whether the redis client is closed. Of the queue
  -- of the status sync only the shutdown is here: `status_shutdowns` counts the goroutines of its
  -- Shutdown that have started and not run.
  pub record WlsController : Type 0 where
    pub is_shutting_down : Bool
    pub stop_ch : Channel
    pub update_ch : List Event
    pub sync_queue : Machine w
    pub statuses : client.State
    pub status_queue : Queue w
    pub status_shutdowns : ℕ
    pub redis_closed : Bool
    pub http_listener : Option HttpServer
    pub idle_conns_closed : Channel

  -- NewWLSController
  unfoldable pub new_wls_controller : w.State → w.State → client.State → WlsController
  new_wls_controller q status_q statuses = record {
    is_shutting_down = false;
    stop_ch = opened;
    update_ch = [];
    sync_queue = record {
      tasks = record { queue = q; last_sync = 0; worker_done = false };
      phase = idle;
      log = [];
    };
    statuses = statuses;
    status_queue = record { queue = status_q; last_sync = 0; worker_done = false };
    status_shutdowns = 0;
    redis_closed = false;
    http_listener = none;
    idle_conns_closed = nil_channel;
  }

  -- EnqueueTask and EnqueueSkippableTask of the sync queue.
  unfoldable pub enqueue_task : Option Text → Bool → ℕ → ℕ → WlsController → WlsController
  enqueue_task key skippable now now' n = record n {
    sync_queue = record n.sync_queue {
      tasks = enqueue w key skippable now now' n.sync_queue.tasks;
      log = add_entries w key skippable now now' n.sync_queue.tasks n.sync_queue.log;
    };
  }

  -- What Start does first: the initial sync, with the key of the dummy object.
  unfoldable pub start : Text → ℕ → ℕ → WlsController → WlsController
  unfolding enqueue_task
  start initial now now' n = enqueue_task (some initial) false now now' n

  -- The goroutine of Start that serves HTTP.
  unfoldable pub serve : WlsController → WlsController
  serve n = record n { idle_conns_closed = opened; http_listener = some serving }

  -- A round of the event loop of Start that receives an event.
  unfoldable pub on_event : Event → ℕ → ℕ → WlsController → WlsController
  unfolding enqueue_task
  on_event event now now' n =
      if n.is_shutting_down then n else enqueue_task (key_func event.object) true now now' n

  unfoldable pub receive : ℕ → ℕ → List Event → WlsController → WlsController
  receive now now' [] n = n
  receive now now' (event ∷ rest) n = on_event event now now' (record n { update_ch = rest })

  -- Rounds of the event loop, with the readings of the clock; a round without an event waits.
  unfoldable pub event_loop : List (ℕ × ℕ) → WlsController → WlsController
  unfolding receive
  event_loop [] n = n
  event_loop ((now, now') ∷ rounds) n = event_loop rounds (receive now now' n.update_ch n)

  -- Stop with its result, whether there is an error; UpdateStatusOnShutdown is set by
  -- NewWLSController.
  unfoldable pub stop :
      Cluster → Text → List IngressObject → WlsController → Run (Bool × WlsController)
  unfolding shutdown_listener
  stop cluster publish_service ings n = do
    let statuses = shutdown client in_slice is_ip true cluster publish_service ings n.statuses
    stop_ch ← close n.stop_ch
    listener ← shutdown_listener n.http_listener
    idle_conns ← close n.idle_conns_closed
    ok (
      false,
      record n {
        is_shutting_down = true;
        statuses = statuses;
        status_shutdowns = suc n.status_shutdowns;
        stop_ch = stop_ch;
        redis_closed = true;
        http_listener = listener;
        idle_conns_closed = idle_conns;
      },
    )

  -- The goroutine of the status sync's Shutdown; `k` is how many others are left.
  unfoldable pub shut_status_queue : ℕ → WlsController → WlsController
  shut_status_queue k n = record n {
    status_queue = Task.shutdown w n.status_queue;
    status_shutdowns = k;
  }

  -- handleSigterm after the signal: the exit code.
  unfoldable pub handle_sigterm : Cluster → Text → List IngressObject → WlsController → Run ℕ
  handle_sigterm cluster publish_service ings n = do
    (fails, n') ← stop cluster publish_service ings n
    ok (if fails then 1 else 0)

  -- A step of the worker: one of the two halves of a round.
  pub data IsWork : Machine w → Machine w → Type 0 where
    begins :
        (m : Machine w) (now : ℕ)
        → m.phase ≡ idle
        → IsWork m (record {
          tasks = (begin_round w now m.tasks).1;
          phase = (begin_round w now m.tasks).0;
          log = begin_entries w m.tasks m.log;
        })
    finishes :
        (m : Machine w) (e : Element) (ts : ℕ) (fails : Bool) (now : ℕ)
        → m.phase ≡ syncing e ts
        → IsWork m (record {
          tasks = finish_round w e ts fails now m.tasks;
          phase = idle;
          log = (if fails then failed e else synced e ts) ∷ m.log;
        })

  -- What happens to a controller, in any order: a handler of the store sends an event, the loop
  -- receives one, the worker of the sync queue takes a step, the goroutine of Start begins to
  -- serve, Stop is called, the goroutine that Stop starts shuts down the queue of the status sync.
  pub data Step : WlsController → WlsController → Type 0 where
    sends :
        (n : WlsController) (e : Event) → Step n (record n { update_ch = n.update_ch ++ e ∷ [] })
    receives :
        (n : WlsController) (e : Event) (rest : List Event) (now now' : ℕ)
        → n.update_ch ≡ e ∷ rest
        → Step n (on_event e now now' (record n { update_ch = rest }))
    works :
        (n : WlsController) (m : Machine w)
        → IsWork n.sync_queue m
        → Step n (record n { sync_queue = m })
    serves : (n : WlsController) → n.http_listener ≡ none → Step n (serve n)
    stops :
        (n n' : WlsController) (cluster : Cluster) (publish_service : Text)
        (ings : List IngressObject) (fails : Bool)
        → stop cluster publish_service ings n ≡ ok (fails, n')
        → Step n n'
    shuts_status :
        (n : WlsController) (k : ℕ) → n.status_shutdowns ≡ suc k → Step n (shut_status_queue k n)

  pub data Later (n : WlsController) : WlsController → Type 0 where
    here : Later n n
    next : (n' n'' : WlsController) → Later n n' → Step n' n'' → Later n n''

  -- A controller that was made and started with a queue that is not shut down.
  pub data Reached : WlsController → Type 0 where
    started :
        (q status_q : w.State) (statuses : client.State) (initial : Text) (now now' : ℕ)
        → w.shutting_down q ≡ false
        → Reached (start initial now now' (new_wls_controller q status_q statuses))
    later : (n n' : WlsController) → Reached n → Step n n' → Reached n'
