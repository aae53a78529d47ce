-- ===== src/Convergence/Running.antt =====
-- The controller at work: the objects change with an event, the event loop turns events into tasks,
-- and the worker of internal/task/queue.go calls syncIngress, which reads the objects some time after
-- the worker has read the clock. The clock does not go backwards.
use wls_ingress.Base.{ℕ, ◌≤◌, Bool, true, false, List, [], ◌∷◌, ◌++◌, Option, none, some, ◌≡◌}
use wls_ingress.Base.Text.{Text}
use wls_ingress.Base.Run.{ok}
use wls_ingress.Ingress.{IngressObject, Endpoints}
use wls_ingress.Redis.{Client}
use wls_ingress.Controller.Services.{Snapshot}
use wls_ingress.Controller.Routing.Served.{IsOrder}
use wls_ingress.Controller.Sync.{Controller, Orders, set_leader, sync_ingress}
use wls_ingress.Task.{
  Element, WorkQueue, Queue, Phase, idle, syncing, enqueue, begin_round, finish_round,
}

-- What a synchronisation reads: the services with their endpoints, and the listed ingresses.
pub record Objects : Type 0 where
  pub services : Snapshot
  pub ingresses : List IngressObject

abbrev pub changed : (Text → Option Endpoints) → List IngressObject → Objects → Objects
changed endpoints ingresses o = record {
  services = record o.services { get_service_endpoints = endpoints };
  ingresses = ingresses;
}

module _ (client : Client) (prefix : Text) (w : WorkQueue) where
  -- `events` are the keys of the objects whose events wait, and `seen` is what the synchronisation
  -- that runs has read, if it has.
  pub record Whole : Type 0 where
    pub objects : Objects
    pub events : List Text
    pub tasks : Queue w
    pub phase : Phase
    pub seen : Option Objects
    pub controller : Controller client
    pub clock : ℕ

  unfoldable pub received : Text → List Text → Whole → Whole
  received key rest m = record m {
    events = rest;
    tasks = enqueue w (some key) true m.clock m.clock m.tasks;
  }

  unfoldable pub begun : Whole → Whole
  begun m = record m {
    tasks = (begin_round w m.clock m.tasks).1;
    phase = (begin_round w m.clock m.tasks).0;
    seen = none;
  }

  pub data Step : Whole → Whole → Type 0 where
    passes : (m : Whole) (clock : ℕ) → m.clock ≤ clock → Step m (record m { clock = clock })
    -- A change that a handler of the informers announces: the handler of the services is empty.
    changes :
        (m : Whole) (endpoints : Text → Option Endpoints) (ingresses : List IngressObject)
        (key : Text)
        → Step m (record m {
          objects = changed endpoints ingresses m.objects;
          events = m.events ++ key ∷ [];
        })
    receives :
        (m : Whole) (key : Text) (rest : List Text)
        → m.events ≡ key ∷ rest
        → Step m (received key rest m)
    begins : (m : Whole) → m.phase ≡ idle → Step m (begun m)
    reads :
        (m : Whole) (e : Element) (ts : ℕ)
        → m.phase ≡ syncing e ts
        → m.seen ≡ none
        → Step m (record m { seen = some m.objects })
    elects :
        (m : Whole) (leader : Bool)
        → Step m (record m { controller = set_leader client prefix leader m.controller })
    -- The synchronisation ends; syncIngress never returns an error.
    syncs :
        (m : Whole) (e : Element) (ts : ℕ) (o : Objects) (orders : Orders) (n' : Controller client)
        → m.phase ≡ syncing e ts
        → m.seen ≡ some o
        → IsOrder orders.hosts
        → sync_ingress client prefix o.services orders o.ingresses m.controller ≡ ok n'
        → Step m (record m {
          tasks = finish_round w e ts false m.clock m.tasks;
          phase = idle;
          seen = none;
          controller = n';
        })

  -- From a controller that has started: its first task is queued and its handler has its running
  -- configuration.
  pub data Reached : Whole → Type 0 where
    started :
        (objects : Objects) (q : w.State) (initial : Text) (now : ℕ) (n : Controller client)
        → w.shutting_down q ≡ false
        → n.queue_shutting_down ≡ false
        → n.target_config ≡ n.running_config
        → Reached (record {
          objects = objects;
          events = [];
          tasks =
              enqueue w
                (some initial)
                false
                now
                now
                (record { queue = q; last_sync = 0; worker_done = false });
          phase = idle;
          seen = none;
          controller = n;
          clock = now;
        })
    later : (m m' : Whole) → Reached m → Step m m' → Reached m'
