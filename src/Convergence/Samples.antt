-- ===== src/Convergence/Samples.antt =====
-- For the examples: an ingress that appears, and one round of the worker after the start.
use wls_ingress.Base.{
  false, List, [], ◌∷◌, none, some, All, ◌≡◌, refl, subst, In, inl, inr, Bool-cases,
}
use wls_ingress.Base.Text.{Text, codes, ◌==◌}
use wls_ingress.Ingress.{IngressRule, IngressObject}
use wls_ingress.Config.{Configuration}
use wls_ingress.Redis.Server.{server}
use wls_ingress.Store.{networking, to_ingress}
use wls_ingress.Store.Memory.{key, memory, memory-IsCache, memory_listed}
use wls_ingress.Store.Mirror.{World, put, adds, is_add, Change}
use wls_ingress.Controller.Routing.Samples.{
  store, ingress, same_order, same_order-IsOrder, http_port,
}
use wls_ingress.Controller.Routing.Upstreams.{HasPath}
use wls_ingress.Controller.Sync.{Controller, Orders}
use wls_ingress.Convergence.History.{IsHistory, no_change, changed}
use wls_ingress.Controller.Routing.{first_backend}
use wls_ingress.Controller.Routing.Flat.{all_rules}
use wls_ingress.Controller.Sync.Current.{sync_ingress-current}
use wls_ingress.Task.{Element, idle, element, enqueue, on_taken, begin_round, finish_round}
use wls_ingress.Task.Memory.{take_first, memory-IsWorkQueue, empty}
use wls_ingress.Task.Memory as Task_Memory
use wls_ingress.Convergence.Running.{
  Objects, Whole, begun, begins, reads, syncs, Reached, started, later,
}
use wls_ingress.Convergence.Reflects.{HasPaths}

abbrev pub wls : Text
wls = codes "wls"

abbrev pub site : IngressObject
site = ingress (codes "a") (codes "app") (codes "x.org")

abbrev pub rule : IngressRule
rule = record {
  host = codes "x.org";
  http = some (
      record {
        path = codes "/";
        backend = record { service_name = codes "app"; service_port = http_port };
      }
      ∷ []);
}

abbrev pub nothing : World
nothing = λ k. none

abbrev pub one : World
one = put (key site) (some site) nothing

abbrev pub changes : List Change
changes = adds (networking site) ∷ []

pub one-IsHistory : IsHistory memory wls key nothing changes one
unfolding to_ingress
one-IsHistory =
    changed nothing one one (adds (networking site)) []
      (is_add nothing (networking site) site refl refl) (no_change one)

pub site_paths : (r : IngressRule) → In r site.rules → HasPath (site.namespace, r)
unfolding first_backend
site_paths r (inl e) = (record { service_name = codes "app"; service_port = http_port }, rw e refl)
site_paths r (inr i) = elim i [ ]

pub one-HasPaths : HasPaths memory wls key memory-IsCache memory_listed one
one-HasPaths i (k, e, c) = elim (Bool-cases (k == key site)) [
  | inl at ↦
      let same : site ≡ i = cc (rw at at e) in
      subst (λ (x : IngressObject). (r : IngressRule) → In r x.rules → HasPath (x.namespace, r))
        same site_paths
  | inr off ↦ cc (rw off at e)
]

abbrev pub unset : Configuration
unset = record { services = none; controller_pods_count = 0 }

abbrev pub fresh : Controller server
fresh = record {
  running_config = unset;
  target_config = unset;
  current_leader = 0;
  queue_shutting_down = false;
  redis = [];
}

abbrev pub orders : Orders
orders = record { hosts = same_order; entries = λ m. m }

-- One round of the worker: the initial task is one_taken, the objects are read, and the round ends.
abbrev pub present : Objects
present = record { services = store; ingresses = site ∷ [] }

abbrev pub at_start : Whole server wls Task_Memory.memory
at_start = record {
  objects = present;
  events = [];
  tasks =
      enqueue Task_Memory.memory (some (codes "initial-sync")) false 5 5
        (record { queue = empty; last_sync = 0; worker_done = false });
  phase = idle;
  seen = none;
  controller = fresh;
  clock = 5;
}

abbrev pub one_taken : Whole server wls Task_Memory.memory
one_taken = begun server wls Task_Memory.memory at_start

abbrev pub has_read : Whole server wls Task_Memory.memory
has_read = record one_taken { seen = some present }

abbrev pub initial_task : Element
initial_task = element Task_Memory.memory (codes "initial-sync") false 5 5

pub site_routed : All HasPath (all_rules (site ∷ []))
unfolding first_backend
site_routed = ((record { service_name = codes "app"; service_port = http_port }, refl), tt)

abbrev pub synced : Controller server
synced =
    (sync_ingress-current server wls store orders (site ∷ []) fresh same_order-IsOrder site_routed
      refl refl).0

abbrev pub at_rest : Whole server wls Task_Memory.memory
at_rest = record has_read {
  tasks = finish_round Task_Memory.memory initial_task 5 false 5 has_read.tasks;
  phase = idle;
  seen = none;
  controller = synced;
}

pub at_rest_reached : Reached server wls Task_Memory.memory at_rest
unfolding begun begin_round on_taken element enqueue take_first
at_rest_reached =
    later has_read at_rest
      (later one_taken has_read
        (later at_start one_taken
          (started present empty (codes "initial-sync") 5 fresh refl refl refl)
          (begins at_start refl))
        (reads one_taken initial_task 5 refl refl))
      (syncs has_read initial_task 5 present orders synced refl refl same_order-IsOrder
        (sync_ingress-current server wls store orders (site ∷ []) fresh same_order-IsOrder
          site_routed refl refl).2)

pub nothing_queued : (x : Element) → ¬ memory-IsWorkQueue.Queued at_rest.tasks.queue x
unfolding begun begin_round on_taken finish_round element enqueue take_first memory-IsWorkQueue
nothing_queued x i = elim i [ ]
