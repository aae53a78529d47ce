-- ===== src/Election/Tests.antt =====
-- An election that is won and lost, and the theorems at it.
use wls_ingress.Base.{true, false, [], ◌∷◌, none, some, ◌≡◌, refl}
use wls_ingress.Redis.Server.{server}
use wls_ingress.Base.Text.{Text, codes}
use wls_ingress.Controller.Sync.{Controller, set_leader, is_leader}
use wls_ingress.Election.{
  Election, nil_channel, opened, leading, lost, acquire, on_started_leading, start_leading,
  gauge_started, Reached, start, later, acquires, starts, starts_leading, gauges_started,
}
use wls_ingress.Election.Races.{AllRun, Regains, Reached-unaware, Reached-contradicted}
use wls_ingress.Metric.{Metrics, new_metrics, new_collector, set_leading}
use wls_ingress.Metric.Memory.{memory, memory-IsPrometheus, set}

abbrev controller : Controller server
controller = record {
  running_config = record { services = none; controller_pods_count = 0 };
  target_config = record { services = none; controller_pods_count = 0 };
  current_leader = 0;
  queue_shutting_down = false;
  redis = [];
}

abbrev id : Text
id = codes "ingress-controller-leader-wls"

abbrev fresh_metrics : Metrics memory
fresh_metrics = new_collector memory [] (codes "pod") (codes "wls")

-- The controller leads, and OnStartedLeading has run.
abbrev elected : Election server (codes "WLS-ING") memory id
elected = record {
  controller = record controller { current_leader = 1 };
  metrics = record fresh_metrics {
    leader_election = record fresh_metrics.leader_election { values = (id ∷ [], 1) ∷ [] };
  };
  stop_ch = opened;
  phase = leading;
  starting = 0;
  with_channel = 0;
  with_leader = 0;
  stopping = 0;
  without_leader = 0;
}

elected-Reached : Reached server (codes "WLS-ING") memory id elected
unfolding acquire on_started_leading start_leading gauge_started set_leader set_leading
    new_collector new_metrics set
elected-Reached =
    later _ _
      (later _ _
        (later _ _
          (later _ _ (start controller [] (codes "pod") (codes "wls") refl) (acquires _ refl))
          (starts _ 0 refl))
        (starts_leading _ 0 refl))
      (gauges_started _ elected 0 refl refl)

elected-AllRun : AllRun server (codes "WLS-ING") memory memory-IsPrometheus id elected
elected-AllRun = record {
  starting = refl;
  with_channel = refl;
  with_leader = refl;
  stopping = refl;
  without_leader = refl;
}

-- The lease is acquired and lost before OnStartedLeading has run.
abbrev too_early : Election server (codes "WLS-ING") memory id
too_early = record {
  controller = controller;
  metrics = fresh_metrics;
  stop_ch = nil_channel;
  phase = lost;
  starting = 1;
  with_channel = 0;
  with_leader = 0;
  stopping = 0;
  without_leader = 0;
}

Reached-unaware_example :
    (e : Election server (codes "WLS-ING") memory id) × Regains server
      (codes "WLS-ING")
      memory
      memory-IsPrometheus
      id
      elected
      e
    × (is_leader server (codes "WLS-ING") e.controller ≡ false)
Reached-unaware_example =
    Reached-unaware server (codes "WLS-ING") memory memory-IsPrometheus id elected elected-Reached
      refl elected-AllRun

Reached-contradicted_example :
    (e : Election server (codes "WLS-ING") memory id) × Regains server
      (codes "WLS-ING")
      memory
      memory-IsPrometheus
      id
      elected
      e
    × (is_leader server (codes "WLS-ING") e.controller ≡ true)
    × (memory.value (id ∷ []) e.metrics.leader_election ≡ some 0)
Reached-contradicted_example =
    Reached-contradicted server (codes "WLS-ING") memory memory-IsPrometheus id elected
      elected-Reached refl elected-AllRun
