-- ===== src/Store/Informers/Tests.antt =====
-- A start in which all caches sync, and the theorem at it.
use wls_ingress.Base.{true, false, ◌≡◌, ◌≢◌, ◌⊎◌, refl}
use wls_ingress.Store.Informers.{
  not_started, running, synced, has_synced, returned, Starting, in_time, launch, launch_ingress,
  end_run, launches, launches_ingress, ends, syncs_ingress, syncs_endpoint, syncs_service, Reached,
  start, later, Later, OthersSynced,
}
use wls_ingress.Store.Informers.Ordered.{Reached-OthersSynced}

abbrev all_started : Starting
all_started = record {
  informers = record { ingress = synced; endpoint = synced; service = synced; pod = running };
  stop_closed = false;
  point = returned;
  errors = 0;
}

all_started-Reached : Reached all_started
unfolding launch launch_ingress end_run has_synced
all_started-Reached =
    later _ _
      (later _ _
        (later _ _
          (later _ _ (later _ _ (later _ _ start (launches _ refl)) (syncs_service _ refl))
            (syncs_endpoint _ refl))
          (launches_ingress _ true refl (in_time refl)))
        (syncs_ingress _ refl))
      (ends _ true refl (in_time refl))

Reached-OthersSynced_example :
    (all_started.informers.ingress ≢ not_started
      → OthersSynced all_started.informers ⊎ (all_started.stop_closed ≡ true))
    × (all_started.errors ≡ 0
        → all_started.point ≡ returned
        → (all_started.informers.ingress ≡ synced) × OthersSynced all_started.informers)
    × (all_started.stop_closed ≡ true
        → (s' : Starting) × Later all_started s' × (s'.point ≡ returned))
Reached-OthersSynced_example = Reached-OthersSynced all_started all_started-Reached
