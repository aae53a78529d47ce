-- ===== src/Store/Informers.antt =====
-- internal/ingress/controller/store/store.go, (*Informer).Run: the order in which the informers
-- start. When an informer has synced and when stopCh is closed is up to client-go and to Stop.
pub mod Ordered
mod Tests
use wls_ingress.Base.{
  ℕ, suc, Bool, true, false, ◌&&◌, ◌≡◌, ◌≢◌, ◌⊎◌, refl, arith, inl, inr, if◌then◌else◌, ap, sym,
  ◌∙◌,
}

-- An informer that is not started, that runs, and whose cache has synced.
pub data Progress : Type 0 where
  not_started : Progress
  running : Progress
  synced : Progress

-- HasSynced
unfoldable pub has_synced : Progress → Bool
has_synced not_started = false
has_synced running = false
has_synced synced = true

pub record Informers : Type 0 where
  pub ingress : Progress
  pub endpoint : Progress
  pub service : Progress
  pub pod : Progress

-- Where Run is: before it starts, at its first or its second wait, or after it.
pub data Point : Type 0 where
  at_start : Point
  first_wait : Point
  second_wait : Point
  returned : Point

-- `errors` counts the calls of HandleError.
pub record Starting : Type 0 where
  pub informers : Informers
  pub stop_closed : Bool
  pub point : Point
  pub errors : ℕ

-- The results of WaitForCacheSync: true once all caches have synced, false once stopCh is closed.
pub data Waited (stop_closed all_synced : Bool) : Bool → Type 0 where
  in_time : all_synced ≡ true → Waited stop_closed all_synced true
  given_up : stop_closed ≡ true → Waited stop_closed all_synced false

unfoldable pub launch : Starting → Starting
launch s = record s {
  informers = record s.informers { endpoint = running; service = running; pod = running };
  point = first_wait;
}

-- After the first wait, up to the second.
unfoldable pub launch_ingress : (waited : Bool) → Starting → Starting
launch_ingress waited s = record s {
  informers = record s.informers { ingress = running };
  point = second_wait;
  errors = if waited then s.errors else suc s.errors;
}

unfoldable pub end_run : (waited : Bool) → Starting → Starting
end_run waited s = record s { point = returned; errors = if waited then s.errors else suc s.errors }

pub data Step : Starting → Starting → Type 0 where
  launches : (s : Starting) → s.point ≡ at_start → Step s (launch s)
  launches_ingress :
      (s : Starting) (waited : Bool)
      → s.point ≡ first_wait
      → Waited s.stop_closed
          (has_synced s.informers.endpoint && has_synced s.informers.service)
          waited
      → Step s (launch_ingress waited s)
  ends :
      (s : Starting) (waited : Bool)
      → s.point ≡ second_wait
      → Waited s.stop_closed (has_synced s.informers.ingress) waited
      → Step s (end_run waited s)
  syncs_ingress :
      (s : Starting)
      → s.informers.ingress ≡ running
      → Step s (record s { informers = record s.informers { ingress = synced } })
  syncs_endpoint :
      (s : Starting)
      → s.informers.endpoint ≡ running
      → Step s (record s { informers = record s.informers { endpoint = synced } })
  syncs_service :
      (s : Starting)
      → s.informers.service ≡ running
      → Step s (record s { informers = record s.informers { service = synced } })
  syncs_pod :
      (s : Starting)
      → s.informers.pod ≡ running
      → Step s (record s { informers = record s.informers { pod = synced } })
  closes : (s : Starting) → Step s (record s { stop_closed = true })

abbrev pub initial : Starting
initial = record {
  informers = record {
    ingress = not_started;
    endpoint = not_started;
    service = not_started;
    pod = not_started;
  };
  stop_closed = false;
  point = at_start;
  errors = 0;
}

pub data Reached : Starting → Type 0 where
  start : Reached initial
  later : (s s' : Starting) → Reached s → Step s s' → Reached s'

pub data Later (s : Starting) : Starting → Type 0 where
  here : Later s s
  next : (s' s'' : Starting) → Later s s' → Step s' s'' → Later s s''

-- The caches that the rules of an ingress need have synced.
abbrev pub OthersSynced : Informers → Type 0
OthersSynced i = (i.endpoint ≡ synced) × (i.service ≡ synced)
