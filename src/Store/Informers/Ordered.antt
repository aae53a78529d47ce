-- ===== src/Store/Informers/Ordered.antt =====
-- The ingresses come after the caches that their rules need.
use wls_ingress.Base.{Bool, true, false, ◌&&◌, ◌≡◌, ◌≢◌, ◌⊎◌, refl, arith, inl, inr}
use wls_ingress.Store.Informers.{
  Progress, not_started, running, synced, has_synced, Informers, Point, at_start, first_wait,
  second_wait, returned, Starting, Waited, in_time, given_up, launch, launch_ingress, end_run, Step,
  launches, launches_ingress, ends, syncs_ingress, syncs_endpoint, syncs_service, syncs_pod, closes,
  Reached, start, later, Later, here, next, OthersSynced,
}

record Sound (s : Starting) : Type 0 where
  fresh : (s.point ≡ at_start) ⊎ (s.point ≡ first_wait) → s.informers.ingress ≡ not_started
  ordered : s.informers.ingress ≢ not_started → OthersSynced s.informers ⊎ (s.stop_closed ≡ true)
  complete : s.errors ≡ 0 → s.point ≡ returned → s.informers.ingress ≡ synced
  waited_for :
      s.errors ≡ 0 → (s.point ≡ second_wait) ⊎ (s.point ≡ returned) → OthersSynced s.informers

synced_of_has : (p : Progress) → has_synced p ≡ true → p ≡ synced
unfolding has_synced
synced_of_has not_started h = cc
synced_of_has running h = cc
synced_of_has synced h = refl

others_synced :
    (i : Informers) → has_synced i.endpoint && has_synced i.service ≡ true → OthersSynced i
others_synced i h =
    (synced_of_has i.endpoint (ground arith), synced_of_has i.service (ground arith))

-- The first wait is over: in time, or the channel is closed and an error is counted.
launched-Sound :
    (s : Starting) (waited : Bool)
    → s.point ≡ first_wait
    → Waited s.stop_closed
        (has_synced s.informers.endpoint && has_synced s.informers.service)
        waited
    → Sound s
    → Sound (launch_ingress waited s)
unfolding launch_ingress
launched-Sound s _ p (in_time all) h = record {
  fresh = elim [ inl q ↦ cc | inr q ↦ cc ];
  ordered = λ i. inl (others_synced s.informers all);
  complete = λ e q. cc;
  waited_for = λ e q. others_synced s.informers all;
}
launched-Sound s _ p (given_up closed) h = record {
  fresh = elim [ inl q ↦ cc | inr q ↦ cc ];
  ordered = λ i. inr closed;
  complete = λ e q. cc;
  waited_for = λ e q. absurd (omega (arith, e));
}

ended-Sound :
    (s : Starting) (waited : Bool)
    → s.point ≡ second_wait
    → Waited s.stop_closed (has_synced s.informers.ingress) waited
    → Sound s
    → Sound (end_run waited s)
unfolding end_run
ended-Sound s _ p (in_time all) h = record {
  fresh = elim [ inl q ↦ cc | inr q ↦ cc ];
  ordered = h.ordered;
  complete = λ e q. synced_of_has s.informers.ingress all;
  waited_for = λ e q. h.waited_for e (inl p);
}
ended-Sound s _ p (given_up closed) h = record {
  fresh = elim [ inl q ↦ cc | inr q ↦ cc ];
  ordered = h.ordered;
  complete = λ e q. absurd (omega (arith, e));
  waited_for = λ e q. absurd (omega (arith, e));
}

Step-Sound : (s s' : Starting) → Step s s' → Sound s → Sound s'
unfolding launch
Step-Sound s _ (launches _ p) h = record {
  fresh = λ q. h.fresh (inl p);
  ordered = λ i. absurd (i (h.fresh (inl p)));
  complete = λ e q. cc;
  waited_for = λ e. elim [ inl q ↦ cc | inr q ↦ cc ];
}
Step-Sound s _ (launches_ingress _ waited p t) h = launched-Sound s waited p t h
Step-Sound s _ (ends _ waited p t) h = ended-Sound s waited p t h
Step-Sound s _ (syncs_ingress _ r) h = record {
  fresh = λ q. cc (h.fresh q, r);
  ordered = λ i. h.ordered (λ no. cc (no, r));
  complete = λ e q. refl;
  waited_for = h.waited_for;
}
Step-Sound s _ (syncs_endpoint _ r) h = record {
  fresh = h.fresh;
  ordered = λ i. elim (h.ordered i) [ inl (e, v) ↦ inl (refl, v) | inr c ↦ inr c ];
  complete = h.complete;
  waited_for = λ e q. (refl, (h.waited_for e q).1);
}
Step-Sound s _ (syncs_service _ r) h = record {
  fresh = h.fresh;
  ordered = λ i. elim (h.ordered i) [ inl (e, v) ↦ inl (e, refl) | inr c ↦ inr c ];
  complete = h.complete;
  waited_for = λ e q. ((h.waited_for e q).0, refl);
}
Step-Sound s _ (syncs_pod _ r) h = record {
  fresh = h.fresh;
  ordered = h.ordered;
  complete = h.complete;
  waited_for = h.waited_for;
}
Step-Sound s _ (closes _) h = record {
  fresh = h.fresh;
  ordered = λ i. elim (h.ordered i) [ inl both ↦ inl both | inr c ↦ inr refl ];
  complete = h.complete;
  waited_for = h.waited_for;
}

sound : (s : Starting) → Reached s → Sound s
sound _ start = record {
  fresh = λ q. refl;
  ordered = λ i. absurd (i refl);
  complete = λ e q. cc;
  waited_for = λ e. elim [ inl q ↦ cc | inr q ↦ cc ];
}
sound _ (later s s' h step) = Step-Sound s s' step (sound s h)

-- From the second wait with the channel closed, Run returns.
ends_closed :
    (s t : Starting)
    → Later s t
    → t.point ≡ second_wait
    → t.stop_closed ≡ true
    → (s' : Starting) × Later s s' × (s'.point ≡ returned)
unfolding end_run
ends_closed s t l p c =
    (end_run false t, next t (end_run false t) l (ends t false p (given_up c)), refl)

launches_closed :
    (s t : Starting)
    → Later s t
    → t.point ≡ first_wait
    → t.stop_closed ≡ true
    → (s' : Starting) × Later s s' × (s'.point ≡ returned)
unfolding launch_ingress
launches_closed s t l p c =
    ends_closed s (launch_ingress false t)
      (next t (launch_ingress false t) l (launches_ingress t false p (given_up c))) refl c

returns_closed :
    (s : Starting) (p : Point)
    → s.point ≡ p
    → s.stop_closed ≡ true
    → (s' : Starting) × Later s s' × (s'.point ≡ returned)
unfolding launch
returns_closed s at_start p c =
    launches_closed s (launch s) (next s (launch s) here (launches s p)) refl c
returns_closed s first_wait p c = launches_closed s s here p c
returns_closed s second_wait p c = ends_closed s s here p c
returns_closed s returned p c = (s, here, p)

-- In whatever order the informers sync and the channel is closed: the informer of the ingresses
-- starts only when those of the endpoints and the services have synced, or the channel is closed;
-- when Run has returned without an error, those three have synced; and once the channel is closed,
-- Run can go on until it returns.
pub Reached-OthersSynced :
    (s : Starting)
    → Reached s
    → (s.informers.ingress ≢ not_started → OthersSynced s.informers ⊎ (s.stop_closed ≡ true))
      × (s.errors ≡ 0
          → s.point ≡ returned
          → (s.informers.ingress ≡ synced) × OthersSynced s.informers)
      × (s.stop_closed ≡ true → (s' : Starting) × Later s s' × (s'.point ≡ returned))
Reached-OthersSynced s reached =
    let h = sound s reached in
    (
      h.ordered,
      λ none_counted p. (h.complete none_counted p, h.waited_for none_counted (inr p)),
      returns_closed s s.point refl,
    )
