-- ===== src/Task/Covered.antt =====
-- A skipped element is covered by a synchronisation.
use wls_ingress.Base.{
  ℕ, ◌<◌, Bool, true, false, List, [], ◌∷◌, Option, none, some, ◌≡◌, if◌then◌else◌, ltb,
}
use wls_ingress.Base.{In, inl, inr, ◌⊎◌, arith, Bool-cases, refl}
use wls_ingress.Base.Text.{Text}
use wls_ingress.Task.{
  Element, Taken, item, quit, waits, WorkQueue, idle, enqueue, on_taken, begin_round, finish_round,
  shutdown,
}
use wls_ingress.Task.Machine.{
  Entry, added, skipped, synced, failed, Machine, Step, enqueues, begins, finishes, shuts_down,
  Reached, start, later, add_entries, taken_entries, begin_entries,
}

-- Below each skipped element of the log is a synchronisation that succeeded and began after the
-- element's timestamp.
abbrev pub Covered : List Entry → Type 0
Covered [] = Unit
Covered (skipped e ∷ older) =
    ((e' : Element) × (ts : ℕ) × In (synced e' ts) older × e.timestamp < ts) × Covered older
Covered (added e ∷ older) = Covered older
Covered (synced e ts ∷ older) = Covered older
Covered (failed e ∷ older) = Covered older

-- The time of the last synchronisation is 0 or in the log.
abbrev Recorded : ℕ → List Entry → Type 0
Recorded last log = (last ≡ 0) ⊎ ((e : Element) × In (synced e last) log)

module _ (w : WorkQueue) where
  Recorded-cons :
      (last : ℕ) (x : Entry) (log : List Entry) → Recorded last log → Recorded last (x ∷ log)
  Recorded-cons last x log h = elim h [ inl z ↦ inl z | inr (e, i) ↦ inr (e, inr i) ]

  Invariant : Machine w → Type 0
  Invariant m = Recorded m.tasks.last_sync m.log × Covered m.log

  enqueue-Invariant :
      (m : Machine w) (key : Option Text) (skippable : Bool) (now now' : ℕ)
      → Invariant m
      → Invariant (record m {
        tasks = enqueue w key skippable now now' m.tasks;
        log = add_entries w key skippable now now' m.tasks m.log;
      })
  unfolding Invariant enqueue add_entries
  enqueue-Invariant m none skippable now now' h =
      elim (Bool-cases (w.shutting_down m.tasks.queue)) [ inl down ↦ rw down h | inr up ↦ rw up h ]
  enqueue-Invariant m (some k) skippable now now' (r, c) =
      elim (Bool-cases (w.shutting_down m.tasks.queue)) [
        | inl down ↦ rw down (r, c)
        | inr up ↦ rw up (Recorded-cons m.tasks.last_sync _ m.log r, c)
      ]

  on_taken-Invariant :
      (t : Taken w.State) (m : Machine w) (now : ℕ)
      → Invariant m
      → Invariant (record {
        tasks = (on_taken w t now m.tasks).1;
        phase = (on_taken w t now m.tasks).0;
        log = taken_entries w t m.tasks m.log;
      })
  unfolding Invariant on_taken taken_entries
  on_taken-Invariant waits m now h = h
  on_taken-Invariant (quit s) m now h = h
  on_taken-Invariant (item e s) m now (r, c) =
      elim (Bool-cases (ltb e.timestamp m.tasks.last_sync)) [
        | inr new ↦ rw new (r, c)
        | inl old ↦
            let covered : (e' : Element) × (ts : ℕ) × In (synced e' ts) m.log × e.timestamp < ts =
              elim r [
                | inl zero_sync ↦ absurd (ground (arith, old, zero_sync))
                | inr (e', i) ↦ (e', m.tasks.last_sync, i, ground (arith, old))
              ] in
            rw old (Recorded-cons m.tasks.last_sync (skipped e) m.log r, (covered, c))
      ]

  finish_round-Invariant :
      (m : Machine w) (e : Element) (ts : ℕ) (fails : Bool) (now : ℕ)
      → Invariant m
      → Invariant (record {
        tasks = finish_round w e ts fails now m.tasks;
        phase = idle;
        log = (if fails then failed e else synced e ts) ∷ m.log;
      })
  unfolding Invariant finish_round
  finish_round-Invariant m e ts true now (r, c) =
      (Recorded-cons m.tasks.last_sync (failed e) m.log r, c)
  finish_round-Invariant m e ts false now (r, c) = (inr (e, inl refl), c)

  shutdown-Invariant :
      (m : Machine w) → Invariant m → Invariant (record m { tasks = shutdown w m.tasks })
  unfolding Invariant shutdown
  shutdown-Invariant m h = h

  Step-Invariant : (m m' : Machine w) → Step w m m' → Invariant m → Invariant m'
  unfolding begin_round begin_entries
  Step-Invariant m m' (enqueues _ key skippable now now') h =
      enqueue-Invariant m key skippable now now' h
  Step-Invariant m m' (begins _ now p) h = on_taken-Invariant (w.get m.tasks.queue) m now h
  Step-Invariant m m' (finishes _ e ts fails now p) h = finish_round-Invariant m e ts fails now h
  Step-Invariant m m' (shuts_down _) h = shutdown-Invariant m h

  -- Whatever the work queue, the clock and the results of the synchronisations: an element that the
  -- worker skips is covered by a synchronisation that succeeded before and that began after the
  -- timestamp of the element.
  pub Reached-Covered : (m : Machine w) → Reached w m → Covered m.log
  unfolding Invariant
  Reached-Covered m h = (invariant m h).1
    where
      invariant : (m : Machine w) → Reached w m → Invariant m
      invariant _ (start s) = (inl refl, tt)
      invariant _ (later m m' h step) = Step-Invariant m m' step (invariant m h)
