-- ===== src/Task/Outstanding.antt =====
-- No task is lost.
use wls_ingress.Base.{
  ℕ, Bool, true, false, not, ◌&&◌, ◌||◌, List, [], ◌∷◌, Option, none, some, ◌≡◌, ◌≢◌, if◌then◌else◌,
  ltb,
}
use wls_ingress.Base.{inl, inr, ◌⊎◌, arith, Bool-cases, refl, sym, ◌∙◌}
use wls_ingress.Base.Text.{Text, ◌==◌, ==_iff}
use wls_ingress.Task.{
  Element, Taken, item, quit, waits, WorkQueue, Phase, idle, syncing, element, enqueue, on_taken,
  begin_round, finish_round, shutdown,
}
use wls_ingress.Task.Machine.{
  Entry, added, skipped, synced, failed, Machine, Step, enqueues, begins, finishes, shuts_down,
  Reached, start, later, add_entries, taken_entries, begin_entries,
}

-- What client-go documents of the work queue. `Queued` are the elements that a later Get returns,
-- those whose rate limit is running included; Done does not remove an element that was added again
-- while it was processed.
pub record IsWorkQueue (w : WorkQueue) : Type 1 where
  pub Queued : w.State → Element → Type 0
  pub add_queues : (e : Element) (s : w.State) → w.shutting_down s ≡ false → Queued (w.add e s) e
  pub add_keeps : (e x : Element) (s : w.State) → Queued s x → Queued (w.add e s) x
  pub limited_queues :
      (e : Element) (s : w.State) → w.shutting_down s ≡ false → Queued (w.add_rate_limited e s) e
  pub limited_keeps : (e x : Element) (s : w.State) → Queued s x → Queued (w.add_rate_limited e s) x
  pub get_keeps :
      (e x : Element) (s s' : w.State) → w.get s ≡ item e s' → Queued s x → (x ≡ e) ⊎ Queued s' x
  pub forget_keeps : (e x : Element) (s : w.State) → Queued s x → Queued (w.forget e s) x
  pub done_keeps : (e x : Element) (s : w.State) → Queued s x → Queued (w.done e s) x
  pub add_down : (e : Element) (s : w.State) → w.shutting_down (w.add e s) ≡ w.shutting_down s
  pub limited_down :
      (e : Element) (s : w.State) → w.shutting_down (w.add_rate_limited e s) ≡ w.shutting_down s
  pub get_down :
      (e : Element) (s s' : w.State) → w.get s ≡ item e s' → w.shutting_down s' ≡ w.shutting_down s
  pub get_quits : (s s' : w.State) → w.get s ≡ quit s' → w.shutting_down s' ≡ true
  pub quits_down : (s s' : w.State) → w.get s ≡ quit s' → w.shutting_down s ≡ true
  pub forget_down : (e : Element) (s : w.State) → w.shutting_down (w.forget e s) ≡ w.shutting_down s
  pub done_down : (e : Element) (s : w.State) → w.shutting_down (w.done e s) ≡ w.shutting_down s
  pub shut_down_down : (s : w.State) → w.shutting_down (w.shut_down s) ≡ true

-- An element with the key was added after the last time that one was synchronised or skipped.
unfoldable pub outstanding : Text → List Entry → Bool
outstanding k [] = false
outstanding k (added e ∷ log) = e.key == k || outstanding k log
outstanding k (skipped e ∷ log) = not (e.key == k) && outstanding k log
outstanding k (synced e ts ∷ log) = not (e.key == k) && outstanding k log
outstanding k (failed e ∷ log) = outstanding k log

other_key : (a k : Text) (b : Bool) → (not (a == k) && b) ≡ true → (a ≢ k) × (b ≡ true)
other_key a k b h = (λ e. ground (arith, ==_iff a k), ground arith)

module _ (w : WorkQueue) (laws : IsWorkQueue w) where
  abbrev Waiting : Text → w.State → Type 0
  Waiting k s = (x : Element) × laws.Queued s x × (x.key ≡ k)

  abbrev pub AtWork : Text → Phase → Type 0
  AtWork k p = (e : Element) × (ts : ℕ) × (p ≡ syncing e ts) × (e.key ≡ k)

  -- An element with the key is queued, or the worker is synchronising one.
  abbrev pub Kept : Text → Machine w → Type 0
  Kept k m = Waiting k m.tasks.queue ⊎ AtWork k m.phase

  abbrev AllKept : Machine w → Type 0
  AllKept m =
      w.shutting_down m.tasks.queue ≡ false → (k : Text) → outstanding k m.log ≡ true → Kept k m

  not_AtWork : (k : Text) (p : Phase) → p ≡ idle → ¬ AtWork k p
  not_AtWork k p i (e, ts, f, g) = cc

  AtWork-iff :
      (k : Text) (p : Phase) (e : Element) (ts : ℕ) → p ≡ syncing e ts → AtWork k p → e.key ≡ k
  AtWork-iff k p e ts f (e', ts', g, h) = let same : e' ≡ e = cc in cc

  enqueue-AllKept :
      (m : Machine w) (key : Option Text) (skippable : Bool) (now now' : ℕ)
      → AllKept m
      → AllKept (record m {
        tasks = enqueue w key skippable now now' m.tasks;
        log = add_entries w key skippable now now' m.tasks m.log;
      })
  unfolding enqueue add_entries element outstanding
  enqueue-AllKept m none skippable now now' h = elim (Bool-cases (w.shutting_down m.tasks.queue)) [
    | inl down ↦ rw down h
    | inr up ↦ rw up h
  ]
  enqueue-AllKept m (some j) skippable now now' h =
      elim (Bool-cases (w.shutting_down m.tasks.queue)) [
        | inl down ↦ rw down h
        | inr up ↦ rw up (λ d k o. elim (Bool-cases (j == k)) [
          | inl same ↦
              let e = element w j skippable now now' in
              inl (e, laws.add_queues e m.tasks.queue up, (==_iff j k).0 same)
          | inr other ↦ elim (h up k (ground arith)) [
            | inl (x, q, f) ↦ inl (x, laws.add_keeps _ x m.tasks.queue q, f)
            | inr work ↦ inr work
          ]
        ])
      ]

  on_taken-AllKept :
      (t : Taken w.State) (m : Machine w) (now : ℕ)
      → w.get m.tasks.queue ≡ t
      → m.phase ≡ idle
      → AllKept m
      → AllKept (record {
        tasks = (on_taken w t now m.tasks).1;
        phase = (on_taken w t now m.tasks).0;
        log = taken_entries w t m.tasks m.log;
      })
  unfolding on_taken taken_entries outstanding
  on_taken-AllKept waits m now g p h =
      λ d k o. elim (h d k o) [ inl x ↦ inl x | inr work ↦ absurd (not_AtWork k m.phase p work) ]
  on_taken-AllKept (quit s) m now g p h = λ d k o. cc (laws.get_quits m.tasks.queue s g, d)
  on_taken-AllKept (item e s) m now g p h = elim (Bool-cases (ltb e.timestamp m.tasks.last_sync)) [
    | inr new ↦ rw new (λ d k o. elim (h (sym (laws.get_down e m.tasks.queue s g) ∙ d) k o) [
      | inl (x, q, f) ↦ elim (laws.get_keeps e x m.tasks.queue s g q) [
        | inl same ↦ inr (e, now, refl, cc)
        | inr still ↦ inl (x, still, f)
      ]
      | inr work ↦ absurd (not_AtWork k m.phase p work)
    ])
    | inl old ↦ rw old (λ d k o.
        let (ne, o') = other_key e.key k (outstanding k m.log) o in
        let up =
          sym (laws.get_down e m.tasks.queue s g)
          ∙ sym (laws.forget_down e s)
          ∙ sym (laws.done_down e (w.forget e s))
          ∙ d in
        elim (h up k o') [
          | inl (x, q, f) ↦ elim (laws.get_keeps e x m.tasks.queue s g q) [
            | inl same ↦ absurd (ne cc)
            | inr still ↦ inl (x, laws.done_keeps e x _ (laws.forget_keeps e x s still), f)
          ]
          | inr work ↦ absurd (not_AtWork k m.phase p work)
        ])
  ]

  finish_round-AllKept :
      (m : Machine w) (e : Element) (ts : ℕ) (fails : Bool) (now : ℕ)
      → m.phase ≡ syncing e ts
      → AllKept m
      → AllKept (record {
        tasks = finish_round w e ts fails now m.tasks;
        phase = idle;
        log = (if fails then failed e else synced e ts) ∷ m.log;
      })
  unfolding finish_round outstanding
  finish_round-AllKept m e ts true now p h d k o =
      let again : Element = record { key = e.key; timestamp = now; is_skippable = false } in
      let q = m.tasks.queue in
      let up =
        sym (laws.limited_down again q) ∙ sym (laws.done_down e (w.add_rate_limited again q)) ∙ d in
      elim (h up k o) [
        | inl (x, i, f) ↦ inl (x, laws.done_keeps e x _ (laws.limited_keeps again x q i), f)
        | inr work ↦ inl (
          again,
          laws.done_keeps e again _ (laws.limited_queues again q up),
          AtWork-iff k m.phase e ts p work,
        )
      ]
  finish_round-AllKept m e ts false now p h d k o =
      let (ne, o') = other_key e.key k (outstanding k m.log) o in
      let q = m.tasks.queue in
      let up = sym (laws.forget_down e q) ∙ sym (laws.done_down e (w.forget e q)) ∙ d in
      elim (h up k o') [
        | inl (x, i, f) ↦ inl (x, laws.done_keeps e x _ (laws.forget_keeps e x q i), f)
        | inr work ↦ absurd (ne (AtWork-iff k m.phase e ts p work))
      ]

  Step-AllKept : (m m' : Machine w) → Step w m m' → AllKept m → AllKept m'
  unfolding begin_round begin_entries shutdown
  Step-AllKept m m' (enqueues _ key skippable now now') h =
      enqueue-AllKept m key skippable now now' h
  Step-AllKept m m' (begins _ now p) h = on_taken-AllKept (w.get m.tasks.queue) m now refl p h
  Step-AllKept m m' (finishes _ e ts fails now p) h = finish_round-AllKept m e ts fails now p h
  Step-AllKept m m' (shuts_down _) h = λ d k o. cc (laws.shut_down_down m.tasks.queue, d)

  -- Until the queue is shut down no task is lost: if an element with a key was added and none with
  -- that key was synchronised with success or skipped since, then one with the key is queued or is
  -- being synchronised, however many synchronisations failed.
  pub Reached-Kept :
      (m : Machine w)
      → Reached w m
      → w.shutting_down m.tasks.queue ≡ false
      → (k : Text) → outstanding k m.log ≡ true
      → Kept k m
  unfolding outstanding
  Reached-Kept _ (start s) d k o = cc
  Reached-Kept _ (later m m' h step) d k o = Step-AllKept m m' step (Reached-Kept m h) d k o
