-- ===== src/Task/Memory.antt =====
-- A work queue in memory that meets what is relied on, for the examples.
use wls_ingress.Base.{ℕ, Bool, true, false, List, [], ◌∷◌, ◌++◌, ◌≡◌, if◌then◌else◌}
use wls_ingress.Base.{
  append-nil, sym, In, In-append_left, In-append_right, inl, inr, ◌⊎◌, refl, Bool-cases, subst,
}
use wls_ingress.Base.Text.{Text}
use wls_ingress.Task.{Element, Taken, item, quit, waits, WorkQueue}
use wls_ingress.Task.Rounds.Progress.{IsFair}
use wls_ingress.Task.Outstanding.{IsWorkQueue}

-- The elements in order, and whether the queue is shut down. An element whose rate limit is running
-- is at the end at once.
pub record Memory : Type 0 where
  pub elements : List Element
  pub down : Bool

unfoldable pub take_first : List Element → Bool → Taken Memory
take_first [] true = quit (record { elements = []; down = true })
take_first [] false = waits
take_first (e ∷ es) down = item e (record { elements = es; down = down })

abbrev pub memory : WorkQueue
memory = record {
  State = Memory;
  add = λ e s. if s.down then s else record s { elements = s.elements ++ e ∷ [] };
  get = λ s. take_first s.elements s.down;
  forget = λ e s. s;
  done = λ e s. s;
  add_rate_limited = λ e s. if s.down then s else record s { elements = s.elements ++ e ∷ [] };
  shut_down = λ s. record s { down = true };
  shutting_down = λ s. s.down;
}

pub pushed : (e : Element) (s : Memory) → s.down ≡ false → In e (memory.add e s).elements
pushed e s h = rw h (In-append_right e s.elements (e ∷ []) (inl refl))

pub pushed_keeps : (e x : Element) (s : Memory) → In x s.elements → In x (memory.add e s).elements
pushed_keeps e x s h = elim (Bool-cases s.down) [
  | inl down ↦ rw down h
  | inr up ↦ rw up (In-append_left x s.elements (e ∷ []) h)
]

pub pushed_down : (e : Element) (s : Memory) → (memory.add e s).down ≡ s.down
pushed_down e s = elim (Bool-cases s.down) [ inl down ↦ rw down refl | inr up ↦ rw up refl ]

pub taken_keeps :
    (e x : Element) (es : List Element) (down : Bool) (s' : Memory)
    → take_first es down ≡ item e s'
    → In x es
    → (x ≡ e) ⊎ In x s'.elements
unfolding take_first
taken_keeps e x [] down s' h i = elim i [ ]
taken_keeps e x (y ∷ es) down s' h i = elim i [
  | inl same ↦ inl cc
  | inr rest ↦
      let end : record { elements = es; down = down } ≡ s' = cc in
      inr (subst (λ (m : Memory). In x m.elements) end rest)
]

pub taken_down :
    (e : Element) (es : List Element) (down : Bool) (s' : Memory)
    → take_first es down ≡ item e s'
    → s'.down ≡ down
unfolding take_first
taken_down e [] true s' h = cc
taken_down e [] false s' h = cc
taken_down e (y ∷ es) down s' h = cc

pub taken_quits :
    (es : List Element) (down : Bool) (s' : Memory) → take_first es down ≡ quit s' → s'.down ≡ true
unfolding take_first
taken_quits [] true s' h = cc
taken_quits [] false s' h = cc
taken_quits (y ∷ es) down s' h = cc

pub quits_down :
    (es : List Element) (down : Bool) (s' : Memory) → take_first es down ≡ quit s' → down ≡ true
unfolding take_first
quits_down [] true s' h = refl
quits_down [] false s' h = cc
quits_down (y ∷ es) down s' h = cc

unfoldable pub memory-IsWorkQueue : IsWorkQueue memory
memory-IsWorkQueue = record {
  Queued = λ s e. In e s.elements;
  add_queues = λ e s h. pushed e s h;
  add_keeps = λ e x s h. pushed_keeps e x s h;
  limited_queues = λ e s h. pushed e s h;
  limited_keeps = λ e x s h. pushed_keeps e x s h;
  get_keeps = λ e x s s' g h. taken_keeps e x s.elements s.down s' g h;
  forget_keeps = λ e x s h. h;
  done_keeps = λ e x s h. h;
  add_down = λ e s. pushed_down e s;
  limited_down = λ e s. pushed_down e s;
  get_down = λ e s s' g. taken_down e s.elements s.down s' g;
  get_quits = λ s s' g. taken_quits s.elements s.down s' g;
  quits_down = λ s s' g. quits_down s.elements s.down s' g;
  forget_down = λ e s. refl;
  done_down = λ e s. refl;
  shut_down_down = λ s. refl;
}

abbrev pub task : Text → ℕ → Element
task key timestamp = record { key = key; timestamp = timestamp; is_skippable = false }

abbrev pub empty : Memory
empty = record { elements = []; down = false }

pub taken_first :
    (e : Element) (es : List Element) (s : Memory)
    → s.elements ≡ e ∷ es
    → (s' : Memory) × (take_first s.elements s.down ≡ item e s') × (s'.elements ≡ es)
unfolding take_first
taken_first e es s h = (record { elements = es; down = s.down }, rw h, refl)

pub pushed_behind :
    (e : Element) (s : Memory)
    → (more : List Element) × ((memory.add e s).elements ≡ s.elements ++ more)
pushed_behind e s = elim (Bool-cases s.down) [
  | inl down ↦ rw down ([], sym (append-nil s.elements))
  | inr up ↦ rw up (e ∷ [], refl)
]

unfoldable pub memory-IsFair : IsFair memory
memory-IsFair = record {
  line = λ s. s.elements;
  get_first = λ e es s h. taken_first e es s h;
  add_behind = λ e s. pushed_behind e s;
  limited_behind = λ e s. pushed_behind e s;
  forget_line = λ e s. refl;
  done_behind = λ e s. ([], sym (append-nil s.elements));
}
