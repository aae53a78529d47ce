-- ===== src/Redis/Table.antt =====
-- What redis.Manager promises: a table from the cookies to the addresses of the upstreams. The
-- calls of internal/redis/redis.go, made one after another by whatever replicas share the redis,
-- beside the same calls on the table. Time passes between the calls: an entry that is neither added
-- again nor renewed for an hour is gone.
pub mod Keys
pub mod Sessions
pub mod Sweeps
pub mod Refinement
mod Tests
use wls_ingress.Base.{
  ℕ, ◌-◌, ltb, Bool, true, false, not, List, [], ◌∷◌, Option, none, some, if◌then◌else◌,
}
use wls_ingress.Base.Text.{Text, ◌==◌}
use wls_ingress.Base.Maps.{Map}
use wls_ingress.Redis.{
  Client, Got, found, get_endpoint, add_cookie, clean, remove_endpoint, contains,
}

-- A call, or that seconds pass.
pub data Call : Type 0 where
  adds : (jsession endpoint : Text) → Call
  gets : (jsession : Text) (update : Bool) → Call
  cleans : (endpoints : List Text) → Call
  removes : (endpoint : Text) → Call
  waits : (seconds : ℕ) → Call

-- What a call returns: nothing, the result of GetEndpoint, or whether Clean had no error.
pub data Result : Type 0 where
  none_returned : Result
  got : Got → Result
  no_error : Bool → Result

-- The table: the addresses, with the seconds they are kept.
abbrev pub Table : Type 0
Table = Text → Option (Text × ℕ)

-- An hour, in seconds.
abbrev pub lifetime : ℕ
lifetime = 3600

-- An address that passes the test stays.
abbrev pub kept : (Text → Bool) → Option (Text × ℕ) → Option (Text × ℕ)
kept stays none = none
kept stays (some (v, l)) = if stays v then some (v, l) else none

abbrev pub address : Option (Text × ℕ) → Got
address none = found []
address (some (v, l)) = found v

-- An entry that is there is kept for an hour from now.
abbrev pub renewed : Option (Text × ℕ) → Option (Text × ℕ)
renewed none = none
renewed (some (v, l)) = some (v, lifetime)

abbrev pub aged : ℕ → Option (Text × ℕ) → Option (Text × ℕ)
aged t none = none
aged t (some (v, l)) = if ltb t l then some (v, l - t) else none

-- A call on the table.
abbrev pub replay_call : Call → Table → Result × Table
replay_call (adds j e) f = (none_returned, λ i. if j == i then some (e, lifetime) else f i)
replay_call (gets j true) f = (got (address (f j)), λ i. if j == i then renewed (f i) else f i)
replay_call (gets j false) f = (got (address (f j)), f)
replay_call (cleans endpoints) f = (no_error true, λ i. kept (contains endpoints) (f i))
replay_call (removes e) f = (none_returned, λ i. kept (λ v. not (e == v)) (f i))
replay_call (waits t) f = (none_returned, λ i. aged t (f i))

unfoldable pub replay : List Call → Table → List Result × Table
replay [] f = ([], f)
replay (c ∷ cs) f = let (r, f') = replay_call c f in let (rs, f'') = replay cs f' in (r ∷ rs, f'')

module _ (client : Client) (prefix : Text) (order : Map Text → Map Text)
    (passes : ℕ → client.State → client.State) where
  -- A call on redis.
  unfoldable pub run_call : Call → client.State → Result × client.State
  run_call (adds j e) s = (none_returned, add_cookie client prefix j e s)
  run_call (gets j update) s = let (g, s') = get_endpoint client prefix j update s in (got g, s')
  run_call (cleans endpoints) s =
      let (fine, s') = clean client prefix order endpoints s in (no_error fine, s')
  run_call (removes e) s = (none_returned, remove_endpoint client prefix order e s)
  run_call (waits t) s = (none_returned, passes t s)

  unfoldable pub run : List Call → client.State → List Result × client.State
  run [] s = ([], s)
  run (c ∷ cs) s = let (r, s') = run_call c s in let (rs, s'') = run cs s' in (r ∷ rs, s'')

  -- Redis if only the time passes.
  abbrev pub wait_call : Call → client.State → client.State
  wait_call (adds j e) s = s
  wait_call (gets j update) s = s
  wait_call (cleans endpoints) s = s
  wait_call (removes e) s = s
  wait_call (waits t) s = passes t s

  unfoldable pub waited : List Call → client.State → client.State
  waited [] s = s
  waited (c ∷ cs) s = waited cs (wait_call c s)
