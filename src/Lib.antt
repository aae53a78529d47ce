-- ===== src/Lib.antt =====
-- A model of wls-ingress, an ingress controller that routes HTTP sessions to WebLogic servers.
--
-- The program watches ingresses, services and endpoints of a cluster. The handlers of its store
-- announce every change by an event, which the event loop of the controller turns into a task of its
-- queue. The worker of the queue synchronises: it turns the objects of the store into a configuration
-- (host names and their upstreams), which the HTTP handler serves from. The handler keeps the sessions
-- sticky by a table in redis, from the JSESSIONID cookie to the address of an upstream; the leader
-- removes the sessions of addresses that are gone and writes the status of the ingresses.
--
-- Files, and the code that each models:
--   Base            shared helpers: texts as lists of code points, slices (nil or a list), maps as
--                   association lists, Go's integers, and Run, a result or a panic
--   Sets            internal/sets/match.go: Compare
--   Ingress         internal/ingress/types.go, types_equals.go, and the fields of the Kubernetes
--                   objects that the program reads
--   Config          internal/ingress/controller/config
--   Redis           internal/redis/redis.go; Redis.Laws states what is relied on of the server,
--                   Redis.Server is a server in memory that meets it, Redis.Lifetimes
--                   what the calls do to the times to live, Redis.Clocked a server whose keys expire,
--                   Redis.Table the table of sessions, kept for an hour, that the calls refine: Keys
--                   (when redis holds it), Sessions and Sweeps (what the calls do), Refinement
--   Controller      internal/ingress/controller: Endpoints (endpoints.go), Services and Routing
--                   (controller.go, util.go), Sync (controller.go, wls.go)
--   Handler         internal/ingress/handler/http/handler.go: Total (panics), Sticky (sessions),
--                   Hosts (the endpoints of a host), Forwards (that a request is forwarded),
--                   Proxies (where a request can go), Replicas (two handlers, one redis)
--   Election        internal/ingress/controller/status.go and the callbacks of Start in wls.go:
--                   Leading (when the channel can be closed), Races (leases lost and regained)
--   Lifecycle       internal/ingress/controller/wls.go from NewWLSController to Stop, with the event
--                   loop, and handleSigterm of cmd/wls/main.go: Stopping (what Stop does), Afterwards
--                   (what happens after it), Events (the queue), Delivery (from events to tasks)
--   Metric          internal/ingress/metric: Vectors states what is relied on of prometheus, Memory is
--                   one that meets it
--   Annotations     internal/ingress/annotations and internal/ingress/errors; Extract is the loop over
--                   the parsers
--   Store           internal/ingress/controller/store/store.go: the handlers of events;
--                   Store.Mirror states what is relied on of the cache and the informer, Store.Memory
--                   is a cache that meets it; Store.Informers is the start of the informers
--   Task            internal/task/queue.go; Task.Machine is the state machine of the queue and its
--                   worker, Task.Outstanding and Task.Rounds.Progress state what is relied on of the
--                   work queue, Task.Memory is one that meets it; Task.Rounds is the worker's loop
--   Status          internal/ingress/status/status.go and the address helpers of
--                   internal/k8s/main.go
--   Kube            the rest of internal/k8s/main.go
--   Startup         cmd/wls/flags.go and cmd/wls/main.go up to the call of Start: Classes (which
--                   ingresses are satisfied), Connecting (createApiserverClient), Launch (main)
--   Convergence     the parts together: Reflects goes from the calls of the informer to the hosts that
--                   are served; Running is the controller at work as one machine (objects, events,
--                   queue, worker, clock), Accounting what it always has left to do, Quiescence what
--                   holds when nothing is left, Chosen and Requests where a request goes then
--
-- A struct is a record, a pointer an Option, a slice an Option of a list (nil and empty differ for
-- the code), a map an association list. The order in which Go ranges over a map is a parameter, a
-- permutation. A nil dereference or an index out of range is the panic of Run. The state of the
-- controller, of the handler and of redis is passed explicitly. Goroutines are steps of a state
-- machine, in any order. Commands of redis can fail each time; the listers, url.Parse, rand.Intn,
-- DNS, the upstreams, prometheus, mergo, pflag and the backoff of apimachinery are parameters. Two
-- loops take fuel: the digits of a number, the number itself plus one, and strings.Split, the length
-- of the text, in which a separator that is not empty cannot occur more often.
--
-- In Convergence.Running a synchronisation reads the objects at one moment, after the worker has
-- read the clock; an event waits from the moment of its change. The services and the answers
-- of DNS do not change there: the handler of the events of services is empty, so that such a change
-- waits for the next one of an endpoint or an ingress. Stop is no step of it: after Stop the event
-- loop drops the events.
--
-- A key of redis can expire between calls of internal/redis, not during one. The election cuts the
-- callbacks at each write of what they share, since client-go runs OnStartedLeading in a goroutine.
--
-- Not modelled: logging, the connections, the informers, and the overflow of the ring channel of
-- 1024 events, which would drop the oldest. Concurrent requests are taken one after another.
pub mod Base
pub mod Sets
pub mod Ingress
pub mod Config
pub mod Redis
pub mod Controller
pub mod Handler
pub mod Task
pub mod Status
pub mod Lifecycle
pub mod Kube
pub mod Startup
pub mod Convergence
pub mod Annotations
pub mod Store
pub mod Election
pub mod Metric
